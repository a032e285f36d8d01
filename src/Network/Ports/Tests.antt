-- ===== src/Network/Ports/Tests.antt =====
-- Runs of the port list functions, and the theorems about them at concrete inputs.
use ospd_openvas.Prelude.{ℕ, List, ◌≢◌, All, ◌↔◌, true, ◌⊎◌, ◌≡◌, refl, [], ◌∷◌, some}
use ospd_openvas.Network.Ports.Valid.{
  valid_port_list-port_list_compress, InRange, valid_port_list_sound, AllValid,
}
use ospd_openvas.Network.Ports.RoundTrip.{ports_as_list-port_list_compress}
use ospd_openvas.Network.Ports.{lists, Lists, port_list, program, ports_as_list, valid_port_list}
use ospd_openvas.Network.Ports.Compress.RoundTrip.{port_list-port_list_compress}
use ospd_openvas.Network.Ports.Compress.{port_list_compress}
use ospd_openvas.Network.Ports.PortString.{port_string}
use ospd_openvas.Py.Text.{remove_char, codes}
use ospd_openvas.Py.Order.{sort_set}
use ospd_openvas.Py.Result.{ok, raise, value_error, index_error}

tests :
    (ports_as_list (codes "T:1,2,3,5-8 U:22,80,600-602")
      ≡ ok (some (1 ∷ 2 ∷ 3 ∷ 5 ∷ 6 ∷ 7 ∷ 8 ∷ []), some (22 ∷ 80 ∷ 600 ∷ 601 ∷ 602 ∷ [])))
    × (ports_as_list (codes "T:1,2") ≡ ok (some (12 ∷ []), some []))
    × (ports_as_list (codes "T:1,2,") ≡ raise value_error)
    × (valid_port_list (codes " ") ≡ raise index_error)
    × (ports_as_list (codes "U:9-7,80-81,T:22") ≡ ok (some (22 ∷ []), some (80 ∷ 81 ∷ [])))
unfolding program
tests = (refl, refl, refl, refl, refl)

port_list-port_list_compress_example :
    port_list (port_list_compress (22 ∷ 80 ∷ 21 ∷ 22 ∷ 23 ∷ [])) ≡ ok (21 ∷ 22 ∷ 23 ∷ 80 ∷ [])
unfolding sort_set
port_list-port_list_compress_example = port_list-port_list_compress (22 ∷ 80 ∷ 21 ∷ 22 ∷ 23 ∷ [])

ports_as_list-port_list_compress_example :
    ports_as_list (port_string (port_list_compress (81 ∷ 80 ∷ [])) (port_list_compress (53 ∷ [])))
    ≡ ok (lists (80 ∷ 81 ∷ []) (53 ∷ []))
unfolding sort_set
ports_as_list-port_list_compress_example = ports_as_list-port_list_compress (81 ∷ 80 ∷ []) (53 ∷ [])

abbrev mixed : List ℕ
mixed = 80 ∷ 70000 ∷ []

valid_port_list-port_list_compress_example :
    (valid_port_list (port_string (port_list_compress (80 ∷ [])) (port_list_compress (70000 ∷ [])))
      ≡ ok true)
    ↔ (All InRange (80 ∷ []) × All InRange (70000 ∷ []) × (mixed ≢ []))
valid_port_list-port_list_compress_example =
    valid_port_list-port_list_compress (80 ∷ []) (70000 ∷ [])

valid_port_list_sound_example :
    (remove_char b' ' (codes "T:80, 443,U:53") ≡ codes "U:,T:")
    ⊎ ((ls : Lists) × (ports_as_list (remove_char b' ' (codes "T:80, 443,U:53")) ≡ ok ls)
        × AllValid ls)
unfolding program
valid_port_list_sound_example = valid_port_list_sound (codes "T:80, 443,U:53") refl
