-- ===== src/Network/Ports/RoundTrip.antt =====
-- `ports_as_list` reads back what `port_list_compress` prints, between the two headers.
use ospd_openvas.Network.Ports.Check.{
  DashesPass-cons, port_list_compress-IsItemChar, port_list_compress-DashesPass, DashesPass,
}
use ospd_openvas.Network.Ports.Compress.RoundTrip.{
  groupby-IsRun, port_list-port_list_compress, IsRun,
}
use ospd_openvas.Prelude.{
  ◌∙◌, arith, append-nil, inr, inl, refl, ◌==◌, Bool-cases, [], ◌≡◌, map, ◌∷◌, ◌≢◌, All, List, ℕ,
}
use ospd_openvas.Network.Ports.{bad_dash, lists, ports_as_list}
use ospd_openvas.Network.Ports.Compress.{
  enumerate, groupby, last_port, port_list_compress, group_text,
}
use ospd_openvas.Network.Ports.PortString.{ports_as_list-port_string, port_string}
use ospd_openvas.Py.Number.RoundTrip.{str-IsDigit, str-ne-nil, IsDigit}
use ospd_openvas.Py.Number.{str}
use ospd_openvas.Py.Order.{sort_set}
use ospd_openvas.Py.Result.{ok}
use ospd_openvas.Py.Text.Lacks.{last_of-append, last_of-All, last_of}
use ospd_openvas.Py.Text.{Text, join}

last_of-IsDigit : (c : ℕ) (s : Text) → s ≢ [] → All IsDigit s → IsDigit (last_of c s)
last_of-IsDigit c [] h _ = absurd (h refl)
last_of-IsDigit c (d ∷ s) h hs = unfold last_of in last_of-All IsDigit d s hs

last_of-group_text : (c : ℕ) (g : List (ℕ × ℕ)) → IsRun g → IsDigit (last_of c (group_text g))
unfolding group_text
last_of-group_text c [] h = absurd h
last_of-group_text c ((i, x) ∷ g) h =
    let last : ℕ = last_port (i, x) g in
    elim (Bool-cases (x == last)) [
      | inl e ↦ rw e (last_of-IsDigit c (str x) (str-ne-nil x) (str-IsDigit x))
      | inr e ↦
          rw (e, last_of-append c b'-' (str x) (str last))
            (last_of-IsDigit b'-' (str last) (str-ne-nil last) (str-IsDigit last))
    ]

last_of-groups :
    (c : ℕ) (g : List (ℕ × ℕ)) (gs : List (List (ℕ × ℕ)))
    → All IsRun (g ∷ gs)
    → IsDigit (last_of c (join b',' (map group_text (g ∷ gs))))
unfolding join
last_of-groups c g [] (h, _) = last_of-group_text c g h
last_of-groups c g (h ∷ gs) (_, hs) =
    rw (last_of-append c b',' (group_text g) (join b',' (map group_text (h ∷ gs))))
      (last_of-groups b',' h gs hs)

last_of-joined :
    (gs : List (List (ℕ × ℕ)))
    → All IsRun gs
    → (last_of b':' (join b',' (map group_text gs)) ≢ b'-')
      × (last_of b':' (join b',' (map group_text gs)) ≢ b',')
last_of-joined [] h = unfold join last_of in omega arith
last_of-joined (g ∷ gs) h = omega (arith, last_of-groups b':' g gs h)

-- The text of a list ends in a digit, or is empty.
pub last_of-compress :
    (ports : List ℕ)
    → (last_of b':' (port_list_compress ports) ≢ b'-')
      × (last_of b':' (port_list_compress ports) ≢ b',')
unfolding port_list_compress
last_of-compress [] = unfold last_of in omega arith
last_of-compress (p ∷ ports) =
    last_of-joined (groupby (enumerate 0 (sort_set (p ∷ ports)))) (groupby-IsRun 0 _)

pub DashesPass-port_string :
    (tcp udp : List ℕ) → DashesPass (port_string (port_list_compress tcp) (port_list_compress udp))
DashesPass-port_string tcp udp =
    let udp_pass : DashesPass (port_list_compress udp) =
      rw (← append-nil (port_list_compress udp))
        (port_list_compress-DashesPass udp [] (λ prev. unfold bad_dash in refl)) in
    DashesPass-cons b'T' _ (omega arith) (
      DashesPass-cons b':' _ (omega arith) (
        port_list_compress-DashesPass tcp _ (
          DashesPass-cons b',' _ (omega arith) (
            DashesPass-cons b'U' _ (omega arith) (DashesPass-cons b':' _ (omega arith) udp_pass)))))

-- A port string with both headers, printed by `port_list_compress`, is read back: the ports of
-- each list, in order and once each, and two Nones if there are none.
pub ports_as_list-port_list_compress :
    (tcp udp : List ℕ)
    → ports_as_list (port_string (port_list_compress tcp) (port_list_compress udp))
      ≡ ok (lists (sort_set tcp) (sort_set udp))
ports_as_list-port_list_compress tcp udp =
    let (no_dash, no_comma) = last_of-compress udp in
    ports_as_list-port_string (port_list_compress tcp) (port_list_compress udp)
      (port_list_compress-IsItemChar tcp) (port_list_compress-IsItemChar udp)
      (DashesPass-port_string tcp udp) no_dash no_comma
    ∙ rw (port_list-port_list_compress tcp, port_list-port_list_compress udp)
