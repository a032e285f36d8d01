-- ===== src/Network/Ports/Valid.antt =====
-- What `valid_port_list` accepts.
use ospd_openvas.Py.Order.Sorted.{All-sort_set_iff, sort_set-ne-nil}
use ospd_openvas.Network.Ports.RoundTrip.{
  ports_as_list-port_list_compress, last_of-compress, DashesPass-port_string,
}
use ospd_openvas.Network.Ports.PortString.{
  ports_str_check_failed-port_string, Lacks-port_string, port_string,
}
use ospd_openvas.Py.Text.Lacks.{remove_char_of_Lacks}
use ospd_openvas.Network.Ports.Check.{port_list_compress-IsItemChar}
use ospd_openvas.Prelude.{
  ap, if◌then◌else◌, ◌∙◌, Bool, false, sym, inr, inl, refl, Bool-cases, arith, ◌∷◌, ◌⊎◌, [], ◌≢◌,
  ◌++◌, ◌↔◌, true, ◌≤◌, All, ◌≡◌, ℕ, List,
}
use ospd_openvas.Py.Order.{sort_set}
use ospd_openvas.Network.Ports.{
  lists, ports_str_check_failed, ports_as_list, listed, valid_port_list, valid_ports, all_in_range,
  Lists,
}
use ospd_openvas.Py.Result.{◌>>=◌, >>=-eq-ok, Result, ok}
use ospd_openvas.Py.Text.{text_eq_iff, text_eq, codes, remove_char, Text}
use ospd_openvas.Network.Ports.Compress.{port_list_compress}

abbrev pub InRange : ℕ → Type 0
InRange port = (1 ≤ port) × (port ≤ 65535)

pub all_in_range_iff : (ports : List ℕ) → (all_in_range ports ≡ true) ↔ All InRange ports
unfolding all_in_range
all_in_range_iff [] = (λ _. tt, λ _. refl)
all_in_range_iff (p ∷ ports) = ground (arith, all_in_range_iff ports)

-- The ports of both lists are in range, and there is one.
abbrev pub AllValid : Lists → Type 0
AllValid ls =
    All InRange (listed ls.0) × All InRange (listed ls.1) × (listed ls.0 ++ listed ls.1 ≢ [])

valid_ports_iff : (ls : Lists) → (valid_ports ls ≡ true) ↔ AllValid ls
unfolding valid_ports
valid_ports_iff (tcp, udp) =
    ground (arith, all_in_range_iff (listed tcp), all_in_range_iff (listed udp))

-- What `valid_port_list` does with a text that is not the special one.
abbrev checked : Text → Result Bool
checked ports = do
  failed ← ports_str_check_failed ports
  if failed then ok false else do lists ← ports_as_list ports; ok (valid_ports lists)

checked_step :
    (c : ℕ) (s : Text)
    → text_eq (remove_char b' ' (c ∷ s)) (codes "U:,T:") ≡ false
    → valid_port_list (c ∷ s) ≡ checked (remove_char b' ' (c ∷ s))
unfolding valid_port_list
checked_step c s e = rw e

ok_injective : {a b : Bool} → ok a ≡ ok b → a ≡ b
ok_injective e = cc

-- What is left once the check has passed.
valid_of_lists :
    (ports : Text) (failed : Bool)
    → (if failed then ok false else do ls ← ports_as_list ports; ok (valid_ports ls)) ≡ ok true
    → (ls : Lists) × (ports_as_list ports ≡ ok ls) × AllValid ls
valid_of_lists ports true h = cc
valid_of_lists ports false h =
    let (ls, e, v) = >>=-eq-ok (ports_as_list ports) _ h in
    (ls, e, (valid_ports_iff ls).0 (ok_injective v))

checked_sound :
    (ports : Text)
    → checked ports ≡ ok true
    → (ls : Lists) × (ports_as_list ports ≡ ok ls) × AllValid ls
checked_sound ports h =
    let (failed, _, passed) = >>=-eq-ok (ports_str_check_failed ports) _ h in
    valid_of_lists ports failed passed

-- What passes is the special text, up to spaces, or a text whose lists hold valid ports only, and
-- at least one.
pub valid_port_list_sound :
    (s : Text)
    → valid_port_list s ≡ ok true
    → (remove_char b' ' s ≡ codes "U:,T:")
      ⊎ ((ls : Lists) × (ports_as_list (remove_char b' ' s) ≡ ok ls) × AllValid ls)
valid_port_list_sound [] h = unfold valid_port_list in cc h
valid_port_list_sound (c ∷ s) h =
    let ports : Text = remove_char b' ' (c ∷ s) in
    elim (Bool-cases (text_eq ports (codes "U:,T:"))) [
      | inl e ↦ inl ((text_eq_iff ports (codes "U:,T:")).0 e)
      | inr e ↦ inr (checked_sound ports (sym (checked_step c s e) ∙ h))
    ]

listed-lists :
    (tcp udp : List ℕ) → (listed (lists tcp udp).0 ≡ tcp) × (listed (lists tcp udp).1 ≡ udp)
unfolding lists
listed-lists [] [] = (refl, refl)
listed-lists [] (q ∷ udp) = (refl, refl)
listed-lists (p ∷ tcp) udp = (refl, refl)

valid_port_list_step :
    (tcp udp : List ℕ)
    → valid_port_list (port_string (port_list_compress tcp) (port_list_compress udp))
      ≡ ok (valid_ports (lists (sort_set tcp) (sort_set udp)))
valid_port_list_step tcp udp =
    let x : Text = port_list_compress tcp in
    let y : Text = port_list_compress udp in
    let hx = port_list_compress-IsItemChar tcp in
    let hy = port_list_compress-IsItemChar udp in
    let same : remove_char b' ' (port_string x y) ≡ port_string x y =
      remove_char_of_Lacks b' ' (port_string x y) (
        Lacks-port_string x y hx hy b' ' (omega arith) (omega arith) (omega arith) (omega arith)) in
    checked_step b'T' (b':' ∷ (x ++ (b',' ∷ b'U' ∷ b':' ∷ y))) (rw same (unfold text_eq in refl))
    ∙ ap checked same
    ∙ rw (
      ports_str_check_failed-port_string x y hx hy (DashesPass-port_string tcp udp)
          (last_of-compress udp).0,
      ports_as_list-port_list_compress tcp udp,
    )

append-ne-nil : (l m : List ℕ) → l ≢ [] → l ++ m ≢ []
append-ne-nil [] m h e = h refl
append-ne-nil (x ∷ l) m h e = cc

nonempty-sort_set : (tcp udp : List ℕ) → (sort_set tcp ++ sort_set udp ≢ []) ↔ (tcp ++ udp ≢ [])
nonempty-sort_set [] [] = unfold sort_set in (λ h. h, λ h. h)
nonempty-sort_set [] (q ∷ udp) = (λ h e. cc, λ h. unfold sort_set in sort_set-ne-nil q udp)
nonempty-sort_set (p ∷ tcp) udp =
    (λ h e. cc, λ h. append-ne-nil (sort_set (p ∷ tcp)) (sort_set udp) (sort_set-ne-nil p tcp))

AllValid-sort_set :
    (tcp udp : List ℕ)
    → AllValid (lists (sort_set tcp) (sort_set udp))
      ↔ (All InRange tcp × All InRange udp × (tcp ++ udp ≢ []))
AllValid-sort_set tcp udp =
    let (e, f) = listed-lists (sort_set tcp) (sort_set udp) in
    let t = All-sort_set_iff InRange tcp in
    let u = All-sort_set_iff InRange udp in
    let n = nonempty-sort_set tcp udp in
    rw (e, f) (λ (h, k, m). (t.0 h, u.0 k, n.0 m), λ (h, k, m). (t.1 h, u.1 k, n.1 m))

-- A port string that `port_list_compress` prints is accepted exactly if it has a port and every
-- port lies between 1 and 65535.
pub valid_port_list-port_list_compress :
    (tcp udp : List ℕ)
    → (valid_port_list (port_string (port_list_compress tcp) (port_list_compress udp)) ≡ ok true)
      ↔ (All InRange tcp × All InRange udp × (tcp ++ udp ≢ []))
valid_port_list-port_list_compress tcp udp =
    let same = valid_port_list_step tcp udp in
    let valid = valid_ports_iff (lists (sort_set tcp) (sort_set udp)) in
    let spec = AllValid-sort_set tcp udp in
    (λ h. spec.0 (valid.0 (ok_injective (sym same ∙ h))), λ h. same ∙ ap ok (valid.1 (spec.1 h)))
