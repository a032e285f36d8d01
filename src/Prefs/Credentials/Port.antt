-- ===== src/Prefs/Credentials/Port.antt =====
-- The port of SSH credentials in `build_credentials_as_prefs` (ospd_openvas/preferencehandler.py).
use ospd_openvas.Prefs.Credentials.{
  ssh_with, check_number, number, HasAscii, Numerals, first_or, ssh_login, ssh_type_of, ssh_secrets,
  get_or, isnumeric, refused, ssh, check_port, and_then, out_of_range, accepted, Answer,
}
use ospd_openvas.Py.Result.{ok-injective, >>=-eq-ok, ok}
use ospd_openvas.Prelude.{
  none, Option, ◌∙◌, sym, ap, inr, arith, ◌≤◌, Bool-cases, true, inl, [], refl, ◌++◌, some, ◌∷◌,
  ◌≡◌, ℕ, List,
}
use ospd_openvas.Py.Dict.Laws.{text_eq_refl}
use ospd_openvas.Py.TextList.{has_text-append, has_text}
use ospd_openvas.Py.Text.{codes, Text}
use ospd_openvas.Py.Dict.{Dict}

-- A text that is read as a port.
abbrev pub IsPort : Numerals → Text → Type 0
IsPort numerals port = (n : ℕ) × (number numerals port 0 ≡ some n) × (1 ≤ n) × (n ≤ 65535)

accepted-injective : {xs ys : List Text} → accepted xs ≡ accepted ys → xs ≡ ys
accepted-injective e = cc

default_port : (numerals : Numerals) → HasAscii numerals → number numerals (codes "22") 0 ≡ some 22
default_port numerals h = let e : numerals.decimal 50 ≡ some 2 = h 2 (omega arith) in rw (e, e) refl

check_number-IsPort :
    (numerals : Numerals) (port : Text) (found : Option ℕ) (l : List Text)
    → number numerals port 0 ≡ found
    → check_number port found ≡ ok (accepted l)
    → (l ≡ port ∷ []) × IsPort numerals port
check_number-IsPort numerals port none l h e = cc
check_number-IsPort numerals port (some n) l h e = elim (Bool-cases (out_of_range n)) [
  | inl m ↦ ground (arith, e, m)
  | inr m ↦ (ground (arith, e, m), (n, h, ground (arith, m), ground (arith, m)))
]

check_port-IsPort :
    (numerals : Numerals) (s : Text) (l : List Text)
    → HasAscii numerals
    → check_port numerals s ≡ ok (accepted l)
    → (port : Text) × (l ≡ port ∷ []) × IsPort numerals port
check_port-IsPort numerals [] l ascii e = (
  codes "22",
  sym (accepted-injective (ok-injective e)),
  (22, default_port numerals ascii, omega arith, omega arith),
)
check_port-IsPort numerals (c ∷ s) l ascii e = elim (Bool-cases (isnumeric numerals (c ∷ s))) [
  | inl k ↦
      let (same, good) = check_number-IsPort numerals (c ∷ s) _ l refl (ground (arith, e, k)) in
      (c ∷ s, same, good)
  | inr k ↦ ground (arith, e, k)
]

and_then-accepted :
    (answer : Answer) (rest : List Text → Answer) (prefs : List Text)
    → and_then answer rest ≡ accepted prefs
    → (l : List Text) × (answer ≡ accepted l) × (rest l ≡ accepted prefs)
and_then-accepted (refused message) rest prefs e = cc
and_then-accepted (accepted l) rest prefs e = (l, refl, e)

-- Where SSH credentials are accepted, their preferences name a port, which is read as a number from
-- 1 to 65535. The digits of ASCII are taken for decimal digits.
pub ssh-IsPort :
    (numerals : Numerals) (params : Dict Text) (prefs : List Text)
    → HasAscii numerals
    → ssh numerals params ≡ ok (accepted prefs)
    → (port : Text) × (has_text (codes "auth_port_ssh|||" ++ port) prefs ≡ true)
      × IsPort numerals port
unfolding has_text
ssh-IsPort numerals params prefs ascii e =
    let (answer, run, e0) =
      >>=-eq-ok (check_port numerals (get_or "port" (codes "22") params)) _ e in
    let (l, checked, e1) = and_then-accepted answer (ssh_with params) prefs (ok-injective e0) in
    let (port, same, good) =
      check_port-IsPort numerals (get_or "port" (codes "22") params) l ascii
        (run ∙ ap ok checked) in
    let (secrets, _, e2) =
      and_then-accepted (ssh_secrets (ssh_type_of (get_or "type" [] params)) params) _ prefs e1 in
    let login = ssh_login port params in
    let all : prefs ≡ secrets ++ login =
      sym (accepted-injective e2)
      ∙ ap (λ ps. secrets ++ ssh_login (first_or (codes "22") ps) params) same in
    (
      port,
      ap (has_text (codes "auth_port_ssh|||" ++ port)) all
          ∙ has_text-append (codes "auth_port_ssh|||" ++ port) secrets login
          ∙ ground (arith, text_eq_refl (codes "auth_port_ssh|||" ++ port)),
      good,
    )
