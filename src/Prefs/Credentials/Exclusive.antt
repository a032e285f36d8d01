-- ===== src/Prefs/Credentials/Exclusive.antt =====
-- SMB and KRB5 exclude one another in `build_credentials_as_prefs`
-- (ospd_openvas/preferencehandler.py).
use ospd_openvas.Prefs.Credentials.Services.{
  lacks-append, snmp-LacksBoth, ssh_with-LacksBoth, answer_lacks, krb5-lacks, esxi-LacksBoth, lacks,
  smb-lacks, LacksBoth-and_then, LacksBoth,
}
use ospd_openvas.Prelude.{
  if◌then◌else◌, ◌∙◌, sym, ℕ, ◌≢◌, ap, inr, inl, Bool-cases, ◌⊎◌, none, not, some, [], refl, ◌∷◌,
  arith, ◌&&◌, false, true, List, Option, ◌≡◌, Bool,
}
use ospd_openvas.Prefs.Credentials.{
  check_number, number, isnumeric, Numerals, is_word, ssh_with, no_prefs, missing, unknown, of_snmp,
  of_esxi, of_krb5, of_smb, of_ssh, add_service, service_of, add_krb5, visit, add_smb, visit_all,
  Service, build_credentials_as_prefs, krb5, smb, snmp, esxi, get_or, check_port, oid_krb5_auth,
  accepted, and_then, oid_smb_auth, add_answer, refused, Answer, Building,
}
use ospd_openvas.Py.Result.{value_error, ok, Ends, ◌>>=◌, raise, Result}
use ospd_openvas.Py.Text.{text_eq_iff, codes, Text}
use ospd_openvas.Py.Dict.{get, keys, Dict}

-- A text of numeric characters, of which one is no decimal digit.
abbrev pub IsUndecimal : Numerals → Text → Type 0
IsUndecimal numerals port = (isnumeric numerals port ≡ true) × (number numerals port 0 ≡ none)

-- The call raises just the ValueError of a port that cannot be read, or its value satisfies `P`.
abbrev Turn : {V : Type 0} → Type 0 → (V → Type 0) → Result V → Type 0
Turn Cause P (raise e) = (e ≡ value_error) × Cause
Turn Cause P (ok value) = P value

check_number-Turn :
    (numerals : Numerals) (port : Text) (found : Option ℕ)
    → isnumeric numerals port ≡ true
    → number numerals port 0 ≡ found
    → Turn (IsUndecimal numerals port) (λ answer. Unit {0}) (check_number port found)
check_number-Turn numerals port none k h = (refl, (k, h))
check_number-Turn numerals port (some n) k h = tt

refused_if_not-Turn :
    (test : Bool) (Cause : Type 0) (message : Text) (call : Result Answer)
    → (test ≡ true → Turn Cause (λ answer. Unit {0}) call)
    → Turn Cause (λ answer. Unit {0}) (if not test then ok (refused message) else call)
refused_if_not-Turn true Cause message call h = h refl
refused_if_not-Turn false Cause message call h = tt

check_port-Turn :
    (numerals : Numerals) (port : Text)
    → Turn (IsUndecimal numerals port) (λ answer. Unit {0}) (check_port numerals port)
check_port-Turn numerals [] = tt
check_port-Turn numerals (c ∷ s) =
    refused_if_not-Turn (isnumeric numerals (c ∷ s)) (IsUndecimal numerals (c ∷ s)) _
      (check_number (c ∷ s) (number numerals (c ∷ s) 0))
      (λ k. check_number-Turn numerals (c ∷ s) (number numerals (c ∷ s) 0) k refl)

-- What holds at each turn of the loop.
abbrev IsExclusive : Building → Type 0
IsExclusive b =
    (b.smb_set ≡ false → lacks oid_smb_auth b.cred_prefs ≡ true)
    × (b.krb5_set ≡ false → lacks oid_krb5_auth b.cred_prefs ≡ true)
    × (b.smb_set && b.krb5_set ≡ false)

add_answer-IsExclusive :
    (answer : Answer) (b : Building)
    → LacksBoth answer
    → IsExclusive b
    → IsExclusive (add_answer answer b)
add_answer-IsExclusive (refused message) b h g = g
add_answer-IsExclusive (accepted prefs) b (h, k) (g, g', g'') = (
  λ e. ground (arith, lacks-append oid_smb_auth b.cred_prefs prefs, h, g e),
  λ e. ground (arith, lacks-append oid_krb5_auth b.cred_prefs prefs, k, g' e),
  g'',
)

-- What an answer adds for one of the two services does not concern the other.
lacks-add_answer :
    (oid : Text) (answer : Answer) (b : Building)
    → answer_lacks oid answer ≡ true
    → lacks oid b.cred_prefs ≡ true
    → lacks oid (add_answer answer b).cred_prefs ≡ true
lacks-add_answer oid (refused message) b h k = k
lacks-add_answer oid (accepted prefs) b h k =
    ground (arith, lacks-append oid b.cred_prefs prefs, h, k)

flags-add_answer :
    (answer : Answer) (b : Building)
    → ((add_answer answer b).smb_set ≡ b.smb_set) × ((add_answer answer b).krb5_set ≡ b.krb5_set)
flags-add_answer (refused message) b = (refl, refl)
flags-add_answer (accepted prefs) b = (refl, refl)

add_smb-IsExclusive :
    (flag : Bool) (params : Dict Text) (b : Building)
    → b.krb5_set ≡ flag
    → IsExclusive b
    → IsExclusive (add_smb flag params b)
add_smb-IsExclusive true params b e g = g
add_smb-IsExclusive false params b e (g, g', g'') =
    let b1 : Building = record b { smb_set = true } in
    let (same, same') = flags-add_answer (smb params) b1 in
    (
      λ k. ground (arith, same, k),
      λ k. lacks-add_answer oid_krb5_auth (smb params) b1 (smb-lacks params) (g' e),
      ground (arith, same', e),
    )

add_krb5-IsExclusive :
    (flag : Bool) (params : Dict Text) (b : Building)
    → b.smb_set ≡ flag
    → IsExclusive b
    → IsExclusive (add_krb5 flag params b)
add_krb5-IsExclusive true params b e g = g
add_krb5-IsExclusive false params b e (g, g', g'') =
    let b1 : Building = record b { krb5_set = true } in
    let (same, same') = flags-add_answer (krb5 params) b1 in
    (
      λ k. lacks-add_answer oid_smb_auth (krb5 params) b1 (krb5-lacks params) (g e),
      λ k. ground (arith, same', k),
      ground (arith, same, e),
    )

-- The SSH port among the credentials cannot be read.
abbrev pub HasUndecimal : Numerals → Dict (Dict Text) → Type 0
HasUndecimal numerals credentials =
    (params : Dict Text) × (get (codes "ssh") credentials ≡ some params)
    × IsUndecimal numerals (get_or "port" (codes "22") params)

add_ssh-Turn :
    (numerals : Numerals) (credentials : Dict (Dict Text)) (params : Dict Text) (b : Building)
    (checked : Result Answer)
    → get (codes "ssh") credentials ≡ some params
    → IsExclusive b
    → Turn (IsUndecimal numerals (get_or "port" (codes "22") params)) (λ answer. Unit {0}) checked
    → Turn (HasUndecimal numerals credentials) IsExclusive (do
      answer ← (do port ← checked; ok (and_then port (ssh_with params)))
      ok (add_answer answer b))
add_ssh-Turn numerals credentials params b (raise e) found g (same, cause) =
    (same, (params, found, cause))
add_ssh-Turn numerals credentials params b (ok port) found g _ =
    add_answer-IsExclusive (and_then port (ssh_with params)) b
      (LacksBoth-and_then port (ssh_with params) (ssh_with-LacksBoth params)) g

add_service-Turn :
    (numerals : Numerals) (credentials : Dict (Dict Text)) (s : Service) (service : Text)
    (params : Dict Text) (b : Building)
    → (s ≡ of_ssh → get (codes "ssh") credentials ≡ some params)
    → IsExclusive b
    → Turn (HasUndecimal numerals credentials) IsExclusive (add_service numerals s service params b)
add_service-Turn numerals credentials of_ssh service params b h g =
    add_ssh-Turn numerals credentials params b _ (h refl) g
      (check_port-Turn numerals (get_or "port" (codes "22") params))
add_service-Turn numerals credentials of_smb service params b h g =
    add_smb-IsExclusive b.krb5_set params b refl g
add_service-Turn numerals credentials of_krb5 service params b h g =
    add_krb5-IsExclusive b.smb_set params b refl g
add_service-Turn numerals credentials of_esxi service params b h g =
    add_answer-IsExclusive (esxi params) b (esxi-LacksBoth params) g
add_service-Turn numerals credentials of_snmp service params b h g =
    add_answer-IsExclusive (snmp params) b (snmp-LacksBoth params) g
add_service-Turn numerals credentials unknown service params b h g = g
add_service-Turn numerals credentials missing service params b h g = g

not_ssh : (service : Text) → is_word "ssh" service ≡ false → service_of service ≢ of_ssh
not_ssh service k e = ground (arith, e, k)

of_ssh-name : (service : Text) → service_of service ≡ of_ssh → service ≡ codes "ssh"
of_ssh-name service e = elim (Bool-cases (is_word "ssh" service)) [
  | inl k ↦ (text_eq_iff service (codes "ssh")).0 k
  | inr k ↦ absurd (not_ssh service k e)
]

visit-Turn :
    (numerals : Numerals) (credentials : Dict (Dict Text)) (service : Text)
    (found : Option (Dict Text)) (b : Building)
    → get service credentials ≡ found
    → IsExclusive b
    → Turn (HasUndecimal numerals credentials) IsExclusive (visit numerals service found b)
visit-Turn numerals credentials service none b h g = g
visit-Turn numerals credentials service (some []) b h g = g
visit-Turn numerals credentials service (some (param ∷ params)) b h g =
    add_service-Turn numerals credentials (service_of service) service (param ∷ params) b
      (λ e. ap (λ key. get key credentials) (sym (of_ssh-name service e)) ∙ h) g

Turn->>= :
    {V W : Type 0} (Cause : Type 0) (P : V → Type 0) (Q : W → Type 0) (call : Result V)
    (rest : V → Result W)
    → Turn Cause P call
    → ((value : V) → P value → Turn Cause Q (rest value))
    → Turn Cause Q (call >>= rest)
Turn->>= Cause P Q (raise e) rest h k = h
Turn->>= Cause P Q (ok value) rest h k = k value h

visit_all-Turn :
    (numerals : Numerals) (credentials : Dict (Dict Text)) (services : List Text) (b : Building)
    → IsExclusive b
    → Turn
        (HasUndecimal numerals credentials)
        IsExclusive
        (visit_all numerals credentials services b)
visit_all-Turn numerals credentials [] b g = g
visit_all-Turn numerals credentials (service ∷ services) b g =
    Turn->>= (HasUndecimal numerals credentials) IsExclusive IsExclusive _ _
      (visit-Turn numerals credentials service _ b refl g)
      (λ next h. visit_all-Turn numerals credentials services next h)

exclusive_flags :
    (b : Building)
    → IsExclusive b
    → (lacks oid_smb_auth b.cred_prefs ≡ true) ⊎ (lacks oid_krb5_auth b.cred_prefs ≡ true)
exclusive_flags b (g, g', g'') = elim (Bool-cases b.smb_set) [
  | inl e ↦ inr (g' (ground (arith, e, g'')))
  | inr e ↦ inl (g e)
]

abbrev pub LacksOne : List Text × List Text → Type 0
LacksOne (prefs, errors) = (lacks oid_smb_auth prefs ≡ true) ⊎ (lacks oid_krb5_auth prefs ≡ true)

Turn-cases :
    {V : Type 0} {Cause : Type 0} {P : V → Type 0} (call : Result V)
    → Turn Cause P call
    → Ends P call ⊎ ((call ≡ raise value_error) × Cause)
Turn-cases (raise e) (same, cause) = inr (ap raise same, cause)
Turn-cases (ok value) h = inl (value, refl, h)

-- Whatever the credentials are, there are preferences, which are never for SMB and for KRB5: there are
-- none for the one or none for the other. The only exception is the ValueError of an SSH port that is
-- numeric, but with a character that is no decimal digit.
pub build_credentials_as_prefs-exclusive :
    (numerals : Numerals) (credentials : Dict (Dict Text)) (errors : List Text)
    → Ends LacksOne (build_credentials_as_prefs numerals credentials errors)
      ⊎ ((build_credentials_as_prefs numerals credentials errors ≡ raise value_error)
          × HasUndecimal numerals credentials)
unfolding build_credentials_as_prefs
build_credentials_as_prefs-exclusive numerals credentials errors =
    Turn-cases {Cause = HasUndecimal numerals credentials} {P = LacksOne}
      (build_credentials_as_prefs numerals credentials errors)
      (Turn->>= (HasUndecimal numerals credentials) IsExclusive LacksOne _ _
        (visit_all-Turn numerals credentials (keys credentials) (no_prefs errors)
          ((λ e. refl), (λ e. refl), refl))
        (λ last h. exclusive_flags last h))
