-- ===== src/Prefs/Credentials/Services.antt =====
-- Which VTs the preferences of each service are for (`build_credentials_as_prefs` of
-- ospd_openvas/preferencehandler.py).
use ospd_openvas.Prefs.Credentials.{
  missing_type, first_or, unknown_type, get_or, krb5_prefs, usk, ssh_type_of, snmp_prefs, up,
  krb5_message, unless_message, ssh_with, and_then, snmp_message, refused, ssh_login, ssh_secrets,
  smb, krb5, esxi, SshType, snmp, oid_krb5_auth, oid_smb_auth, accepted, Answer,
}
use ospd_openvas.Py.Text.{codes, starts_with, Text}
use ospd_openvas.Prelude.{
  none, [], some, not, ◌&&◌, arith, ◌∷◌, refl, true, ◌≡◌, ◌++◌, List, Option, Bool,
}
use ospd_openvas.Py.Dict.{Dict}

-- No preference is for the VT with the OID.
abbrev pub lacks : Text → List Text → Bool
lacks oid [] = true
lacks oid (p ∷ prefs) = not (starts_with p oid) && lacks oid prefs

abbrev pub answer_lacks : Text → Answer → Bool
answer_lacks oid (refused message) = true
answer_lacks oid (accepted prefs) = lacks oid prefs

abbrev pub LacksBoth : Answer → Type 0
LacksBoth answer =
    (answer_lacks oid_smb_auth answer ≡ true) × (answer_lacks oid_krb5_auth answer ≡ true)

pub lacks-append :
    (oid : Text) (xs ys : List Text) → lacks oid (xs ++ ys) ≡ lacks oid xs && lacks oid ys
lacks-append oid [] ys = refl
lacks-append oid (x ∷ xs) ys = ground (arith, lacks-append oid xs ys)

pub LacksBoth-and_then :
    (answer : Answer) (rest : List Text → Answer)
    → ((l : List Text) → LacksBoth (rest l))
    → LacksBoth (and_then answer rest)
LacksBoth-and_then (refused message) rest h = (refl, refl)
LacksBoth-and_then (accepted l) rest h = h l

LacksBoth-followed :
    (answer : Answer) (more : List Text)
    → LacksBoth answer
    → LacksBoth (accepted more)
    → LacksBoth (and_then answer (λ prefs. accepted (prefs ++ more)))
LacksBoth-followed (refused message) more h k = (refl, refl)
LacksBoth-followed (accepted l) more (h, h') (k, k') = (
  ground (arith, lacks-append oid_smb_auth l more, h, k),
  ground (arith, lacks-append oid_krb5_auth l more, h', k'),
)

ssh_secrets-LacksBoth : (type : SshType) (params : Dict Text) → LacksBoth (ssh_secrets type params)
unfolding starts_with
ssh_secrets-LacksBoth up params = (refl, refl)
ssh_secrets-LacksBoth usk params = (refl, refl)
ssh_secrets-LacksBoth unknown_type params = (refl, refl)
ssh_secrets-LacksBoth missing_type params = (refl, refl)

ssh_login-LacksBoth :
    (port : Text) (params : Dict Text) → LacksBoth (accepted (ssh_login port params))
unfolding starts_with
ssh_login-LacksBoth port params = (refl, refl)

pub ssh_with-LacksBoth : (params : Dict Text) (port : List Text) → LacksBoth (ssh_with params port)
ssh_with-LacksBoth params port =
    let type = ssh_type_of (get_or "type" [] params) in
    LacksBoth-followed (ssh_secrets type params) (ssh_login (first_or (codes "22") port) params)
      (ssh_secrets-LacksBoth type params) (ssh_login-LacksBoth (first_or (codes "22") port) params)

answer_lacks-unless_message :
    (oid : Text) (message : Option Text) (prefs : List Text)
    → lacks oid prefs ≡ true
    → answer_lacks oid (unless_message message prefs) ≡ true
answer_lacks-unless_message oid none prefs h = h
answer_lacks-unless_message oid (some message) prefs h = refl

pub esxi-LacksBoth : (params : Dict Text) → LacksBoth (esxi params)
unfolding starts_with
esxi-LacksBoth params = (refl, refl)

pub snmp-LacksBoth : (params : Dict Text) → LacksBoth (snmp params)
unfolding starts_with
snmp-LacksBoth params = (
  answer_lacks-unless_message oid_smb_auth (snmp_message params) (snmp_prefs params) refl,
  answer_lacks-unless_message oid_krb5_auth (snmp_message params) (snmp_prefs params) refl,
)

pub smb-lacks : (params : Dict Text) → answer_lacks oid_krb5_auth (smb params) ≡ true
unfolding starts_with
smb-lacks params = refl

pub krb5-lacks : (params : Dict Text) → answer_lacks oid_smb_auth (krb5 params) ≡ true
unfolding starts_with
krb5-lacks params =
    answer_lacks-unless_message oid_smb_auth (krb5_message params) (krb5_prefs params) refl
