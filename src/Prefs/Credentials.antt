-- ===== src/Prefs/Credentials.antt =====
-- `build_credentials_as_prefs` of ospd_openvas/preferencehandler.py: the credentials of a scan become
-- preferences, or are refused with a message.
pub mod Exclusive
pub mod Port
pub mod Services
use ospd_openvas.Prelude.{
  ◌≡◌, ◌+◌, ◌*◌, ◌<◌, ℕ, ◌&&◌, ltb, ◌||◌, not, none, if◌then◌else◌, false, ◌∷◌, some, [], true,
  String, ◌++◌, Option, List, Bool,
}
use ospd_openvas.Py.Result.{value_error, ◌>>=◌, raise, ok, Result}
use ospd_openvas.Py.Number.{int, is_digit}
use ospd_openvas.Network.Ports.{is_empty}
use ospd_openvas.Prelude.Int.{pos, ℤ}
use ospd_openvas.Py.Text.{codes, text_eq, has_char, Text}
use ospd_openvas.Py.Dict.{get, keys, Dict}

-- What a service gives.
pub data Answer : Type 0 where
  refused : Text → Answer
  accepted : List Text → Answer

-- `cred_params.get(key, default)`
abbrev pub get_or : String → Text → Dict Text → Text
get_or key default params = elim (get (codes key) params) [ none ↦ default | some value ↦ value ]

abbrev pub oid_ssh_auth : Text
oid_ssh_auth = codes "1.3.6.1.4.1.25623.1.0.103591"

abbrev pub oid_smb_auth : Text
oid_smb_auth = codes "1.3.6.1.4.1.25623.1.0.90023"

abbrev pub oid_krb5_auth : Text
oid_krb5_auth = codes "1.3.6.1.4.1.25623.1.0.102114"

abbrev pub oid_esxi_auth : Text
oid_esxi_auth = codes "1.3.6.1.4.1.25623.1.0.105058"

abbrev pub oid_snmp_auth : Text
oid_snmp_auth = codes "1.3.6.1.4.1.25623.1.0.105076"

-- `f'{OID}:...{value}'`
abbrev pub pref : Text → String → Text → Text
pref oid name value = oid ++ (codes name ++ value)

-- What Unicode says of characters: whether they are numeric, as a superscript digit is too, and the
-- value of those that are decimal digits, in whatever script.
pub record Numerals : Type 0 where
  pub is_numeric : ℕ → Bool
  pub decimal : ℕ → Option ℕ

-- The digits of ASCII are decimal digits.
abbrev pub HasAscii : Numerals → Type 0
HasAscii numerals = (d : ℕ) → d < 10 → numerals.decimal (b'0' + d) ≡ some d

module _ (numerals : Numerals) where
  abbrev pub all_numeric : Text → Bool
  all_numeric [] = true
  all_numeric (c ∷ s) = numerals.is_numeric c && all_numeric s

  -- `port.isnumeric()`
  abbrev pub isnumeric : Text → Bool
  isnumeric [] = false
  isnumeric (c ∷ s) = all_numeric (c ∷ s)

  -- `int(port)` of numeric characters, behind `acc`: they hold no sign, blank or underscore. `none` is
  -- a ValueError, for a character that is no decimal digit.
  abbrev pub number : Text → ℕ → Option ℕ
  number [] acc = some acc
  number (c ∷ s) acc = elim (numerals.decimal c) [ none ↦ none | some d ↦ number s (acc * 10 + d) ]

-- `int(port) > 65535 or int(port) < 1`
abbrev pub out_of_range : ℕ → Bool
out_of_range n = ltb 65535 n || ltb n 1

abbrev pub is_word : String → Text → Bool
is_word word s = text_eq s (codes word)

abbrev pub check_number : Text → Option ℕ → Result Answer
check_number port none = raise value_error
check_number port (some n) = ok (
    if out_of_range n
    then refused (codes "Port for SSH is out of range (1-65535): " ++ port)
    else accepted (port ∷ []))

-- The port, or its message.
abbrev pub check_port : Numerals → Text → Result Answer
check_port numerals [] = ok (accepted (codes "22" ∷ []))
check_port numerals (c ∷ s) =
    if not (isnumeric numerals (c ∷ s))
    then ok (refused (codes "Port for SSH '" ++ ((c ∷ s) ++ codes "' is not a valid number.")))
    else check_number (c ∷ s) (number numerals (c ∷ s) 0)

abbrev pub ssh_login : Text → Dict Text → List Text
ssh_login port params =
    (codes "auth_port_ssh|||" ++ port)
    ∷ pref oid_ssh_auth ":1:entry:SSH login name:|||" (get_or "username" [] params)
    ∷ pref oid_ssh_auth ":7:entry:SSH privilege login name:|||" (get_or "priv_username" [] params)
    ∷ pref oid_ssh_auth ":8:password:SSH privilege password:|||" (get_or "priv_password" [] params)
    ∷ []

pub data SshType : Type 0 where
  up usk unknown_type missing_type : SshType

abbrev pub ssh_type_of : Text → SshType
ssh_type_of cred_type =
    if is_word "up" cred_type
    then up
    else if is_word "usk" cred_type
    then usk
    else if is_empty cred_type
    then missing_type
    else unknown_type

abbrev pub ssh_secrets : SshType → Dict Text → Answer
ssh_secrets up params =
    accepted (
      pref oid_ssh_auth ":3:password:SSH password (unsafe!):|||" (get_or "password" [] params) ∷ [])
ssh_secrets usk params = accepted (
    pref oid_ssh_auth ":2:password:SSH key passphrase:|||" (get_or "password" [] params)
    ∷ pref oid_ssh_auth ":4:file:SSH private key:|||" (get_or "private" [] params)
    ∷ [])
ssh_secrets unknown_type params = refused (
    codes "Unknown Credential Type for SSH: "
    ++ (get_or "type" [] params
        ++ codes ". Use 'up' for Username + Password or 'usk' for Username + SSH Key."))
ssh_secrets missing_type params = refused (
    codes
      "Missing Credential Type for SSH. Use 'up' for Username + Password or 'usk' for Username + SSH Key.")

-- The second answer behind the first, unless one is a message.
abbrev pub and_then : Answer → (List Text → Answer) → Answer
and_then (refused message) rest = refused message
and_then (accepted prefs) rest = rest prefs

abbrev pub first_or : Text → List Text → Text
first_or default [] = default
first_or default (x ∷ xs) = x

-- What follows the port.
abbrev pub ssh_with : Dict Text → List Text → Answer
ssh_with params port =
    and_then (ssh_secrets (ssh_type_of (get_or "type" [] params)) params)
      (λ prefs. accepted (prefs ++ ssh_login (first_or (codes "22") port) params))

abbrev pub ssh : Numerals → Dict Text → Result Answer
ssh numerals params = do
  port ← check_port numerals (get_or "port" (codes "22") params)
  ok (and_then port (ssh_with params))

abbrev pub smb : Dict Text → Answer
smb params = accepted (
    pref oid_smb_auth ":1:entry:SMB login:|||" (get_or "username" [] params)
    ∷ pref oid_smb_auth ":2:password:SMB password:|||" (get_or "password" [] params)
    ∷ [])

-- `';' in s or '|' in s`
abbrev pub has_separator : Text → Bool
has_separator s = has_char b';' s || has_char b'|' s

abbrev pub check_krb5 : Text → Text → Option Text
check_krb5 realm kdc =
    if is_empty realm
    then some (codes "Missing realm for Kerberos authentication.")
    else if has_separator realm
    then some (codes "Invalid separator in realm for Kerberos authentication.")
    else if is_empty kdc
    then some (codes "Missing KDC for Kerberos authentication.")
    else if has_separator kdc
    then some (codes "Invalid separator in KDC for Kerberos authentication.")
    else none

abbrev pub unless_message : Option Text → List Text → Answer
unless_message none prefs = accepted prefs
unless_message (some message) prefs = refused message

abbrev pub krb5_message : Dict Text → Option Text
krb5_message params = check_krb5 (get_or "realm" [] params) (get_or "kdc" [] params)

abbrev pub krb5_prefs : Dict Text → List Text
krb5_prefs params =
    pref oid_krb5_auth ":1:entry:KRB5 login:|||" (get_or "username" [] params)
    ∷ pref oid_krb5_auth ":2:password:KRB5 password:|||" (get_or "password" [] params)
    ∷ pref oid_krb5_auth ":3:entry:KRB5 realm:|||" (get_or "realm" [] params)
    ∷ pref oid_krb5_auth ":4:entry:KRB5 kdc:|||" (get_or "kdc" [] params)
    ∷ []

abbrev pub krb5 : Dict Text → Answer
krb5 params = unless_message (krb5_message params) (krb5_prefs params)

abbrev pub esxi : Dict Text → Answer
esxi params = accepted (
    pref oid_esxi_auth ":1:entry:ESXi login name:|||" (get_or "username" [] params)
    ∷ pref oid_esxi_auth ":2:password:ESXi login password:|||" (get_or "password" [] params)
    ∷ [])

abbrev pub check_privacy : Text → Text → Option Text
check_privacy privacy_algorithm privacy_password =
    if is_empty privacy_algorithm
    then if is_empty privacy_password
      then none
      else some
          (codes "When no privacy algorithm is used, the privacy password also has to be empty.")
    else if not (is_word "aes" privacy_algorithm) && not (is_word "des" privacy_algorithm)
    then some (
        codes "Unknown privacy algorithm used: "
        ++ (privacy_algorithm ++ codes ". Use 'aes', 'des' or '' (none)."))
    else none

abbrev pub check_auth : Text → Option Text
check_auth auth_algorithm =
    if is_empty auth_algorithm
    then some (codes "Missing authentication algorithm for SNMP. Use 'md5' or 'sha1'.")
    else if not (is_word "md5" auth_algorithm) && not (is_word "sha1" auth_algorithm)
    then some (
        codes "Unknown authentication algorithm: "
        ++ (auth_algorithm ++ codes ". Use 'md5' or 'sha1'."))
    else none

abbrev pub or_else : Option Text → Option Text → Option Text
or_else none second = second
or_else (some message) second = some message

abbrev pub snmp_message : Dict Text → Option Text
snmp_message params =
    or_else
      (check_privacy (get_or "privacy_algorithm" [] params) (get_or "privacy_password" [] params))
      (check_auth (get_or "auth_algorithm" [] params))

abbrev pub snmp_prefs : Dict Text → List Text
snmp_prefs params =
    pref oid_snmp_auth ":1:password:SNMP Community:|||" (get_or "community" [] params)
    ∷ pref oid_snmp_auth ":2:entry:SNMPv3 Username:|||" (get_or "username" [] params)
    ∷ pref oid_snmp_auth ":3:password:SNMPv3 Password:|||" (get_or "password" [] params)
    ∷ pref oid_snmp_auth ":4:radio:SNMPv3 Authentication Algorithm:|||"
        (get_or "auth_algorithm" [] params)
    ∷ pref oid_snmp_auth ":5:password:SNMPv3 Privacy Password:|||"
        (get_or "privacy_password" [] params)
    ∷ pref oid_snmp_auth ":6:radio:SNMPv3 Privacy Algorithm:|||"
        (get_or "privacy_algorithm" [] params)
    ∷ []

abbrev pub snmp : Dict Text → Answer
snmp params = unless_message (snmp_message params) (snmp_prefs params)

-- `cred_prefs_list`, `self.errors`, `krb5_set` and `smb_set`.
pub record Building : Type 0 where
  pub cred_prefs : List Text
  pub errors : List Text
  pub krb5_set : Bool
  pub smb_set : Bool

abbrev pub add_answer : Answer → Building → Building
add_answer (refused message) b = record b { errors = b.errors ++ (message ∷ []) }
add_answer (accepted prefs) b = record b { cred_prefs = b.cred_prefs ++ prefs }

abbrev pub disable_message : String → Text
disable_message disabled =
    codes "Disabled "
    ++ (codes disabled ++ codes ": KRB5 and SMB credentials are mutually exclusive.")

pub data Service : Type 0 where
  of_ssh of_smb of_krb5 of_esxi of_snmp unknown missing : Service

abbrev pub service_of : Text → Service
service_of service =
    if is_word "ssh" service
    then of_ssh
    else if is_word "smb" service
    then of_smb
    else if is_word "krb5" service
    then of_krb5
    else if is_word "esxi" service
    then of_esxi
    else if is_word "snmp" service
    then of_snmp
    else if is_empty service
    then missing
    else unknown

-- SMB and KRB5 exclude one another, by the flag of the other.
abbrev pub add_smb : Bool → Dict Text → Building → Building
add_smb true params b = add_answer (refused (disable_message "SMB")) b
add_smb false params b = add_answer (smb params) (record b { smb_set = true })

abbrev pub add_krb5 : Bool → Dict Text → Building → Building
add_krb5 true params b = add_answer (refused (disable_message "KRB5")) b
add_krb5 false params b = add_answer (krb5 params) (record b { krb5_set = true })

abbrev pub add_service : Numerals → Service → Text → Dict Text → Building → Result Building
add_service numerals of_ssh service params b = do
  answer ← ssh numerals params
  ok (add_answer answer b)
add_service numerals of_smb service params b = ok (add_smb b.krb5_set params b)
add_service numerals of_krb5 service params b = ok (add_krb5 b.smb_set params b)
add_service numerals of_esxi service params b = ok (add_answer (esxi params) b)
add_service numerals of_snmp service params b = ok (add_answer (snmp params) b)
add_service numerals unknown service params b =
    ok (add_answer (refused (codes "Unknown service type for credential: " ++ service)) b)
add_service numerals missing service params b =
    ok (add_answer (refused (codes "Missing service type for credential.")) b)

-- A service without parameters is passed over.
abbrev pub visit : Numerals → Text → Option (Dict Text) → Building → Result Building
visit numerals service (some (param ∷ params)) b =
    add_service numerals (service_of service) service (param ∷ params) b
visit numerals service _ b = ok b

abbrev pub visit_all : Numerals → Dict (Dict Text) → List Text → Building → Result Building
visit_all numerals credentials [] b = ok b
visit_all numerals credentials (service ∷ services) b = do
  next ← visit numerals service (get service credentials) b
  visit_all numerals credentials services next

abbrev pub no_prefs : List Text → Building
no_prefs errors = record { cred_prefs = []; errors = errors; krb5_set = false; smb_set = false }

-- The preferences, and all the messages there are then.
unfoldable pub build_credentials_as_prefs :
    Numerals → Dict (Dict Text) → List Text → Result (List Text × List Text)
build_credentials_as_prefs numerals credentials errors = do
  last ← visit_all numerals credentials (keys credentials) (no_prefs errors)
  ok (last.cred_prefs, last.errors)
