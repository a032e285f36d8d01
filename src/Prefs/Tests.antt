-- ===== src/Prefs/Tests.antt =====
-- Preferences built at concrete inputs, and the theorems about them.
use ospd_openvas.Prefs.Credentials.Services.{lacks}
use ospd_openvas.Prelude.{
  ◌-◌, if◌then◌else◌, ◌==◌, ◌||◌, arith, none, refl, false, ◌⊎◌, true, some, ◌++◌, [], ◌∷◌, ◌≡◌, ℕ,
  List,
}
use ospd_openvas.Prefs.Credentials.Exclusive.{
  HasUndecimal, LacksOne, build_credentials_as_prefs-exclusive,
}
use ospd_openvas.Py.Number.{is_digit, str, int}
use ospd_openvas.Prefs.Credentials.{
  Numerals, HasAscii, ssh_login, oid_smb_auth, oid_ssh_auth, build_credentials_as_prefs,
}
use ospd_openvas.Py.Result.{Ends, value_error, key_error, raise, ok}
use ospd_openvas.Prefs.VtParams.Typed.{process_vts-IsTyped, IsTyped}
use ospd_openvas.Py.Dict.{put, get, Dict}
use ospd_openvas.VtFilter.{text_lt}
use ospd_openvas.Prefs.VtParams.{process_vts, VtSource}
use ospd_openvas.Py.Dict.Laws.{AllEntries}
use ospd_openvas.Kb.Server.{server_sets, server_lists, empty_server, server, Memory}
use ospd_openvas.Prefs.Prepare.Boreas.{prepare_boreas_alive_test-methods, StandsFor}
use ospd_openvas.Prefs.Prepare.Stored.{prepare_ports_for_openvas-stored, port_prefs, stored}
use ospd_openvas.Prefs.Prepare.{boreas_ports, prepare_boreas_alive_test, prepare_ports_for_openvas}
use ospd_openvas.Network.Ports.{valid_port_list, program}
use ospd_openvas.Py.Text.{strip, has_char, starts_with, text_eq, codes, Text}
use ospd_openvas.Prefs.Credentials.Port.{ssh-IsPort, IsPort}
use ospd_openvas.Prefs.AliveTest.Methods.{build_alive_test_opt_as_prefs-method_prefs, method_prefs}
use ospd_openvas.Scan.Creation.{queued_info, started_info}
use ospd_openvas.Py.TextList.{has_text}
use ospd_openvas.Prefs.AliveTest.{build_alive_test_opt_as_prefs}
use ospd_openvas.Scan.{ScanInfo, Target, Table}

abbrev sample_id : Text
sample_id = codes "scan1"

abbrev login : Dict Text
login = (codes "username", codes "u") ∷ (codes "password", codes "p") ∷ []

abbrev both_services : Dict (Dict Text)
both_services = (codes "krb5", login) ∷ (codes "smb", login) ∷ []

unfoldable opened : Unit {0}
unfolding build_credentials_as_prefs get text_eq starts_with has_char int strip valid_port_list
    has_text
opened = tt

-- Of the characters that are no digits of ASCII, the superscript 2 is numeric.
abbrev sample_numerals : Numerals
sample_numerals = record {
  is_numeric = λ c. is_digit c || (c == 178);
  decimal = λ c. if is_digit c then some (c - b'0') else none;
}

sample_numerals-HasAscii : HasAscii sample_numerals
sample_numerals-HasAscii d h = ground (arith, h)

-- KRB5 credentials without a realm are refused, and still shut out those for SMB.
refused_shuts_out :
    Ends (λ built. built.0 ≡ []) (build_credentials_as_prefs sample_numerals both_services [])
unfolding opened
refused_shuts_out = (_, refl, refl)

build_credentials_as_prefs-exclusive_example :
    Ends LacksOne (build_credentials_as_prefs sample_numerals both_services [])
    ⊎ ((build_credentials_as_prefs sample_numerals both_services [] ≡ raise value_error)
        × HasUndecimal sample_numerals both_services)
build_credentials_as_prefs-exclusive_example =
    build_credentials_as_prefs-exclusive sample_numerals both_services []

abbrev ssh_params : Dict Text
ssh_params = (codes "type", codes "up") ∷ (codes "port", codes "2222") ∷ login

abbrev ssh_accepted : List Text
ssh_accepted =
    (oid_ssh_auth ++ codes ":3:password:SSH password (unsafe!):|||p")
    ∷ ssh_login (codes "2222") ssh_params

-- The superscript 2 is numeric, so that `int` is called, which refuses it.
superscript_raises :
    build_credentials_as_prefs sample_numerals
      ((codes "ssh", (codes "port", 178 ∷ []) ∷ login) ∷ [])
      []
    ≡ raise value_error
unfolding opened
superscript_raises = refl

ssh-IsPort_example :
    (port : Text) × (has_text (codes "auth_port_ssh|||" ++ port) ssh_accepted ≡ true)
    × IsPort sample_numerals port
unfolding opened
ssh-IsPort_example =
    ssh-IsPort sample_numerals ssh_params ssh_accepted sample_numerals-HasAscii refl

abbrev two_methods : Dict Text
two_methods =
    (codes "alive_test_methods", codes "1")
    ∷ (codes "icmp", codes "1")
    ∷ (codes "arp", codes "1")
    ∷ (codes "tcp_syn", codes "0")
    ∷ []

build_alive_test_opt_as_prefs-method_prefs_example :
    build_alive_test_opt_as_prefs two_methods ≡ method_prefs true false false true false
unfolding opened
build_alive_test_opt_as_prefs-method_prefs_example =
    build_alive_test_opt_as_prefs-method_prefs two_methods refl refl

prepare_boreas_alive_test-methods_example :
    (n : ℕ) × (new : Memory) × (prepare_boreas_alive_test server 1 sample_id true two_methods
        empty_server
      ≡ ok new)
    × (stored server 1 sample_id new
        ≡ stored server 1 sample_id empty_server
          ++ ((codes "ALIVE_TEST|||" ++ str n) ∷ boreas_ports none))
    × StandsFor true false false true false n
unfolding opened
prepare_boreas_alive_test-methods_example =
    prepare_boreas_alive_test-methods server 1 sample_id two_methods empty_server server_lists
      server_sets refl refl

abbrev sample_target : Target
sample_target = record {
  hosts = codes "a";
  ports = some (codes "T:22,80");
  exclude_hosts = [];
  finished_hosts = [];
  options = [];
}

abbrev sample_info : ScanInfo
sample_info =
    started_info 7
      (record { target = sample_target; options = []; vts = record { vts = []; vt_groups = [] } })
      (queued_info 5 sample_id [] (some []))

abbrev sample_table : Table
sample_table = (sample_id, sample_info) ∷ []

prepare_ports_for_openvas-stored_example :
    (new : Memory) × (table1 : Table) × (prepare_ports_for_openvas server 1 sample_id sample_table
        empty_server
      ≡ ok (some (codes "T:22,80"), (table1, new)))
    × (stored server 1 sample_id new
        ≡ stored server 1 sample_id empty_server
          ++ port_prefs server 1 sample_id true (codes "T:22,80"))
    × (prepare_ports_for_openvas server 1 sample_id table1 new ≡ raise key_error)
unfolding opened program
prepare_ports_for_openvas-stored_example =
    prepare_ports_for_openvas-stored server 1 sample_id sample_table empty_server sample_info
      sample_target (codes "T:22,80") true server_lists server_sets refl refl refl refl

-- Alone, the credentials for SMB are accepted.
smb_accepted :
    Ends
      (λ built. lacks oid_smb_auth built.0 ≡ false)
      (build_credentials_as_prefs sample_numerals ((codes "smb", login) ∷ []) [])
unfolding opened
smb_accepted = (_, refl, refl)

-- One VT with a checkbox.
abbrev sample_source : VtSource
sample_source = record {
  is_handled_by_notus = λ oid. false;
  get_single_vt =
      λ oid. some ((codes "1", record { type = codes "checkbox"; name = codes "Use ARP" }) ∷ []);
  decodes = λ s. false;
}

abbrev sample_vts : Dict (Dict Text)
sample_vts =
    (
      codes "1.3.6",
      (codes "1", codes "1") ∷ (codes "1", codes "maybe") ∷ (codes "0", codes "x") ∷ [],
    )
    ∷ []

vts_processed :
    process_vts sample_source (λ n. false) [] sample_vts
    ≡ (codes "1.3.6" ∷ [], (codes "1.3.6:1:checkbox:Use ARP", codes "yes") ∷ [])
unfolding opened process_vts text_lt put
vts_processed = refl

process_vts-IsTyped_example :
    AllEntries (IsTyped sample_source) (process_vts sample_source (λ n. false) [] sample_vts).1
process_vts-IsTyped_example = process_vts-IsTyped sample_source (λ n. false) [] sample_vts
