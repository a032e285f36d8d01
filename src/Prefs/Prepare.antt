-- ===== src/Prefs/Prepare.antt =====
-- The parts of ospd_openvas/preferencehandler.py that read the scan and write preferences into its
-- knowledge base, whose index is `index`.
pub mod Stored
pub mod Boreas
use ospd_openvas.Prefs.Credentials.{Numerals, get_or, build_credentials_as_prefs}
use ospd_openvas.Prefs.AliveTest.{
  nothing, of_methods, icmp_bit, alive_value, yes_no, given, AliveValue,
}
use ospd_openvas.Prelude.{
  leb, ◌∷◌, none, true, false, if◌then◌else◌, some, ◌++◌, ◌==◌, Bool, [], List, ℕ, String, Option,
}
use ospd_openvas.Py.Dict.{get, Dict}
use ospd_openvas.Kb.KbDb.{add_scan_preferences, add_credentials_to_scan_preferences}
use ospd_openvas.Network.Ports.{valid_port_list}
use ospd_openvas.Scan.Counts.{get_exclude_hosts, get_host_list}
use ospd_openvas.Py.Number.{str, int}
use ospd_openvas.Py.Result.{value_error, ok, ◌>>=◌, or_raise, Result}
use ospd_openvas.Scan.Collection.{get_ports}
use ospd_openvas.Py.Text.{codes, Text}
use ospd_openvas.Prelude.Int.{negsuc, pos, ℤ}
use ospd_openvas.Scan.{Table}
use ospd_openvas.Kb.Redis.{Redis}

-- `_from_bool_to_str`
abbrev pub from_bool_to_str : ℤ → Text
from_bool_to_str (pos n) = yes_no (n == 1)
from_bool_to_str (negsuc n) = yes_no false

-- What stands between the quotes of `{target}`, for a target that may be None.
abbrev pub text_or_none : Option Text → Text
text_or_none none = codes "None"
text_or_none (some text) = text

-- `int(target_options.get(name, '0'))`, which may be a ValueError.
abbrev pub int_option : String → Dict Text → Result ℤ
int_option name target_options = or_raise value_error (int (get_or name (codes "0") target_options))

-- The number of `prepare_boreas_alive_test`: the default 0 for a value that is no number.
abbrev pub boreas_number : AliveValue → ℤ
boreas_number nothing = pos 0
boreas_number (given s) = elim (int s) [ none ↦ pos 0 | some n ↦ n ]
boreas_number (of_methods n) = pos n

-- The preferences for the alive test itself: a number from 1 to 31 as it is, ICMP for the default.
abbrev pub boreas_methods : ℤ → List Text
boreas_methods (negsuc n) = []
boreas_methods (pos n) =
    if n == 0
    then (codes "ALIVE_TEST|||" ++ str icmp_bit) ∷ []
    else if leb n 31
    then (codes "ALIVE_TEST|||" ++ str n) ∷ []
    else []

abbrev pub boreas_ports : Option Text → List Text
boreas_ports none = []
boreas_ports (some ports) = (codes "ALIVE_TEST_PORTS|||" ++ ports) ∷ []

module _ (redis : Redis) (index : ℕ) (scan_id : Text) where
  -- One call of `add_scan_preferences` for each preference.
  abbrev pub add_each : List Text → redis.State → Result redis.State
  add_each [] s = ok s
  add_each (p ∷ prefs) s = do
    s1 ← add_scan_preferences redis index scan_id (p ∷ []) s
    add_each prefs s1

  -- `boreas` is whether the setting of the scanner is on.
  unfoldable pub prepare_boreas_alive_test : Bool → Dict Text → redis.State → Result redis.State
  prepare_boreas_alive_test false target_options s = ok s
  prepare_boreas_alive_test true target_options s =
      add_each
        (boreas_methods (boreas_number (alive_value target_options))
          ++ boreas_ports (get (codes "alive_test_ports") target_options))
        s

  unfoldable pub prepare_reverse_lookup_opt_for_openvas :
      Dict Text → redis.State → Result redis.State
  prepare_reverse_lookup_opt_for_openvas [] s = ok s
  prepare_reverse_lookup_opt_for_openvas (option ∷ options) s = do
    only ← int_option "reverse_lookup_only" (option ∷ options)
    unify ← int_option "reverse_lookup_unify" (option ∷ options)
    let first = codes "reverse_lookup_only|||" ++ from_bool_to_str only
    let second = codes "reverse_lookup_unify|||" ++ from_bool_to_str unify
    add_scan_preferences redis index scan_id (first ∷ second ∷ []) s

  unfoldable pub prepare_target_for_openvas : Table → redis.State → Result redis.State
  prepare_target_for_openvas table =
      add_each ((codes "TARGET|||" ++ text_or_none (get_host_list scan_id table)) ∷ [])

  -- The result is False, or the ports. `valid_port_list` may raise.
  abbrev pub store_ports :
      Bool → Text → Table → redis.State → Result (Option Text × (Table × redis.State))
  store_ports false ports table s = ok (none, (table, s))
  store_ports true ports table s = do
    s1 ← add_each ((codes "port_range|||" ++ ports) ∷ []) s
    ok (some ports, (table, s1))

  unfoldable pub prepare_ports_for_openvas :
      Table → redis.State → Result (Option Text × (Table × redis.State))
  prepare_ports_for_openvas table s = do
    (ports, table1) ← get_ports scan_id table
    valid ← valid_port_list ports
    store_ports valid ports table1 s

  abbrev pub add_exclude_hosts : Text → redis.State → Result redis.State
  add_exclude_hosts [] s = ok s
  add_exclude_hosts (c ∷ hosts) s = add_each ((codes "exclude_hosts|||" ++ (c ∷ hosts)) ∷ []) s

  unfoldable pub prepare_host_options_for_openvas : Table → redis.State → Result redis.State
  prepare_host_options_for_openvas table s = do
    exclude_hosts ← get_exclude_hosts scan_id table
    add_exclude_hosts exclude_hosts s

  -- The preferences in the encoding utf-8. The result is False where there are credentials and no
  -- preference.
  abbrev pub store_credentials : List Text → redis.State → Result (Bool × redis.State)
  store_credentials [] s = ok (false, s)
  store_credentials (p ∷ prefs) s = do
    s1 ← add_credentials_to_scan_preferences redis index scan_id (p ∷ prefs) s
    ok (true, s1)

  -- The messages are those of the preference handler.
  unfoldable pub prepare_credentials_for_openvas :
      Numerals
      → Dict (Dict Text)
      → List Text
      → redis.State
      → Result (Bool × (List Text × redis.State))
  prepare_credentials_for_openvas numerals [] errors s = ok (true, (errors, s))
  prepare_credentials_for_openvas numerals (credential ∷ credentials) errors s = do
    built ← build_credentials_as_prefs numerals (credential ∷ credentials) errors
    (result, s1) ← store_credentials built.0 s
    ok (result, (built.1, s1))

  unfoldable pub prepare_main_kbindex_for_openvas : redis.State → Result redis.State
  prepare_main_kbindex_for_openvas = add_each ((codes "ov_maindbid|||" ++ str index) ∷ [])
