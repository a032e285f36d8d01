-- ===== src/Report.antt =====
-- How the results of the scanner reach the scan collection: `report_openvas_results` and
-- `report_results` of ospd_openvas/daemon.py.
pub mod Added
pub mod Expected
pub mod Finish
pub mod Messages
pub mod Read
mod Tests
use ospd_openvas.Network.Ports.{is_empty}
use ospd_openvas.Prelude.{
  ◌&&◌, zero, ◌-◌, none, length, some, ◌==◌, ◌||◌, false, not, [], suc, ◌∷◌, true, if◌then◌else◌,
  Bool, ℕ, List, Option,
}
use ospd_openvas.Scan.Adding.{
  add_scan_alarm_to_list, add_scan_host_detail_to_list, add_scan_log_to_list,
  add_scan_error_to_list,
}
use ospd_openvas.Prelude.Int.{◌+ℤ◌, negsuc, pos, ℤ}
use ospd_openvas.Py.Result.{index_error, raise, key_error, value_error, or_raise, ◌>>=◌, ok, Result}
use ospd_openvas.Py.Number.{int}
use ospd_openvas.Py.Dict.{get, Dict}
use ospd_openvas.Scan.Collection.{or_empty, add_result_list, set_amount_dead_hosts, id_exists}
use ospd_openvas.Py.Text.{strip, codes, has_sub, starts_with, Text}
use ospd_openvas.Kb.OpenvasDb.{no_items}
use ospd_openvas.Kb.KbDb.{get_result}
use ospd_openvas.Kb.Redis.{head_of, Redis}
use ospd_openvas.Scan.Counts.{update_count_excluded, update_count_total}
use ospd_openvas.Prefs.Credentials.{is_word}
use ospd_openvas.Scan.{Table, ScanResult}

-- `res.split(sep)`, with the number of characters of a separator that are still to be left out.
abbrev pub first_char : ℕ → List Text → List Text
first_char c [] = []
first_char c (part ∷ parts) = (c ∷ part) ∷ parts

unfoldable pub split_at : Text → ℕ → Text → List Text
split_at sep skip [] = [] ∷ []
split_at sep (suc skip) (c ∷ s) = split_at sep skip s
split_at sep zero (c ∷ s) = elim (starts_with (c ∷ s) sep) [
  | true ↦ [] ∷ split_at sep (length sep - 1) s
  | false ↦ first_char c (split_at sep zero s)
]

-- A result as the scanner sends it: `uri` may be missing.
pub record RawResult : Type 0 where
  pub result_type : Text
  pub host_ip : Text
  pub host_name : Text
  pub port : Text
  pub oid : Text
  pub value : Text
  pub uri : Option Text

-- `msg[0]` to `msg[5]`, and `msg[6]` if it is there.
abbrev pub read_message : List Text → Result RawResult
read_message (result_type ∷ host_ip ∷ host_name ∷ port ∷ oid ∷ value ∷ rest) = ok (record {
  result_type = result_type;
  host_ip = host_ip;
  host_name = host_name;
  port = port;
  oid = oid;
  value = value;
  uri = head_of rest;
})
read_message _ = raise index_error

-- The loop of `report_openvas_results`.
abbrev pub read_all : List Text → Result (List RawResult)
read_all [] = ok []
read_all ([] ∷ all_results) = read_all all_results
read_all ((c ∷ res) ∷ all_results) = do
  raw ← read_message (split_at (codes "|||") 0 (c ∷ res))
  results ← read_all all_results
  ok (raw ∷ results)

-- `vt_aux['severities']`
pub record Severities : Type 0 where
  pub severity_type : Text
  pub severity_base_vector : Text

-- What the result needs of a VT.
pub record VtAux : Type 0 where
  pub name : Text
  pub qod_type : Text
  pub qod : Text
  pub severities : Severities

-- The VTs, the qualities of detection by their type, and the scores of CVSS vectors, as
-- ospd_openvas/vthelper.py, ospd_openvas/nvticache.py and ospd/cvss.py give them. A score is the text
-- of its float; `none` is the score None.
pub record Vulnerabilities : Type 0 where
  pub get_single_vt : Text → Option VtAux
  pub qod_types : Dict Text
  pub cvss_base_v2_value : Text → Option Text
  pub cvss_base_v3_value : Text → Option Text

pub data Kind : Type 0 where
  errmsg host_start_end log_message host_detail_message alarm_message : Kind
  deadhost hosts_count hosts_excluded other_type : Kind

abbrev pub kind_of : Text → Kind
kind_of result_type =
    if is_word "ERRMSG" result_type
    then errmsg
    else if is_word "HOST_START" result_type || is_word "HOST_END" result_type
    then host_start_end
    else if is_word "LOG" result_type
    then log_message
    else if is_word "HOST_DETAIL" result_type
    then host_detail_message
    else if is_word "ALARM" result_type
    then alarm_message
    else if is_word "DEADHOST" result_type
    then deadhost
    else if is_word "HOSTS_COUNT" result_type
    then hosts_count
    else if is_word "HOSTS_EXCLUDED" result_type
    then hosts_excluded
    else other_type

-- Whether the kind alone says that no VT is looked up.
abbrev pub has_no_vt : Kind → Bool
has_no_vt host_start_end = true
has_no_vt deadhost = true
has_no_vt hosts_count = true
has_no_vt hosts_excluded = true
has_no_vt _ = false

-- `set_scan_total_hosts` and `set_scan_total_excluded_hosts` of ospd/ospd.py.
unfoldable pub set_scan_total_hosts : Text → ℤ → Table → Result Table
set_scan_total_hosts scan_id count_total = update_count_total scan_id count_total

unfoldable pub set_scan_total_excluded_hosts : Text → ℤ → Table → Result Table
set_scan_total_excluded_hosts scan_id count_excluded = update_count_excluded scan_id count_excluded

-- `res_list` and `total_dead`, with the scan table.
pub record Reporting : Type 0 where
  pub res_list : List ScanResult
  pub total_dead : ℤ
  pub table : Table

abbrev pub is_nonzero : ℤ → Bool
is_nonzero (pos n) = not (n == 0)
is_nonzero (negsuc n) = true

-- The batch is inserted, and the dead hosts are counted.
abbrev pub insert_list : Text → List ScanResult → Table → Result Table
insert_list scan_id [] table = ok table
insert_list scan_id (result ∷ res_list) table = add_result_list scan_id (result ∷ res_list) table

abbrev pub count_dead_if : Bool → Text → ℤ → Table → Result Table
count_dead_if false scan_id total_dead table = ok table
count_dead_if true scan_id total_dead table = set_amount_dead_hosts scan_id total_dead table

abbrev pub finish_report : Text → Reporting → Result (Bool × Table)
finish_report scan_id r = do
  table1 ← insert_list scan_id r.res_list r.table
  table2 ← count_dead_if (is_nonzero r.total_dead) scan_id r.total_dead table1
  ok (not (no_items r.res_list), table2)

module _ (vulnerabilities : Vulnerabilities) where
  abbrev pub looked_up : Kind → RawResult → Option VtAux
  looked_up kind res =
      if (has_no_vt kind || has_sub (codes "Host dead") res.value)
        || has_sub (codes "Host access denied") res.value
      then none
      else vulnerabilities.get_single_vt (strip res.oid)

  -- The name and the quality of detection; an unknown type is a KeyError.
  abbrev pub quality : Text → Text → Result Text
  quality [] qod = ok qod
  quality (c ∷ qod_type) qod = or_raise key_error (get (c ∷ qod_type) vulnerabilities.qod_types)

  abbrev pub describe : Option VtAux → Result (Text × Text)
  describe none = ok ([], [])
  describe (some vt) = do rqod ← quality vt.qod_type vt.qod; ok (vt.name, rqod)

  abbrev pub score_vector : Severities → Option Text
  score_vector s =
      if is_word "cvss_base_v2" s.severity_type && not (is_empty s.severity_base_vector)
      then vulnerabilities.cvss_base_v2_value s.severity_base_vector
      else if is_word "cvss_base_v3" s.severity_type && not (is_empty s.severity_base_vector)
      then vulnerabilities.cvss_base_v3_value s.severity_base_vector
      else none

  abbrev pub get_severity_score : Option VtAux → Option Text
  get_severity_score none = none
  get_severity_score (some vt) = score_vector vt.severities

  -- The call of the result list, if the kind has one. The score None is the empty text.
  abbrev pub add_kind :
      Kind → RawResult → Option VtAux → Text → Text → List ScanResult → List ScanResult
  add_kind errmsg res vt rname rqod =
      add_scan_error_to_list (strip res.host_ip) (strip res.host_name) rname res.value res.port
        (strip res.oid) (or_empty res.uri)
  add_kind host_start_end res vt rname rqod =
      add_scan_log_to_list (strip res.host_ip) [] res.result_type res.value [] [] [] []
  add_kind log_message res vt rname rqod =
      add_scan_log_to_list (strip res.host_ip) (strip res.host_name) rname res.value res.port
        (strip res.oid) rqod (or_empty res.uri)
  add_kind host_detail_message res vt rname rqod =
      add_scan_host_detail_to_list (strip res.host_ip) (strip res.host_name) rname res.value
        (or_empty res.uri)
  add_kind alarm_message res vt rname rqod =
      add_scan_alarm_to_list (strip res.host_ip) (strip res.host_name) rname res.value res.port
        (strip res.oid) (or_empty (get_severity_score vt)) rqod (or_empty res.uri)
  add_kind _ res vt rname rqod = λ result_list. result_list

  -- What the numbers of the scanner change. A text that is no number is a ValueError, which the code
  -- does not catch.
  abbrev pub count_kind : Kind → Text → RawResult → Reporting → Result Reporting
  count_kind deadhost scan_id res r = do
    dead ← or_raise value_error (int res.value)
    ok (record r { total_dead = r.total_dead +ℤ dead })
  count_kind hosts_count scan_id res r = do
    count_total ← or_raise value_error (int res.value)
    table ← set_scan_total_hosts scan_id count_total r.table
    ok (record r { table = table })
  count_kind hosts_excluded scan_id res r = do
    total_excluded ← or_raise value_error (int res.value)
    table ← set_scan_total_excluded_hosts scan_id total_excluded r.table
    ok (record r { table = table })
  count_kind _ scan_id res r = ok r

  abbrev pub report_kind : Kind → Text → RawResult → Reporting → Result Reporting
  report_kind kind scan_id res r = do
    (rname, rqod) ← describe (looked_up kind res)
    let added = add_kind kind res (looked_up kind res) rname rqod r.res_list
    count_kind kind scan_id res (record r { res_list = added })

  -- The body of the loop.
  abbrev pub report_one : Text → RawResult → Reporting → Result Reporting
  report_one scan_id res r = report_kind (kind_of res.result_type) scan_id res r

  abbrev pub report_each : Text → List RawResult → Reporting → Result Reporting
  report_each scan_id [] r = ok r
  report_each scan_id (res ∷ results) r = do
    next ← report_one scan_id res r
    report_each scan_id results next

  abbrev pub report_known : Bool → Text → List RawResult → Table → Result (Bool × Table)
  report_known false scan_id results table = ok (false, table)
  report_known true scan_id results table = do
    r ← report_each scan_id results (record { res_list = []; total_dead = pos 0; table = table })
    finish_report scan_id r

  unfoldable pub report_results : Text → List RawResult → Table → Result (Bool × Table)
  report_results scan_id results table =
      report_known (id_exists scan_id table) scan_id results table

  unfoldable pub report_openvas_results :
      (redis : Redis) → ℕ → Text → Table → redis.State → Result ((Bool × Table) × redis.State)
  report_openvas_results redis index scan_id table s = do
    (all_results, s1) ← get_result redis index s
    results ← read_all all_results
    reported ← report_results scan_id results table
    ok (reported, s1)
