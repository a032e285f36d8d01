-- ===== src/Report/Expected.antt =====
-- What the messages of the scanner add to a scan, told apart by the texts that `report_results` of
-- ospd_openvas/daemon.py tests, and written out field by field.
use ospd_openvas.Py.Dict.{get}
use ospd_openvas.Prelude.{
  All, ◌≢◌, some, false, ◌++◌, true, none, [], ◌≡◌, ◌∷◌, Option, String, ℕ, List,
}
use ospd_openvas.Prelude.Int.{◌+ℤ◌, pos, ℤ}
use ospd_openvas.Py.Number.{int}
use ospd_openvas.Report.{VtAux, Vulnerabilities, RawResult}
use ospd_openvas.Py.Text.{strip, has_sub, codes, Text}
use ospd_openvas.Scan.Collection.{or_empty}
use ospd_openvas.Scan.{ScanResult}

-- The name and the quality of detection of a result, and the VT they come from.
pub data Named (v : Vulnerabilities) (res : RawResult) : Option VtAux → Text → Text → Type 0 where
  dead_value : has_sub (codes "Host dead") res.value ≡ true → Named v res none [] []
  denied_value : has_sub (codes "Host access denied") res.value ≡ true → Named v res none [] []
  unknown_vt : v.get_single_vt (strip res.oid) ≡ none → Named v res none [] []
  plain_qod :
      (vt : VtAux)
      → has_sub (codes "Host dead") res.value ≡ false
      → has_sub (codes "Host access denied") res.value ≡ false
      → v.get_single_vt (strip res.oid) ≡ some vt
      → vt.qod_type ≡ []
      → Named v res (some vt) vt.name vt.qod
  typed_qod :
      (vt : VtAux) (qod : Text)
      → has_sub (codes "Host dead") res.value ≡ false
      → has_sub (codes "Host access denied") res.value ≡ false
      → v.get_single_vt (strip res.oid) ≡ some vt
      → vt.qod_type ≢ []
      → get vt.qod_type v.qod_types ≡ some qod
      → Named v res (some vt) vt.name qod

-- The severity of an alarm.
pub data Scored (v : Vulnerabilities) : Option VtAux → Text → Type 0 where
  no_vt : Scored v none []
  version_2 :
      (vt : VtAux)
      → vt.severities.severity_type ≡ codes "cvss_base_v2"
      → vt.severities.severity_base_vector ≢ []
      → Scored v (some vt) (or_empty (v.cvss_base_v2_value vt.severities.severity_base_vector))
  version_3 :
      (vt : VtAux)
      → vt.severities.severity_type ≡ codes "cvss_base_v3"
      → vt.severities.severity_base_vector ≢ []
      → Scored v (some vt) (or_empty (v.cvss_base_v3_value vt.severities.severity_base_vector))
  no_vector : (vt : VtAux) → vt.severities.severity_base_vector ≡ [] → Scored v (some vt) []
  other_version :
      (vt : VtAux)
      → vt.severities.severity_type ≢ codes "cvss_base_v2"
      → vt.severities.severity_type ≢ codes "cvss_base_v3"
      → Scored v (some vt) []

abbrev pub known_types : List String
known_types =
    "ERRMSG" ∷ "HOST_START" ∷ "HOST_END" ∷ "LOG" ∷ "HOST_DETAIL" ∷ "ALARM" ∷ "DEADHOST"
    ∷ "HOSTS_COUNT" ∷ "HOSTS_EXCLUDED" ∷ []

-- The fields that every result of a VT has.
abbrev pub vt_result : RawResult → ℕ → Text → ScanResult
vt_result res type name = record {
  type = type;
  name = name;
  severity = [];
  test_id = strip res.oid;
  value = res.value;
  host = strip res.host_ip;
  hostname = strip res.host_name;
  port = res.port;
  qod = [];
  uri = or_empty res.uri;
}

-- A host that starts or ends has a log without host name, port and VT.
abbrev pub start_end_result : RawResult → ScanResult
start_end_result res = record {
  type = 1;
  name = res.result_type;
  severity = codes "0.0";
  test_id = [];
  value = res.value;
  host = strip res.host_ip;
  hostname = [];
  port = [];
  qod = [];
  uri = [];
}

-- The results and the number of dead hosts that one message adds. The types of results are 0 for an
-- alarm, 1 for a log, 2 for an error and 3 for a host detail. An error has its uri as severity, and a
-- host detail has it as port.
pub data Adds (v : Vulnerabilities) (res : RawResult) : List ScanResult → ℤ → Type 0 where
  an_error :
      {vt : Option VtAux} {name qod : Text}
      → res.result_type ≡ codes "ERRMSG"
      → Named v res vt name qod
      → Adds v res
          (record (vt_result res 2 name) { severity = or_empty res.uri; uri = [] } ∷ [])
          (pos 0)
  a_start : res.result_type ≡ codes "HOST_START" → Adds v res (start_end_result res ∷ []) (pos 0)
  an_end : res.result_type ≡ codes "HOST_END" → Adds v res (start_end_result res ∷ []) (pos 0)
  a_log :
      {vt : Option VtAux} {name qod : Text}
      → res.result_type ≡ codes "LOG"
      → Named v res vt name qod
      → Adds v res
          (record (vt_result res 1 name) { severity = codes "0.0"; qod = qod } ∷ [])
          (pos 0)
  a_detail :
      {vt : Option VtAux} {name qod : Text}
      → res.result_type ≡ codes "HOST_DETAIL"
      → Named v res vt name qod
      → Adds v res
          (record (vt_result res 3 name) { test_id = []; port = or_empty res.uri; uri = [] } ∷ [])
          (pos 0)
  an_alarm :
      {vt : Option VtAux} {name qod severity : Text}
      → res.result_type ≡ codes "ALARM"
      → Named v res vt name qod
      → Scored v vt severity
      → Adds v res (record (vt_result res 0 name) { severity = severity; qod = qod } ∷ []) (pos 0)
  dead_hosts :
      (n : ℤ) → res.result_type ≡ codes "DEADHOST" → int res.value ≡ some n → Adds v res [] n
  total_hosts :
      (n : ℤ)
      → res.result_type ≡ codes "HOSTS_COUNT"
      → int res.value ≡ some n
      → Adds v res [] (pos 0)
  excluded_hosts :
      (n : ℤ)
      → res.result_type ≡ codes "HOSTS_EXCLUDED"
      → int res.value ≡ some n
      → Adds v res [] (pos 0)
  nothing :
      {vt : Option VtAux} {name qod : Text}
      → All (λ word. res.result_type ≢ codes word) known_types
      → Named v res vt name qod
      → Adds v res [] (pos 0)

-- What all messages add, in their order.
pub data AllAdd (v : Vulnerabilities) : List RawResult → List ScanResult → ℤ → Type 0 where
  no_message : AllAdd v [] [] (pos 0)
  and_message :
      {res : RawResult} {raws : List RawResult} {first rest : List ScanResult} {n m : ℤ}
      → Adds v res first n
      → AllAdd v raws rest m
      → AllAdd v (res ∷ raws) (first ++ rest) (n +ℤ m)
