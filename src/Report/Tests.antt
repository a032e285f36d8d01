-- ===== src/Report/Tests.antt =====
-- Messages of the scanner that are reported at a concrete input.
use ospd_openvas.Prelude.Int.{pos}
use ospd_openvas.Report.{
  VtAux, read_message, split_at, read_all, RawResult, report_openvas_results, Vulnerabilities,
}
use ospd_openvas.Scan.{ScanResult, ScanInfo}
use ospd_openvas.Prelude.{refl, ◌≡◌, [], none, some, ◌∷◌}
use ospd_openvas.Report.Messages.{read_message-glue, fields_of, glue}
use ospd_openvas.Py.Text.{has_char, strip, find_sub, has_sub, starts_with, text_eq, codes, Text}
use ospd_openvas.Kb.KbDb.{get_result}
use ospd_openvas.Py.Result.{index_error, raise, ok}
use ospd_openvas.Py.Number.{int}
use ospd_openvas.Kb.Server.{empty_server, server}
use ospd_openvas.Kb.BaseKbDb.{ctx_of}
use ospd_openvas.Scan.Creation.{queued_info}
use ospd_openvas.Py.Dict.{get}
use ospd_openvas.Kb.BaseKbDb
use ospd_openvas.Kb.OpenvasDb

abbrev sample_id : Text
sample_id = codes "scan1"

abbrev sample_vt : VtAux
sample_vt = record {
  name = codes "a VT";
  qod_type = codes "exploit";
  qod = [];
  severities = record { severity_type = codes "cvss_base_v2"; severity_base_vector = codes "AV:N" };
}

abbrev sample_vulnerabilities : Vulnerabilities
sample_vulnerabilities = record {
  get_single_vt = λ oid. some sample_vt;
  qod_types = (codes "exploit", codes "100") ∷ [];
  cvss_base_v2_value = λ vector. some (codes "5.0");
  cvss_base_v3_value = λ vector. none;
}

unfoldable opened : Unit {0}
unfolding get text_eq split_at starts_with has_sub find_sub int strip get_result
    BaseKbDb.pop_list_items OpenvasDb.pop_list_items report_openvas_results
opened = tt

abbrev message : Text
message = codes "ALARM|||10.0.0.1||| a.example|||22/tcp|||1.3.6|||weak"

abbrev alarm : RawResult
alarm = record {
  result_type = codes "ALARM";
  host_ip = codes "10.0.0.1";
  host_name = codes " a.example";
  port = codes "22/tcp";
  oid = codes "1.3.6";
  value = codes "weak";
  uri = none;
}

message_read : read_all (message ∷ [] ∷ []) ≡ ok (alarm ∷ [])
unfolding opened
message_read = refl

abbrev three_dead : RawResult
three_dead = record alarm { result_type = codes "DEADHOST"; value = codes "3" }

abbrev sample_info : ScanInfo
sample_info = record (queued_info 5 sample_id [] none) {
  results = some [];
  count_dead = some (pos 1);
}

abbrev alarm_result : ScanResult
alarm_result = record {
  type = 0;
  name = codes "a VT";
  severity = codes "5.0";
  test_id = codes "1.3.6";
  value = codes "weak";
  host = codes "10.0.0.1";
  hostname = codes "a.example";
  port = codes "22/tcp";
  qod = codes "100";
  uri = [];
}

-- A message with too few fields is an exception, after the whole list was taken out of the database.
cut_message_raises :
    report_openvas_results sample_vulnerabilities server 1 sample_id [] (
      server.rpush
        (ctx_of 1)
        (codes "internal/results")
        (codes "LOG|||10.0.0.1" ∷ message ∷ [])
        empty_server)
    ≡ raise index_error
unfolding opened
cut_message_raises = refl

read_message-glue_example :
    read_message (split_at (codes "|||") 0 (glue (fields_of alarm))) ≡ ok alarm
unfolding has_char
read_message-glue_example =
    read_message-glue alarm (refl, (refl, (refl, (refl, (refl, (refl, tt))))))
