-- ===== src/Scan/Adding.antt =====
-- Results by their kind: ospd/resultlist.py, and the `add_scan_` methods of ospd/ospd.py. Both pass
-- their arguments on by position.
pub mod Batch
use ospd_openvas.Scan.Collection.{add_result}
use ospd_openvas.Prelude.{◌++◌, List, ℕ, [], ◌∷◌}
use ospd_openvas.Py.Result.{Result}
use ospd_openvas.Scan.{Table, ScanResult}
use ospd_openvas.Py.Text.{codes, Text}

-- The arguments of `add_result` and of `add_result_to_list` behind the scan, in their order: type,
-- host, hostname, name, value, port, test_id, severity, qod and uri.
abbrev pub result_of : ℕ → Text → Text → Text → Text → Text → Text → Text → Text → Text → ScanResult
result_of type host hostname name value port test_id severity qod uri = record {
  type = type;
  name = name;
  severity = severity;
  test_id = test_id;
  value = value;
  host = host;
  hostname = hostname;
  port = port;
  qod = qod;
  uri = uri;
}

-- `ResultList`: the types are 0 to 3, and an argument that is left out is empty. The uri of an error
-- stands where the severity is expected, and that of a host detail where the port is.
abbrev pub add_result_to_list : ScanResult → List ScanResult → List ScanResult
add_result_to_list result result_list = result_list ++ (result ∷ [])

abbrev pub add_scan_alarm_to_list :
    Text → Text → Text → Text → Text → Text → Text → Text → Text → List ScanResult → List ScanResult
add_scan_alarm_to_list host hostname name value port test_id severity qod uri =
    add_result_to_list (result_of 0 host hostname name value port test_id severity qod uri)

abbrev pub add_scan_log_to_list :
    Text → Text → Text → Text → Text → Text → Text → Text → List ScanResult → List ScanResult
add_scan_log_to_list host hostname name value port test_id qod uri =
    add_result_to_list (result_of 1 host hostname name value port test_id (codes "0.0") qod uri)

abbrev pub add_scan_error_to_list :
    Text → Text → Text → Text → Text → Text → Text → List ScanResult → List ScanResult
add_scan_error_to_list host hostname name value port test_id uri =
    add_result_to_list (result_of 2 host hostname name value port test_id uri [] [])

abbrev pub add_scan_host_detail_to_list :
    Text → Text → Text → Text → Text → List ScanResult → List ScanResult
add_scan_host_detail_to_list host hostname name value uri =
    add_result_to_list (result_of 3 host hostname name value uri [] [] [] [])

-- The methods of the daemon.
unfoldable pub add_scan_alarm :
    Text → Text → Text → Text → Text → Text → Text → Text → Text → Text → Table → Result Table
add_scan_alarm scan_id host hostname name value port test_id severity qod uri =
    add_result scan_id (result_of 0 host hostname name value port test_id severity qod uri)

unfoldable pub add_scan_log :
    Text → Text → Text → Text → Text → Text → Text → Text → Text → Table → Result Table
add_scan_log scan_id host hostname name value port test_id qod uri =
    add_result scan_id (result_of 1 host hostname name value port test_id (codes "0.0") qod uri)

unfoldable pub add_scan_error :
    Text → Text → Text → Text → Text → Text → Text → Text → Table → Result Table
add_scan_error scan_id host hostname name value port test_id uri =
    add_result scan_id (result_of 2 host hostname name value port test_id uri [] [])

unfoldable pub add_scan_host_detail : Text → Text → Text → Text → Text → Text → Table → Result Table
add_scan_host_detail scan_id host hostname name value uri =
    add_result scan_id (result_of 3 host hostname name value uri [] [] [] [])
