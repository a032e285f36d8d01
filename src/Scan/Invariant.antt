-- ===== src/Scan/Invariant.antt =====
-- What holds of every scan in the table after any sequence of the operations of `ScanCollection`
-- (ospd/scan.py), and that an operation on one scan leaves the others alone.
pub mod Writes
pub mod Reachable
use ospd_openvas.Scan.Collection.{
  set_status, results_iterator, delete_scan, restore_temp_result_list, clean_temp_result_list,
  set_amount_dead_hosts, set_host_dead, set_host_finished, set_host_progress, set_progress,
  remove_hosts_from_target_progress, add_result_list, add_result,
}
use ospd_openvas.Prelude.{true, ◌≤◌, ◌≡◌, ℕ, none, ◌≢◌, List, some, Option, [], ◌∷◌}
use ospd_openvas.Py.Result.{◌>>=◌, ok, Result}
use ospd_openvas.Scan.{ScanStatus, Table, ScanInfo, ScanResult}
use ospd_openvas.Py.Dict.Laws.{AllEntries}
use ospd_openvas.Py.Dict.{get, Dict}
use ospd_openvas.Prelude.Int.{negsuc, pos, ℤ}
use ospd_openvas.Py.Text.{Text}

pub data Operation : Type 0 where
  add_one : ScanResult → Operation
  add_many : List ScanResult → Operation
  forget_hosts : List Text → Operation
  advance : ℕ → ℤ → Operation
  advance_hosts : Dict ℤ → Operation
  finish_hosts bury_hosts : List Text → Operation
  bury_amount : ℤ → Operation
  clean restore remove : Operation
  take_results : Option ℕ → Operation
  change_status : ℕ → ScanStatus → Operation

-- The table after the operation.
unfoldable pub perform : Text → Operation → Table → Result Table
perform scan_id (add_one result) table = add_result scan_id result table
perform scan_id (add_many results) table = add_result_list scan_id results table
perform scan_id (forget_hosts hosts) table = remove_hosts_from_target_progress scan_id hosts table
perform scan_id (advance now progress) table = set_progress now scan_id progress table
perform scan_id (advance_hosts progresses) table = set_host_progress scan_id progresses table
perform scan_id (finish_hosts hosts) table = set_host_finished scan_id hosts table
perform scan_id (bury_hosts hosts) table = set_host_dead scan_id hosts table
perform scan_id (bury_amount n) table = set_amount_dead_hosts scan_id n table
perform scan_id clean table = clean_temp_result_list scan_id table
perform scan_id restore table = restore_temp_result_list scan_id table
perform scan_id remove table = ok (delete_scan scan_id table).1
perform scan_id (take_results m) table = do
  (_, table1) ← results_iterator scan_id true m table
  ok table1
perform scan_id (change_status now status) table = set_status now scan_id status table

-- The progress of a scan, where it has one, lies between 0 and 100.
abbrev pub IsPercentage : ℤ → Type 0
IsPercentage (pos n) = n ≤ 100
IsPercentage (negsuc n) = ⊥

abbrev pub HasPercentage : Option ℤ → Type 0
HasPercentage none = Unit
HasPercentage (some progress) = IsPercentage progress

-- The scan stands under its own id.
abbrev pub WellFormed : Text → ScanInfo → Type 0
WellFormed key info = (info.scan_id ≡ key) × HasPercentage info.progress

-- The table changes at one scan only, and there by writes that keep what `WellFormed` asks for.
abbrev pub Changes : Text → Table → Table → Type 0
Changes scan_id table table1 =
    ((other : Text) → other ≢ scan_id → get other table1 ≡ get other table)
    × (AllEntries WellFormed table → AllEntries WellFormed table1)
