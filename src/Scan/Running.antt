-- ===== src/Scan/Running.antt =====
-- The run of a scan, in ospd/ospd.py: its progress, its end, and the checks on its process.
pub mod Started
pub mod Counted
pub mod Ends
pub mod Forgotten
mod Tests
use ospd_openvas.Network.Targets.{target_str_to_list, Sockets}
use ospd_openvas.Scan.Counts.{
  list_or_nothing, get_finished_hosts_count, get_count_total, get_simplified_exclude_host_count,
  get_host_list, get_count_dead, get_count_alive, calculate_target_progress, get_finished_hosts,
}
use ospd_openvas.Scan.Collection.{
  set_host_finished, get_status, or_empty, get_progress, is_finished, set_progress,
  set_host_progress, set_status,
}
use ospd_openvas.Prelude.{
  none, ◌++◌, ◌-◌, ◌*◌, ltb, false, ◌==◌, not, if◌then◌else◌, ◌&&◌, true, some, List, Bool, ℕ,
  Option, [], ◌∷◌,
}
use ospd_openvas.Scan.Queue.{with_table, status_is, Process, Daemon}
use ospd_openvas.Py.Text.{codes, Text}
use ospd_openvas.Network.Ports.{is_empty}
use ospd_openvas.Py.Dict.{get, keys, Dict}
use ospd_openvas.Scan.{
  finished, is_queued, interrupted, running, is_ended, Table, ScanInfo, ScanStatus, stopped,
}
use ospd_openvas.Prelude.Int.{ltb_ℤ, pos, ℤ}
use ospd_openvas.Py.Result.{
  ◌>>◌, key_error, attribute_error, raise, or_raise, ok, Exception, ◌>>=◌, Result,
}
use ospd_openvas.Scan.Adding.{add_scan_error}
use ospd_openvas.Scan.Hosts.{get_current_target_progress}
use ospd_openvas.Scan.Pickle.{Pickler}
use ospd_openvas.Scan.Queue

unfoldable pub finish_scan : ℕ → Text → Table → Result Table
finish_scan now scan_id table = do
  table1 ← set_progress now scan_id (pos 100) table
  set_status now scan_id finished table1

unfoldable pub interrupt_scan : ℕ → Text → Table → Result Table
interrupt_scan now scan_id table = set_status now scan_id interrupted table

abbrev pub is_stopped : Option ScanStatus → Bool
is_stopped (some stopped) = true
is_stopped _ = false

module _ (sockets : Sockets) where
  abbrev pub add_finished : Text → Text → Table → Result Table
  add_finished [] scan_id table = ok table
  add_finished (c ∷ hosts) scan_id table =
      set_host_finished scan_id (list_or_nothing (target_str_to_list sockets (c ∷ hosts))) table

  unfoldable pub process_finished_hosts : Text → Table → Result Table
  process_finished_hosts scan_id table = do
    finished_hosts ← get_finished_hosts scan_id table
    add_finished finished_hosts scan_id table

  -- `_get_scan_progress_raw`: its values are for the log, and two of them are computed and kept when
  -- they are asked for first.
  unfoldable pub get_scan_progress_raw : Text → Table → Result Table
  get_scan_progress_raw scan_id table = do
    _ ← get_current_target_progress scan_id table
    _ ← get_progress scan_id table
    _ ← get_count_alive scan_id table
    _ ← get_count_dead scan_id table
    (_, table1) ← get_simplified_exclude_host_count sockets scan_id table
    (_, table2) ← get_count_total sockets scan_id table1
    _ ← get_finished_hosts_count sockets scan_id table2
    ok table2

  unfoldable pub set_scan_progress : ℕ → Text → Table → Result Table
  set_scan_progress now scan_id table = do
    table1 ← get_scan_progress_raw scan_id table
    (scan_progress, table2) ← calculate_target_progress sockets scan_id table1
    set_progress now scan_id scan_progress table2

  unfoldable pub set_scan_progress_batch : ℕ → Text → Dict ℤ → Table → Result Table
  set_scan_progress_batch now scan_id host_progress table = do
    table1 ← set_host_progress scan_id host_progress table
    set_scan_progress now scan_id table1

  -- The host and the progress may be None.
  unfoldable pub set_scan_host_progress : ℕ → Text → Option Text → Option ℤ → Table → Result Table
  set_scan_host_progress now scan_id (some host) (some progress) table =
      set_scan_progress_batch now scan_id ((host, progress) ∷ []) table
  set_scan_host_progress now scan_id host progress table = ok table

  -- `exec_scan` of the subclass: what it raises, if anything, and the table then.
  module _ (exec_scan : Text → Table → Result (Unit {0}) × Table) (message : Exception → Text) where
    -- The exception becomes an error result.
    abbrev pub report_failure : Text → Result (Unit {0}) × Table → Result Table
    report_failure scan_id (ok _, table) = ok table
    report_failure scan_id (raise e, table) =
        add_scan_error scan_id (or_empty (get_host_list scan_id table)) [] []
          (codes "Host process failure (" ++ (message e ++ codes ").")) [] [] [] table

    -- Setting the status stands in the same `try`.
    abbrev pub run_exec : Text → Table → Result Table → Result Table
    run_exec scan_id table (raise e) = report_failure scan_id (raise e, table)
    run_exec scan_id table (ok table1) = report_failure scan_id (exec_scan scan_id table1)

    abbrev pub end_scan : ℕ → Text → Bool → ℤ → Table → Result Table
    end_scan now scan_id true progress table = ok table
    end_scan now scan_id false progress table =
        if is_finished progress
        then finish_scan now scan_id table
        else interrupt_scan now scan_id table

    unfoldable pub start_scan : ℕ → Text → Table → Result Table
    start_scan now scan_id table = do
      table1 ← process_finished_hosts scan_id table
      table2 ← run_exec scan_id table1 (set_status now scan_id running table1)
      table3 ← set_scan_progress now scan_id table2
      progress ← get_progress scan_id table3
      table4 ← end_scan now scan_id (is_stopped (get_status scan_id table2)) progress table3
      get_scan_progress_raw scan_id table4

-- `scaninfo_store_time` is in hours, and 0 for no limit.
abbrev pub is_forgotten : ℕ → ℕ → ScanInfo → Bool
is_forgotten now hours info =
    is_ended info.status && (not (info.end_time == 0) && ltb (hours * 3600) (now - info.end_time))

module _ (pickler : Pickler) where
  abbrev pub forget_if : Bool → Text → Daemon → Daemon
  forget_if true scan_id daemon = (Queue.delete_scan pickler scan_id daemon).1
  forget_if false scan_id daemon = daemon

  -- The body of the loop; `get_end_time` of a missing scan is a KeyError.
  abbrev pub forget_each : ℕ → ℕ → List Text → Daemon → Result Daemon
  forget_each now hours [] daemon = ok daemon
  forget_each now hours (scan_id ∷ ids) daemon = do
    info ← or_raise key_error (get scan_id daemon.store.table)
    forget_each now hours ids (forget_if (is_forgotten now hours info) scan_id daemon)

  unfoldable pub clean_forgotten_scans : ℕ → ℕ → Daemon → Result Daemon
  clean_forgotten_scans now hours daemon =
      if hours == 0 then ok daemon else forget_each now hours (keys daemon.store.table) daemon

-- `check_scan_process`, by the process: `join` only frees its resources. The end of a missing process
-- is an AttributeError.
abbrev pub fail_if : Bool → ℕ → Text → Table → Result Table
fail_if false now scan_id table = ok table
fail_if true now scan_id table = do
  table1 ← add_scan_error scan_id [] [] [] (codes "Scan process Failure") [] [] [] table
  interrupt_scan now scan_id table1

abbrev pub check_process : ℕ → Text → Option Process → ℤ → Option ScanStatus → Table → Result Table
check_process now scan_id none progress status table =
    if is_finished progress then raise attribute_error else ok table
check_process now scan_id (some process) progress status table =
    fail_if ((ltb_ℤ progress (pos 100) && not process.alive) && not (is_stopped status)) now scan_id
      table

abbrev pub check_unqueued : Bool → ℕ → Text → Daemon → Result Daemon
check_unqueued true now scan_id daemon = ok daemon
check_unqueued false now scan_id daemon = do
  progress ← get_progress scan_id daemon.store.table
  table ←
      check_process now scan_id (get scan_id daemon.scan_processes) progress
        (get_status scan_id daemon.store.table) daemon.store.table
  ok (with_table daemon table)

unfoldable pub check_scan_process : ℕ → Text → Daemon → Result Daemon
check_scan_process now scan_id daemon =
    check_unqueued (status_is is_queued (get_status scan_id daemon.store.table)) now scan_id daemon
