-- ===== src/Scan/Queue.antt =====
-- The queue of ospd/ospd.py: creating, starting, stopping and deleting scans. A scan's process runs
-- beside the daemon: of it the model keeps whether it is alive and whether it was told to end.
pub mod Limit
pub mod Starting
use ospd_openvas.Prelude.{
  ◌*◌, ◌-◌, none, length, some, ltb, suc, ◌||◌, false, leb, Option, ◌==◌, not, ◌&&◌, true, List,
  if◌then◌else◌, ℕ, Bool, [], ◌∷◌,
}
use ospd_openvas.Scan.Collection.{id_exists, get_status, set_status}
use ospd_openvas.Py.Dict.{get, erase, put, Dict, keys}
use ospd_openvas.Scan.{init, running, stopped, StoredInfo, is_running, is_queued, Table, ScanStatus}
use ospd_openvas.Network.Ports.{is_empty}
use ospd_openvas.Py.Result.{command_error, ok, ◌>>=◌, raise, Result}
use ospd_openvas.Scan.Pickle.{remove_file, Pickler}
use ospd_openvas.Scan.Creation.{unpickle_scan_info, Store}
use ospd_openvas.Py.Text.{Text}
use ospd_openvas.Scan.Collection
use ospd_openvas.Scan.Creation

pub record Process : Type 0 where
  pub alive : Bool
  pub terminated : Bool

-- `max_scans` and `min_free_mem_scan_queue` (in MB) are 0 for no limit; times are in seconds.
pub record Daemon : Type 0 where
  pub store : Store
  pub scan_processes : Dict Process
  pub max_scans : ℕ
  pub min_free_mem_scan_queue : ℕ
  pub last_scan_start_time : ℕ
  pub initialized : Bool

-- The clock and the bytes of memory available.
pub record Reading : Type 0 where
  pub time : ℕ
  pub available : ℕ

abbrev pub with_table : Daemon → Table → Daemon
with_table daemon table = record daemon { store = record daemon.store { table = table } }

abbrev pub status_is : (ScanStatus → Bool) → Option ScanStatus → Bool
status_is p none = false
status_is p (some status) = p status

abbrev is_active : ScanStatus → Bool
is_active running = true
is_active init = true
is_active _ = false

-- The loops of `get_count_queued_scans` and `get_count_running_scans`.
abbrev count_by : (ScanStatus → Bool) → List Text → Table → ℕ
count_by p [] table = 0
count_by p (scan_id ∷ ids) table =
    let rest = count_by p ids table in
    if status_is p (get_status scan_id table) then suc rest else rest

unfoldable pub get_count_queued_scans : Daemon → ℕ
get_count_queued_scans daemon = count_by is_queued (keys daemon.store.table) daemon.store.table

unfoldable pub get_count_running_scans : Daemon → ℕ
get_count_running_scans daemon = count_by is_active (keys daemon.store.table) daemon.store.table

unfoldable pub is_new_scan_allowed : Daemon → Bool
is_new_scan_allowed daemon =
    not (not (daemon.max_scans == 0) && leb daemon.max_scans (length daemon.scan_processes))

-- `MIN_TIME_BETWEEN_START_SCAN` is 60. A difference of times below 0 is below 60 too.
unfoldable pub is_enough_free_memory : Reading → Daemon → Bool
is_enough_free_memory reading daemon =
    (daemon.min_free_mem_scan_queue == 0)
    || (not (
          ltb (reading.time - daemon.last_scan_start_time) 60
          && not (get_count_running_scans daemon == 0))
        && ltb (daemon.min_free_mem_scan_queue * 1048576) reading.available)

-- What is raised, if anything, and the daemon then.
abbrev pub Outcome : Type 0
Outcome = Result (Unit {0}) × Daemon

-- `set_scan_status`, which raises a KeyError on a scan that is not in the table.
abbrev pub set_scan_status : ℕ → Text → ScanStatus → Daemon → Result Daemon
set_scan_status now scan_id status daemon = do
  table ← set_status now scan_id status daemon.store.table
  ok (with_table daemon table)

abbrev pub outcome : Daemon → Result Daemon → Outcome
outcome daemon (raise e) = (raise e, daemon)
outcome daemon (ok new) = (ok tt, new)

abbrev pub terminate : Text → Process → Daemon → Daemon
terminate scan_id process daemon = record daemon {
  scan_processes = put scan_id (record process { terminated = true }) daemon.scan_processes;
}

abbrev pub proceed : Outcome → (Daemon → Outcome) → Outcome
proceed (raise e, daemon) rest = (raise e, daemon)
proceed (ok _, daemon) rest = rest daemon

-- The body of the loop over the scans, by whether the scan is queued, whether it is allowed and what
-- starting it does: the loop ends at the first queued scan that is not allowed.
abbrev pub start_if : Bool → Bool → Outcome → (Daemon → Outcome) → Daemon → Outcome
start_if false allowed started rest daemon = rest daemon
start_if true false started rest daemon = (ok tt, daemon)
start_if true true started rest daemon = proceed started rest

module _ (pickler : Pickler) where
  abbrev pub remove_pickled : Text → Daemon → Daemon
  remove_pickled scan_id daemon = record daemon {
    store = record daemon.store { files = remove_file pickler scan_id daemon.store.files };
  }

  -- `stop_scan` of a scan that is not queued, by its process.
  abbrev pub stop_process : Option Process → ℕ → Text → Daemon → Outcome
  stop_process none now scan_id daemon = (raise command_error, daemon)
  stop_process (some process) now scan_id daemon =
      if not process.alive
      then (raise command_error, daemon)
      else outcome daemon
          (do new ← set_scan_status now scan_id stopped daemon; ok (terminate scan_id process new))

  unfoldable pub stop_scan : ℕ → Text → Daemon → Outcome
  stop_scan now scan_id daemon =
      if status_is is_queued (get_status scan_id daemon.store.table)
      then outcome (remove_pickled scan_id daemon)
          (set_scan_status now scan_id stopped (remove_pickled scan_id daemon))
      else stop_process (get scan_id daemon.scan_processes) now scan_id daemon

  -- A scan with the id is not created again; `none` is the result None.
  unfoldable pub create_scan :
      Bool → Text → ℕ → Text → Dict (Dict Text) → StoredInfo → Daemon → Option Text × Daemon
  create_scan writable uuid now scan_id credentials info daemon =
      let (result, store) =
        Creation.create_scan pickler writable uuid now scan_id credentials info daemon.store in
      if not (is_empty scan_id) && id_exists scan_id daemon.store.table
      then (none, daemon)
      else (result, record daemon { store = store })

  -- `process.join()` has waited for the end of the process, so it has an exit code and is removed.
  -- The result 0, or that of the collection's `delete_scan`.
  unfoldable pub delete_scan : Text → Daemon → Bool × Daemon
  delete_scan scan_id daemon =
      if status_is is_running (get_status scan_id daemon.store.table)
      then (false, daemon)
      else let (result, table) = Collection.delete_scan scan_id daemon.store.table in
        (
          result,
          record (with_table daemon table) { scan_processes = erase scan_id daemon.scan_processes },
        )

  -- The new process runs; the status of the scan becomes INIT.
  abbrev pub launch : Reading → Text → Daemon → Daemon
  launch reading scan_id daemon = record daemon {
    scan_processes =
        put scan_id (record { alive = true; terminated = false }) daemon.scan_processes;
    last_scan_start_time = reading.time;
  }

  abbrev pub with_store : Daemon → Store → Daemon
  with_store daemon store = record daemon { store = store }

  -- The body of the `if scan_is_queued and scan_allowed`, by what `unpickle_scan_info` did: an
  -- OspdCommandError is logged and the scan stopped, any other exception passes on.
  abbrev pub start_unpickled : Result (Unit {0}) → Reading → Text → Daemon → Outcome
  start_unpickled (raise command_error) reading scan_id daemon =
      stop_scan reading.time scan_id daemon
  start_unpickled (raise e) reading scan_id daemon = (raise e, daemon)
  start_unpickled (ok _) reading scan_id daemon =
      outcome (launch reading scan_id daemon)
        (set_scan_status reading.time scan_id init (launch reading scan_id daemon))

  unfoldable pub start_queued : Reading → Text → Daemon → Outcome
  start_queued reading scan_id daemon =
      let (result, store) = unpickle_scan_info pickler reading.time scan_id daemon.store in
      start_unpickled result reading scan_id (with_store daemon store)

  unfoldable pub is_allowed : Reading → Daemon → Bool
  is_allowed reading daemon = is_new_scan_allowed daemon && is_enough_free_memory reading daemon

  -- The loop of `start_queued_scans`, with the reading at each scan.
  abbrev pub start_each : (Text → Reading) → List Text → Daemon → Outcome
  start_each readings [] daemon = (ok tt, daemon)
  start_each readings (scan_id ∷ ids) daemon =
      start_if (status_is is_queued (get_status scan_id daemon.store.table))
        (is_allowed (readings scan_id) daemon) (start_queued (readings scan_id) scan_id daemon)
        (start_each readings ids) daemon

  unfoldable pub start_queued_scans : (Text → Reading) → Daemon → Outcome
  start_queued_scans readings daemon =
      if (get_count_queued_scans daemon == 0) || not daemon.initialized
      then (ok tt, daemon)
      else start_each readings (keys daemon.store.table) daemon
