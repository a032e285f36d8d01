-- ===== src/Scan/Tests.antt =====
-- Runs of the scan collection and of the queue, and the theorems about them at concrete inputs.
use ospd_openvas.Prelude.Int.{◌+ℤ◌, negsuc, ℤ, pos}
use ospd_openvas.Scan.Collection.{
  remove_hosts_from_target_progress, set_host_finished, set_host_dead, erase_all,
  restore_temp_result_list, get_progress, results_iterator, set_progress, clean_temp_result_list,
  get_status,
}
use ospd_openvas.Prelude.{◌+◌, arith, ◌++◌, refl, ◌≡◌, some, none, true, ℕ, List, [], ◌∷◌}
use ospd_openvas.Scan.Hosts.{
  IsLeft, get_current_target_progress, Counted, sort_host_finished-counts, sort_host_finished,
}
use ospd_openvas.Py.Result.{key_error, eof_error, Result, raise, ok}
use ospd_openvas.Py.Dict.{Dict, erase, put, get}
use ospd_openvas.Scan.Queue.Starting.{start_queued_scans-IsGood, IsGood}
use ospd_openvas.Scan.Results.{
  fetched-results, restore_temp_result_list-results_iterator, HasTemp, added, left_over, HasResults,
  add, batch, pop, fetched,
}
use ospd_openvas.Scan.Invariant.Reachable.{
  run_calls-progress, run_calls, operate, start, create, Call,
}
use ospd_openvas.Scan.Invariant.{advance, IsPercentage, perform}
use ospd_openvas.Scan.Pickle.{
  load_data-write_file_over, remove_file, write_file, pickled_data_hash_generator, load_data,
  store_data, IsReadBack, Pickler,
}
use ospd_openvas.Scan.Creation.RoundTrip.{unpickle_scan_info-create_scan}
use ospd_openvas.Scan.Creation.{unpickle_scan_info, queued_info, started_info, Store}
use ospd_openvas.Py.Text.{text_eq, codes, Text}
use ospd_openvas.Scan.Queue.Limit.{start_queued_scans-WithinLimit, WithinLimit}
use ospd_openvas.Scan.{
  stopped, queued, running, init, Target, StoredInfo, ScanResult, Table, ScanInfo,
}
use ospd_openvas.Scan.Queue.{start_queued_scans, Reading, Daemon}
use ospd_openvas.Scan.Collection
use ospd_openvas.Scan.Queue
use ospd_openvas.Scan.Creation

abbrev sample_id : Text
sample_id = codes "scan1"

abbrev sample_target : Text → Target
sample_target hosts = record {
  hosts = hosts;
  ports = some (codes "T:22");
  exclude_hosts = [];
  finished_hosts = [];
  options = [];
}

abbrev sample_info : Text → StoredInfo
sample_info hosts = record {
  target = sample_target hosts;
  options = (codes "max_checks", codes "4") ∷ [];
  vts = record { vts = (codes "1.3.6", []) ∷ []; vt_groups = [] };
}

-- A pickle keeps the hosts; the rest of the samples does not vary. The hash is the data.
abbrev sample_loads : List ℕ → Result StoredInfo
sample_loads [] = raise eof_error
sample_loads (b ∷ hosts) = ok (sample_info hosts)

abbrev sample_pickler : Pickler
sample_pickler = record {
  dumps = λ info. 128 ∷ info.target.hosts;
  loads = sample_loads;
  sha256 = λ bytes. bytes;
}

abbrev sample_result : Text → ScanResult
sample_result name = record {
  type = 0;
  name = name;
  severity = [];
  test_id = [];
  value = codes "up";
  host = codes "10.0.0.1";
  hostname = [];
  port = [];
  qod = [];
  uri = [];
}

-- A started scan with three results.
abbrev three : List ScanResult
three = sample_result (codes "a") ∷ sample_result (codes "b") ∷ sample_result (codes "c") ∷ []

abbrev running_info : ScanInfo
running_info =
    let fresh =
      started_info 7 (sample_info (codes "10.0.0.1")) (queued_info 5 sample_id [] (some [])) in
    record fresh { status = running; results = some three }

abbrev running_table : Table
running_table = (sample_id, running_info) ∷ []

abbrev no_scans : Store
no_scans = record { files = []; table = [] }

abbrev sample_daemon : ℕ → Store → Daemon
sample_daemon max_scans store = record {
  store = store;
  scan_processes = [];
  max_scans = max_scans;
  min_free_mem_scan_queue = 0;
  last_scan_start_time = 0;
  initialized = true;
}

abbrev sample_reading : Text → Reading
sample_reading scan_id = record { time = 100; available = 0 }

abbrev add_scan : Text → Text → Daemon → Daemon
add_scan scan_id hosts daemon =
    (Queue.create_scan sample_pickler true [] 5 scan_id [] (sample_info hosts) daemon).1

abbrev two_queued : Daemon
two_queued =
    add_scan (codes "scan2") (codes "10.0.0.2")
      (add_scan sample_id (codes "10.0.0.1") (sample_daemon 1 no_scans))

-- Opens the queue and what it calls.
unfoldable opened : Unit {0}
unfolding Queue.start_queued_scans Queue.create_scan Queue.delete_scan Queue.stop_scan
    Queue.start_queued Queue.is_allowed Queue.is_new_scan_allowed Queue.is_enough_free_memory
    Queue.get_count_queued_scans Queue.get_count_running_scans Creation.create_scan
    Creation.unpickle_scan_info Collection.set_status Collection.get_status Collection.id_exists
    Collection.delete_scan store_data load_data write_file remove_file pickled_data_hash_generator
    get put erase text_eq
opened = tt

abbrev start_all : Daemon → Daemon
start_all daemon = (start_queued_scans sample_pickler sample_reading daemon).1

-- Of two queued scans the first is started under the limit of one.
started_first :
    (get_status sample_id (start_all two_queued).store.table ≡ some init)
    × (get_status (codes "scan2") (start_all two_queued).store.table ≡ some queued)
unfolding opened
started_first = (refl, refl)

abbrev recreated : Daemon
recreated =
    let daemon = add_scan sample_id (codes "10.0.0.1,10.0.0.2") (sample_daemon 1 no_scans) in
    add_scan sample_id (codes "10.0.0.1") (Queue.delete_scan sample_pickler sample_id daemon).1

-- A queued scan is deleted and created again with a shorter description. Its file still has the
-- end of the longer one, so that it is stopped when it should start.
recreated_stops : get_status sample_id (start_all recreated).store.table ≡ some stopped
unfolding opened
recreated_stops = refl

fetched-results_example :
    (got : List ScanResult) × (rest : List ScanResult) × (last : Table) × (fetched sample_id
        (pop (some 2) ∷ add three ∷ pop (some 1) ∷ [])
        running_table
      ≡ ok (got, last))
    × HasResults sample_id rest last
    × (got ++ rest ≡ three ++ added (pop (some 2) ∷ add three ∷ pop (some 1) ∷ []))
unfolding get text_eq
fetched-results_example =
    fetched-results sample_id (pop (some 2) ∷ add three ∷ pop (some 1) ∷ []) three running_table
      (running_info, refl, refl)

restore_temp_result_list-results_iterator_example :
    (table1 : Table) × (table2 : Table) × (results_iterator sample_id true (some 2) running_table
      ≡ ok (batch (some 2) three, table1))
    × (restore_temp_result_list sample_id table1 ≡ ok table2)
    × HasResults sample_id (left_over (some 2) three ++ batch (some 2) three) table2
    × HasTemp sample_id [] table2
unfolding get text_eq
restore_temp_result_list-results_iterator_example =
    restore_temp_result_list-results_iterator sample_id (some 2) three running_table
      (running_info, refl, refl)

readable : IsReadBack sample_pickler (sample_info (codes "10.0.0.1"))
readable = ((λ e. cc), refl)

unpickle_scan_info-create_scan_example :
    (queue : Store) × (last : Store) × (scan : ScanInfo) × (Creation.create_scan sample_pickler true
        [] 5 sample_id []
        (sample_info (codes "10.0.0.1"))
        no_scans
      ≡ (some sample_id, queue))
    × (get_status sample_id queue.table ≡ some queued)
    × (unpickle_scan_info sample_pickler 7 sample_id queue ≡ (ok tt, last))
    × (get sample_id last.table ≡ some scan)
    × (scan.target ≡ some (sample_target (codes "10.0.0.1")))
    × (scan.options ≡ some ((codes "max_checks", codes "4") ∷ []))
    × (scan.vts ≡ some (sample_info (codes "10.0.0.1")).vts)
    × (scan.credentials ≡ [])
    × (scan.results ≡ some [])
    × (get sample_id last.files ≡ none)
unfolding get
unpickle_scan_info-create_scan_example =
    unpickle_scan_info-create_scan sample_pickler [] 5 7 sample_id []
      (sample_info (codes "10.0.0.1")) no_scans readable (λ e. cc) refl

load_data-write_file_over_example :
    load_data sample_pickler sample_id
      (pickled_data_hash_generator sample_pickler (128 ∷ codes "10.0.0.1"))
      (write_file sample_pickler sample_id
        (128 ∷ codes "10.0.0.1")
        ((sample_id, 128 ∷ codes "10.0.0.1,10.0.0.2") ∷ []))
    ≡ ok none
unfolding get text_eq
load_data-write_file_over_example =
    load_data-write_file_over sample_pickler sample_id (sample_info (codes "10.0.0.1"))
      (128 ∷ codes "10.0.0.1,10.0.0.2") ((sample_id, 128 ∷ codes "10.0.0.1,10.0.0.2") ∷ [])
      (λ e. cc) refl (λ e. cc) tt

abbrev sample_calls : List Call
sample_calls =
    create true [] 5 sample_id [] (sample_info (codes "10.0.0.1"))
    ∷ start 7 sample_id
    ∷ operate sample_id (advance 9 (pos 40))
    ∷ operate sample_id (advance 9 (pos 140))
    ∷ []

-- The scan after the calls.
abbrev sample_last : ScanInfo
sample_last =
    let fresh = queued_info 5 sample_id [] (some (128 ∷ codes "10.0.0.1")) in
    record (started_info 7 (sample_info (codes "10.0.0.1")) fresh) { progress = some (pos 40) }

run_calls-progress_example :
    (sample_last.scan_id ≡ sample_id)
    × ((progress : ℤ) × IsPercentage progress
        × (get_progress sample_id (run_calls sample_pickler sample_calls no_scans).table
            ≡ ok progress))
unfolding opened perform set_progress
run_calls-progress_example =
    run_calls-progress sample_pickler sample_calls [] sample_id sample_last refl

start_queued_scans-WithinLimit_example : WithinLimit (start_all two_queued)
unfolding opened
start_queued_scans-WithinLimit_example =
    start_queued_scans-WithinLimit sample_pickler sample_reading two_queued (λ n. omega arith)

start_queued_scans-IsGood_example :
    IsGood sample_pickler (start_queued_scans sample_pickler sample_reading two_queued)
unfolding opened
start_queued_scans-IsGood_example =
    start_queued_scans-IsGood sample_pickler sample_reading two_queued (
      (
        (λ _. (some (128 ∷ codes "10.0.0.1"), refl)),
        ((λ _. (some (128 ∷ codes "10.0.0.2"), refl)), tt),
      ),
      (tt, (tt, tt)),
    )

-- The first file is emptied before the scan starts.
abbrev emptied : Daemon
emptied = record two_queued {
  store = record two_queued.store { files = put sample_id [] two_queued.store.files };
}

-- pickle raises an EOFError on an empty file, which ends `start_queued_scans`. The scan stays queued
-- without a hash, so that the next call ends with a KeyError.
empty_file_raises :
    ((start_queued_scans sample_pickler sample_reading emptied).0 ≡ raise eof_error)
    × (get_status sample_id (start_all emptied).store.table ≡ some queued)
    × ((start_queued_scans sample_pickler sample_reading (start_all emptied)).0 ≡ raise key_error)
unfolding opened
empty_file_raises = (refl, refl, refl)

abbrev sample_progress : Dict ℤ
sample_progress =
    (codes "10.0.0.1", pos 100) ∷ (codes "10.0.0.2", negsuc 0) ∷ (codes "10.0.0.3", pos 40) ∷ []

abbrev busy_info : ScanInfo
busy_info = record running_info { target_progress = some sample_progress }

abbrev done_hosts : List Text
done_hosts = codes "10.0.0.1" ∷ codes "10.0.0.2" ∷ []

-- One host was alive, and one was dead.
one_each :
    (new : Table) × (sort_host_finished sample_id done_hosts ((sample_id, busy_info) ∷ []) ≡ ok new)
    × (get sample_id new
        ≡ some (record busy_info {
          count_alive = some 1;
          count_dead = some (pos 1);
          target_progress = some ((codes "10.0.0.3", pos 40) ∷ []);
        }))
unfolding sort_host_finished get_current_target_progress set_host_dead set_host_finished
    remove_hosts_from_target_progress get put erase text_eq ◌+ℤ◌
one_each = (_, refl, refl)

sort_host_finished-counts_example :
    (new : Table) × (finished : ℕ) × (unreachable : ℕ) × (left : Dict ℤ) × (sort_host_finished
        sample_id done_hosts
        ((sample_id, busy_info) ∷ [])
      ≡ ok new)
    × Counted (pos 100) sample_progress done_hosts finished
    × Counted (negsuc 0) sample_progress done_hosts unreachable
    × IsLeft done_hosts sample_progress left
    × (get sample_id new
        ≡ some (record busy_info {
          count_alive = some (0 + finished);
          count_dead = some (pos 0 +ℤ pos unreachable);
          target_progress = some left;
        }))
unfolding get text_eq
sort_host_finished-counts_example =
    sort_host_finished-counts sample_id done_hosts ((sample_id, busy_info) ∷ []) busy_info
      sample_progress 0 (pos 0) refl refl refl refl
