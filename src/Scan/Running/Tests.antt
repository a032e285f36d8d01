-- ===== src/Scan/Running/Tests.antt =====
-- Runs of a scan, of its counts and of its results, and the theorems about them at concrete inputs.
use ospd_openvas.Py.Result.{eof_error, ok, openvas_error, raise, Result, Ends, Exception}
use ospd_openvas.Prelude.{
  arith, ◌==◌, ◌+◌, refl, if◌then◌else◌, length, some, true, ◌≡◌, ℕ, [], ◌∷◌, none, List,
}
use ospd_openvas.Py.TextList.{has_text, fromkeys}
use ospd_openvas.Py.Text.{strip_char, strip, has_char, join, split, codes, text_eq, Text}
use ospd_openvas.Network.Targets.{
  target_to_hostname, target_to_ipv6_long, target_to_ipv6_short, target_to_ipv4_long,
  target_to_ipv4_short, target_to_ipv6_cidr, target_to_ipv4_cidr, target_to_ipv6, target_to_ipv4,
  target_to_list, target_str_to_list, Sockets,
}
use ospd_openvas.Scan.Running.Forgotten.{clean_forgotten_scans-kept, kept}
use ospd_openvas.Scan.Counts.Bounds.{target_progress_of-done, AllDone}
use ospd_openvas.Scan.Adding.Batch.{
  add_findings-add_result_list, collect_all, error, add_findings, log, Finding,
}
use ospd_openvas.Scan.Counts.Excluded.{simplify_exclude_host_count-excluded}
use ospd_openvas.Scan.Running.Ends.{start_scan-Ends, Ended}
use ospd_openvas.Scan.Collection.{add_result_list}
use ospd_openvas.Scan.Running.{start_scan, clean_forgotten_scans}
use ospd_openvas.Prelude.Int.{◌≤ℤ◌, pos, ℤ}
use ospd_openvas.Scan.{finished, init, ScanInfo, Target, Table}
use ospd_openvas.Scan.Creation.{queued_info, started_info}
use ospd_openvas.Scan.Counts.{simplify_exclude_host_count, target_progress_of}
use ospd_openvas.Scan.Running.Started.{Started}
use ospd_openvas.Py.Dict.{get, Dict, put}
use ospd_openvas.Scan.Pickle.{Pickler}
use ospd_openvas.Scan.Queue.{Daemon}

abbrev sample_id : Text
sample_id = codes "scan1"

-- Every text is a hostname.
abbrev sample_sockets : Sockets
sample_sockets = record {
  pton4 = λ s. none;
  pton6 = λ s. none;
  ntoa = λ bytes. [];
  ntop6 = λ bytes. [];
  is_hostname = λ s. true;
}

abbrev sample_target : Target
sample_target = record {
  hosts = codes "a,b";
  ports = none;
  exclude_hosts = codes "b";
  finished_hosts = [];
  options = [];
}

abbrev sample_info : ScanInfo
sample_info =
    let fresh =
      started_info 7
        (record { target = sample_target; options = []; vts = record { vts = []; vt_groups = [] } })
        (queued_info 5 sample_id [] (some [])) in
    record fresh { status = init }

abbrev sample_table : Table
sample_table = (sample_id, sample_info) ∷ []

-- The scanner does not start.
abbrev sample_exec : Text → Table → Result (Unit {0}) × Table
sample_exec scan_id table = (raise openvas_error, table)

abbrev sample_message : Exception → Text
sample_message e = codes "no scanner"

unfoldable opened : Unit {0}
unfolding target_str_to_list target_to_list target_to_ipv4 target_to_ipv6 target_to_ipv4_cidr
    target_to_ipv6_cidr target_to_ipv4_short target_to_ipv4_long target_to_ipv6_short
    target_to_ipv6_long target_to_hostname split join has_char strip strip_char fromkeys has_text
    text_eq get
opened = tt

sample-Started : Started sample_sockets init sample_id sample_table
unfolding opened
sample-Started = record {
  info = sample_info;
  found = refl;
  started = (
    (_, refl),
    (_, refl),
    (_, refl),
    (_, refl),
    (_, refl),
    (_, refl),
    (sample_target, refl, (_, refl)),
  );
  same_status = refl;
}

start_scan-Ends_example :
    Ends
      (Ended sample_sockets sample_id)
      (start_scan sample_sockets sample_exec sample_message 9 sample_id sample_table)
start_scan-Ends_example =
    start_scan-Ends sample_sockets sample_exec sample_message 9 sample_id init sample_table
      (λ status scan_id table s. (status, s)) refl sample-Started

-- Two scans are over, one of them more than an hour ago.
abbrev over_at : Text → ℕ → Text × ScanInfo
over_at scan_id end_time = (scan_id, record sample_info { status = finished; end_time = end_time })

abbrev old_daemon : Daemon
old_daemon = record {
  store = record {
    files = [];
    table = over_at (codes "old") 100 ∷ over_at (codes "new") 9000 ∷ [];
  };
  scan_processes = [];
  max_scans = 0;
  min_free_mem_scan_queue = 0;
  last_scan_start_time = 0;
  initialized = true;
}

abbrev sample_pickler : Pickler
sample_pickler = record {
  dumps = λ info. [];
  loads = λ bytes. raise eof_error;
  sha256 = λ bytes. bytes;
}

clean_forgotten_scans-kept_example :
    (new : Daemon) × (clean_forgotten_scans sample_pickler 9100 1 old_daemon ≡ ok new)
    × ((key : Text)
        → get key new.store.table ≡ (
            if 1 == 0
            then get key old_daemon.store.table
            else kept 9100 1 (get key old_daemon.store.table)))
unfolding has_text text_eq
clean_forgotten_scans-kept_example =
    clean_forgotten_scans-kept sample_pickler 9100 1 old_daemon (refl, (refl, tt))

simplify_exclude_host_count-excluded_example :
    simplify_exclude_host_count sample_sockets sample_id sample_table
    ≡ ok
        (1, put sample_id (record sample_info { excluded_simplified = some (some 1) }) sample_table)
unfolding opened put
simplify_exclude_host_count-excluded_example =
    simplify_exclude_host_count-excluded sample_sockets sample_id sample_table sample_info
      sample_target (codes "a" ∷ codes "b" ∷ []) refl refl refl

abbrev sample_progress : Dict ℤ
sample_progress = (codes "a", pos 50) ∷ (codes "b", pos 100) ∷ []

-- Of four hosts one is dead, one is done and left the progress, and two are in progress.
target_progress_of-done_example :
    (target_progress_of (pos 4) 1 (pos 1) sample_progress 0 ≤ℤ pos 100)
    × (target_progress_of (pos 4) 1 (pos 1) sample_progress 0 ≡ pos 100
        → AllDone sample_progress × (length sample_progress + 1 + 1 ≡ 4 + 0))
target_progress_of-done_example =
    target_progress_of-done sample_progress 1 1 4 0 (omega arith, (omega arith, tt)) (omega arith)

abbrev two_findings : List Finding
two_findings =
    log (codes "a") [] (codes "HOST") (codes "up") [] [] [] []
    ∷ error [] [] [] (codes "no answer") [] [] []
    ∷ []

add_findings-add_result_list_example :
    add_findings sample_id two_findings sample_table
    ≡ add_result_list sample_id (collect_all two_findings []) sample_table
unfolding get text_eq
add_findings-add_result_list_example =
    add_findings-add_result_list sample_id two_findings sample_table sample_info [] refl
      (refl, (refl, tt)) refl refl
