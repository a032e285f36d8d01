-- ===== src/Scan/Queue/Limit.antt =====
-- `start_queued_scans` (ospd/ospd.py) keeps the limit on the number of scan processes.
use ospd_openvas.Py.Dict.{keys, Dict, get, put}
use ospd_openvas.Prelude.{
  ◌||◌, ◌==◌, false, if◌then◌else◌, not, List, ◌∙◌, Bool, ◌<◌, sym, ap, refl, true, none, suc, some,
  ◌≡◌, ◌≤◌, arith, Option, length, ◌≢◌, ℕ, [], ◌∷◌,
}
use ospd_openvas.Scan.Queue.{
  proceed, start_if, get_count_queued_scans, Outcome, start_queued_scans, remove_pickled,
  start_each, start_unpickled, launch, status_is, with_table, terminate, Reading, outcome,
  is_new_scan_allowed, stop_process, set_scan_status, is_allowed, start_queued, stop_scan, Process,
  Daemon,
}
use ospd_openvas.Py.Result.{command_error, ok-injective, raise, ◌>>=◌, >>=-eq-ok, ok, Result}
use ospd_openvas.Scan.Collection.{get_status, set_status}
use ospd_openvas.Scan.{init, is_queued, stopped, ScanStatus}
use ospd_openvas.Py.Text.{Text}
use ospd_openvas.Scan.Pickle.{Pickler}

length-put : {A : Type 0} (key : Text) (a : A) (d : Dict A) → length (put key a d) ≤ suc (length d)
unfolding put
length-put key a [] = omega arith
length-put key a ((k, b) ∷ d) = ground (arith, length-put key a d)

length-put_found :
    {A : Type 0} (key : Text) (a b : A) (d : Dict A)
    → get key d ≡ some b
    → length (put key a d) ≡ length d
unfolding put get
length-put_found key a b [] h = cc
length-put_found key a b ((k, c) ∷ d) h = ground (arith, length-put_found key a b d)

-- At most `max_scans` processes, where there is a limit.
abbrev pub WithinLimit : Daemon → Type 0
WithinLimit daemon = daemon.max_scans ≢ 0 → length daemon.scan_processes ≤ daemon.max_scans

-- As many processes, under the same limit.
abbrev SameLimit : Daemon → Daemon → Type 0
SameLimit daemon new =
    (length new.scan_processes ≡ length daemon.scan_processes) × (new.max_scans ≡ daemon.max_scans)

WithinLimit-of_same :
    (daemon new : Daemon) → SameLimit daemon new → WithinLimit daemon → WithinLimit new
WithinLimit-of_same daemon new (e, f) h n = omega (arith, h)

outcome-SameLimit :
    (daemon before : Daemon) (result : Result Daemon)
    → SameLimit daemon before
    → ((new : Daemon) → result ≡ ok new → SameLimit daemon new)
    → SameLimit daemon (outcome before result).1
outcome-SameLimit daemon before (raise e) h k = h
outcome-SameLimit daemon before (ok new) h k = k new refl

set_scan_status-SameLimit :
    (now : ℕ) (scan_id : Text) (status : ScanStatus) (daemon new : Daemon)
    → set_scan_status now scan_id status daemon ≡ ok new
    → (new.scan_processes ≡ daemon.scan_processes) × (new.max_scans ≡ daemon.max_scans)
set_scan_status-SameLimit now scan_id status daemon new h =
    let (table, _, e) = >>=-eq-ok (set_status now scan_id status daemon.store.table) _ h in
    let same : with_table daemon table ≡ new = ok-injective e in
    (ap (λ d. d.scan_processes) (sym same), ap (λ d. d.max_scans) (sym same))

-- A further process is within the limit.
abbrev HasRoom : Daemon → Type 0
HasRoom daemon = daemon.max_scans ≢ 0 → length daemon.scan_processes < daemon.max_scans

within_of_room : (daemon : Daemon) → HasRoom daemon → WithinLimit daemon
within_of_room daemon h n = omega (arith, h n)

pub if_ind :
    {A : Type 0} (P : A → Type 0) (test : Bool) {x y : A} → P x → P y → P (if test then x else y)
if_ind P true h k = h
if_ind P false h k = k

module _ (pickler : Pickler) where
  stop_alive-SameLimit :
      (process : Process) (now : ℕ) (scan_id : Text) (daemon new : Daemon)
      → get scan_id daemon.scan_processes ≡ some process
      → (do new ← set_scan_status now scan_id stopped daemon; ok (terminate scan_id process new))
        ≡ ok new
      → SameLimit daemon new
  stop_alive-SameLimit process now scan_id daemon new found h =
      let (daemon1, h1, h2) = >>=-eq-ok (set_scan_status now scan_id stopped daemon) _ h in
      let (e, f) = set_scan_status-SameLimit now scan_id stopped daemon daemon1 h1 in
      let same : terminate scan_id process daemon1 ≡ new = ok-injective h2 in
      let p : Process = record process { terminated = true } in
      (
        ap (λ d. length d.scan_processes) (sym same)
            ∙ ap (λ d. length (put scan_id p d)) e
            ∙ length-put_found scan_id p process daemon.scan_processes found,
        ap (λ d. d.max_scans) (sym same) ∙ f,
      )

  stop_process-SameLimit :
      (process : Option Process) (now : ℕ) (scan_id : Text) (daemon : Daemon)
      → get scan_id daemon.scan_processes ≡ process
      → SameLimit daemon (stop_process pickler process now scan_id daemon).1
  stop_process-SameLimit none now scan_id daemon h = (refl, refl)
  stop_process-SameLimit (some process) now scan_id daemon h =
      if_ind (λ (r : Outcome). SameLimit daemon r.1) (not process.alive) (refl, refl)
        (outcome-SameLimit daemon daemon _ (refl, refl)
          (λ new e. stop_alive-SameLimit process now scan_id daemon new h e))

  stop_scan-SameLimit :
      (now : ℕ) (scan_id : Text) (daemon : Daemon)
      → SameLimit daemon (stop_scan pickler now scan_id daemon).1
  unfolding stop_scan
  stop_scan-SameLimit now scan_id daemon =
      let removed : Daemon = remove_pickled pickler scan_id daemon in
      let result : Result Daemon = set_scan_status now scan_id stopped removed in
      let same : SameLimit daemon (outcome removed result).1 =
        outcome-SameLimit daemon removed result (refl, refl)
          (λ new e.
            let (p, m) = set_scan_status-SameLimit now scan_id stopped removed new e in
            (ap length p, m)) in
      if_ind (λ (r : Outcome). SameLimit daemon r.1)
        (status_is is_queued (get_status scan_id daemon.store.table)) {x = outcome removed result}
        {y = stop_process pickler (get scan_id daemon.scan_processes) now scan_id daemon} same
        (stop_process-SameLimit (get scan_id daemon.scan_processes) now scan_id daemon refl)

  launch-WithinLimit :
      (reading : Reading) (scan_id : Text) (daemon : Daemon)
      → HasRoom daemon
      → WithinLimit (launch pickler reading scan_id daemon)
  launch-WithinLimit reading scan_id daemon h n = omega (
    arith,
    h n,
    length-put scan_id (record { alive = true; terminated = false }) daemon.scan_processes,
  )

  stopped-WithinLimit :
      (now : ℕ) (scan_id : Text) (daemon : Daemon)
      → HasRoom daemon
      → WithinLimit (stop_scan pickler now scan_id daemon).1
  stopped-WithinLimit now scan_id daemon h =
      WithinLimit-of_same daemon (stop_scan pickler now scan_id daemon).1
        (stop_scan-SameLimit now scan_id daemon) (λ n. omega (arith, h n))

  start_unpickled-WithinLimit :
      (result : Result (Unit {0})) (reading : Reading) (scan_id : Text) (daemon : Daemon)
      → HasRoom daemon
      → WithinLimit (start_unpickled pickler result reading scan_id daemon).1
  start_unpickled-WithinLimit (ok _) reading scan_id daemon h =
      let launched : Daemon = launch pickler reading scan_id daemon in
      let within = launch-WithinLimit reading scan_id daemon h in
      WithinLimit-of_same launched
        (outcome launched (set_scan_status reading.time scan_id init launched)).1
        (outcome-SameLimit launched launched (set_scan_status reading.time scan_id init launched)
          (refl, refl)
          (λ new e.
            let (p, m) = set_scan_status-SameLimit reading.time scan_id init launched new e in
            (ap length p, m)))
        within
  start_unpickled-WithinLimit (raise command_error) reading scan_id daemon h =
      stopped-WithinLimit reading.time scan_id daemon h
  start_unpickled-WithinLimit (raise e) reading scan_id daemon h = within_of_room daemon h

  HasRoom-of_allowed :
      (reading : Reading) (daemon : Daemon)
      → is_allowed pickler reading daemon ≡ true
      → HasRoom daemon
  unfolding is_allowed is_new_scan_allowed
  HasRoom-of_allowed reading daemon h n = ground arith

  start_queued-WithinLimit :
      (reading : Reading) (scan_id : Text) (daemon : Daemon)
      → is_allowed pickler reading daemon ≡ true
      → WithinLimit (start_queued pickler reading scan_id daemon).1
  unfolding start_queued
  start_queued-WithinLimit reading scan_id daemon h =
      start_unpickled-WithinLimit _ reading scan_id _ (HasRoom-of_allowed reading daemon h)

  proceed-WithinLimit :
      (started : Outcome) (rest : Daemon → Outcome)
      → WithinLimit started.1
      → ((d : Daemon) → WithinLimit d → WithinLimit (rest d).1)
      → WithinLimit (proceed started rest).1
  proceed-WithinLimit (raise e, daemon) rest h k = h
  proceed-WithinLimit (ok _, daemon) rest h k = k daemon h

  start_if-WithinLimit :
      (queued allowed : Bool) (started : Outcome) (rest : Daemon → Outcome) (daemon : Daemon)
      → WithinLimit daemon
      → (allowed ≡ true → WithinLimit started.1)
      → ((d : Daemon) → WithinLimit d → WithinLimit (rest d).1)
      → WithinLimit (start_if queued allowed started rest daemon).1
  start_if-WithinLimit false allowed started rest daemon h s k = k daemon h
  start_if-WithinLimit true false started rest daemon h s k = h
  start_if-WithinLimit true true started rest daemon h s k =
      proceed-WithinLimit started rest (s refl) k

  start_each-WithinLimit :
      (readings : Text → Reading) (ids : List Text) (daemon : Daemon)
      → WithinLimit daemon
      → WithinLimit (start_each pickler readings ids daemon).1
  start_each-WithinLimit readings [] daemon h = h
  start_each-WithinLimit readings (scan_id ∷ ids) daemon h =
      start_if-WithinLimit (status_is is_queued (get_status scan_id daemon.store.table))
        (is_allowed pickler (readings scan_id) daemon)
        (start_queued pickler (readings scan_id) scan_id daemon) (start_each pickler readings ids)
        daemon h (start_queued-WithinLimit (readings scan_id) scan_id daemon)
        (start_each-WithinLimit readings ids)

  -- Starting queued scans never leaves more scan processes than `max_scans`, where that limit is
  -- set and was kept before; scans that cannot be read back and errors are included.
  pub start_queued_scans-WithinLimit :
      (readings : Text → Reading) (daemon : Daemon)
      → WithinLimit daemon
      → WithinLimit (start_queued_scans pickler readings daemon).1
  unfolding start_queued_scans
  start_queued_scans-WithinLimit readings daemon h =
      if_ind (λ (r : Outcome). WithinLimit r.1)
        ((get_count_queued_scans daemon == 0) || not daemon.initialized) h
        (start_each-WithinLimit readings (keys daemon.store.table) daemon h)
