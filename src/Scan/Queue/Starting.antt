-- ===== src/Scan/Queue/Starting.antt =====
-- When `start_queued_scans` (ospd/ospd.py) does not raise: a description that is not there, that
-- cannot be unpickled or that is not the stored one stops its scan.
use ospd_openvas.Scan.Creation.{
  unpickle_result, Store, unpickle_with, unpickle_scan_info, unpickle_found, started_info,
  unpickle_loaded,
}
use ospd_openvas.Py.Dict.Laws.{
  AllEntries-erase, AllEntries-get, AllEntries-put, put-put, get-put, AllEntries,
}
use ospd_openvas.Scan.Pickle.{IsCaught, load_data-ok, remove_file, Pickler}
use ospd_openvas.Py.Result.{Result, raise, ok}
use ospd_openvas.Py.Dict.{keys, get, put}
use ospd_openvas.Prelude.{
  not, ◌||◌, ◌==◌, List, Bool, sym, subst, refl, none, ◌∙◌, ap, false, arith, some, true,
  if◌then◌else◌, Option, ◌≡◌, ℕ, [], ◌∷◌,
}
use ospd_openvas.Scan.Queue.{
  get_count_queued_scans, is_allowed, start_each, start_if, remove_pickled, start_queued_scans,
  status_is, start_queued, with_table, set_scan_status, with_store, outcome, start_unpickled,
  Daemon, Reading, stop_scan, Outcome,
}
use ospd_openvas.Scan.Queue.Limit.{if_ind}
use ospd_openvas.Scan.{
  stopped, init, stamps_end, is_queued, StoredInfo, Table, ScanStatus, ScanInfo,
}
use ospd_openvas.Scan.Collection.{get_status, set_status}
use ospd_openvas.Py.Text.{Text}

-- A queued scan has the hash of its stored description.
abbrev pub IsReady : Text → ScanInfo → Type 0
IsReady key info =
    is_queued info.status ≡ true → (hash : Option Text) × (info.scan_info_hash ≡ some hash)

-- Every queued scan has its hash, and reading a stored file raises nothing but an UnpicklingError.
abbrev pub IsSound : Pickler → Store → Type 0
IsSound pickler store =
    AllEntries IsReady store.table
    × AllEntries (λ key bytes. IsCaught (pickler.loads bytes)) store.files

-- Nothing was raised, and the store is sound.
abbrev pub IsGood : Pickler → Outcome → Type 0
IsGood pickler result = (result.0 ≡ ok tt) × IsSound pickler result.1.store

-- The scan with a new status.
abbrev with_status : ℕ → ScanStatus → ScanInfo → ScanInfo
with_status now status info = record info {
  status = status;
  end_time = if stamps_end status then now else info.end_time;
}

set_status-put :
    (now : ℕ) (scan_id : Text) (status : ScanStatus) (info : ScanInfo) (table : Table)
    → set_status now scan_id status (put scan_id info table)
      ≡ ok (put scan_id (with_status now status info) table)
unfolding set_status
set_status-put now scan_id status info table =
    ground
      (arith, get-put scan_id info table, put-put scan_id info (with_status now status info) table)

-- Setting a status other than QUEUED on a scan that has just been written.
set_scan_status-IsGood :
    (pickler : Pickler) (now : ℕ) (scan_id : Text) (status : ScanStatus) (info : ScanInfo)
    (table : Table) (daemon before : Daemon)
    → daemon.store.table ≡ put scan_id info table
    → is_queued status ≡ false
    → IsSound pickler (record daemon.store { table = table })
    → IsGood pickler (outcome before (set_scan_status now scan_id status daemon))
set_scan_status-IsGood pickler now scan_id status info table daemon before same other (ready, all) =
    let new : Table = put scan_id (with_status now status info) table in
    let run : set_status now scan_id status daemon.store.table ≡ ok new =
      ap (set_status now scan_id status) same ∙ set_status-put now scan_id status info table in
    let run2 : set_scan_status now scan_id status daemon ≡ ok (with_table daemon new) =
      rw run refl in
    subst (λ r. IsGood pickler (outcome before r)) (sym run2)
      (
        refl,
        (AllEntries-put IsReady scan_id (with_status now status info) table (λ e. cc) ready, all),
      )

get_status-put :
    (scan_id : Text) (info : ScanInfo) (table : Table)
    → get_status scan_id (put scan_id info table) ≡ some info.status
unfolding get_status
get_status-put scan_id info table = ground (arith, get-put scan_id info table)

-- A queued scan that is found has a hash.
queued-found :
    (scan_id : Text) (found : Option ScanInfo) (table : Table)
    → get scan_id table ≡ found
    → status_is is_queued (get_status scan_id table) ≡ true
    → AllEntries IsReady table
    → (info : ScanInfo) × (hash : Option Text) × (found ≡ some info)
      × (is_queued info.status ≡ true)
      × (info.scan_info_hash ≡ some hash)
unfolding get_status
queued-found scan_id none table h waits ready = ground (arith, h)
queued-found scan_id (some info) table h waits ready =
    let queued : is_queued info.status ≡ true = ground (arith, h) in
    let (hash, e) = AllEntries-get IsReady scan_id info table ready h queued in
    (info, hash, refl, queued, e)

module _ (pickler : Pickler) where
  stop_scan-queued :
      (now : ℕ) (scan_id : Text) (daemon : Daemon)
      → status_is is_queued (get_status scan_id daemon.store.table) ≡ true
      → stop_scan pickler now scan_id daemon
        ≡ outcome
            (remove_pickled pickler scan_id daemon)
            (set_scan_status now scan_id stopped (remove_pickled pickler scan_id daemon))
  unfolding stop_scan
  stop_scan-queued now scan_id daemon waits = rw waits

  stop_scan-IsGood :
      (now : ℕ) (scan_id : Text) (info : ScanInfo) (table : Table) (daemon : Daemon)
      → daemon.store.table ≡ put scan_id info table
      → is_queued info.status ≡ true
      → IsSound pickler (record daemon.store { table = table })
      → IsGood pickler (stop_scan pickler now scan_id daemon)
  unfolding remove_file
  stop_scan-IsGood now scan_id info table daemon same waits (ready, all) =
      let removed : Daemon = remove_pickled pickler scan_id daemon in
      let found : status_is is_queued (get_status scan_id daemon.store.table) ≡ true =
        ap (λ t. status_is is_queued (get_status scan_id t)) same
        ∙ ap (status_is is_queued) (get_status-put scan_id info table)
        ∙ waits in
      subst (IsGood pickler) (sym (stop_scan-queued now scan_id daemon found)) (
        set_scan_status-IsGood pickler now scan_id stopped info table removed removed same refl
          (ready, AllEntries-erase _ scan_id daemon.store.files all))

  start_loaded-IsGood :
      (loaded : Option StoredInfo) (reading : Reading) (scan_id : Text) (info : ScanInfo)
      (daemon : Daemon)
      → is_queued info.status ≡ true
      → IsSound pickler daemon.store
      → IsGood pickler (
          let (result, store) =
            unpickle_loaded pickler loaded reading.time scan_id info daemon.store in
          start_unpickled pickler result reading scan_id (with_store pickler daemon store))
  unfolding remove_file
  start_loaded-IsGood none reading scan_id info daemon waits (ready, all) =
      stop_scan-IsGood reading.time scan_id (record info { scan_info_hash = none })
        daemon.store.table _ refl waits (ready, AllEntries-erase _ scan_id daemon.store.files all)
  start_loaded-IsGood (some stored) reading scan_id info daemon waits (ready, all) =
      set_scan_status-IsGood pickler reading.time scan_id init
        (started_info reading.time stored info) daemon.store.table _ _ refl refl
        (ready, AllEntries-erase _ scan_id daemon.store.files all)

  -- Starting a queued scan by what was found of it.
  start_found : Option ScanInfo → Reading → Text → Daemon → Outcome
  start_found found reading scan_id daemon =
      let (result, store) = unpickle_found pickler found reading.time scan_id daemon.store in
      start_unpickled pickler result reading scan_id (with_store pickler daemon store)

  start_queued-found :
      (reading : Reading) (scan_id : Text) (daemon : Daemon)
      → start_queued pickler reading scan_id daemon
        ≡ start_found (get scan_id daemon.store.table) reading scan_id daemon
  unfolding start_queued unpickle_scan_info start_found
  start_queued-found reading scan_id daemon = refl

  start_found-hash :
      (reading : Reading) (scan_id : Text) (daemon : Daemon) (info : ScanInfo) (hash : Option Text)
      → info.scan_info_hash ≡ some hash
      → is_queued info.status ≡ true
      → IsSound pickler daemon.store
      → IsGood pickler (start_found (some info) reading scan_id daemon)
  unfolding start_found
  start_found-hash reading scan_id daemon info hash h waits sound =
      let (loaded, run) = load_data-ok pickler scan_id hash daemon.store.files _ refl sound.1 in
      subst
        (λ (x : Option (Option Text)).
          let (result, store) = unpickle_with pickler x reading.time scan_id info daemon.store in
          IsGood pickler
            (start_unpickled pickler result reading scan_id (with_store pickler daemon store)))
        (sym h)
        (subst
          (λ (x : Result (Option StoredInfo)).
            let (result, store) =
              unpickle_result pickler x reading.time scan_id info daemon.store in
            IsGood pickler
              (start_unpickled pickler result reading scan_id (with_store pickler daemon store)))
          (sym run) (start_loaded-IsGood loaded reading scan_id info daemon waits sound))

  start_queued-IsGood :
      (reading : Reading) (scan_id : Text) (daemon : Daemon)
      → status_is is_queued (get_status scan_id daemon.store.table) ≡ true
      → IsSound pickler daemon.store
      → IsGood pickler (start_queued pickler reading scan_id daemon)
  start_queued-IsGood reading scan_id daemon waits sound =
      let (info, hash, found, queued, h) =
        queued-found scan_id (get scan_id daemon.store.table) daemon.store.table refl waits
          sound.0 in
      subst (IsGood pickler)
        (sym (
          start_queued-found reading scan_id daemon
          ∙ ap (λ f. start_found f reading scan_id daemon) found))
        (start_found-hash reading scan_id daemon info hash h queued sound)

  start_if-IsGood :
      (queued allowed : Bool) (started : Outcome) (rest : Daemon → Outcome) (daemon : Daemon)
      → IsSound pickler daemon.store
      → (queued ≡ true → IsGood pickler started)
      → ((d : Daemon) → IsSound pickler d.store → IsGood pickler (rest d))
      → IsGood pickler (start_if queued allowed started rest daemon)
  start_if-IsGood false allowed started rest daemon sound s k = k daemon sound
  start_if-IsGood true false started rest daemon sound s k = (refl, sound)
  start_if-IsGood true true (ok _, next) rest daemon sound s k = k next (s refl).1
  start_if-IsGood true true (raise e, next) rest daemon sound s k = s refl

  start_each-IsGood :
      (readings : Text → Reading) (ids : List Text) (daemon : Daemon)
      → IsSound pickler daemon.store
      → IsGood pickler (start_each pickler readings ids daemon)
  start_each-IsGood readings [] daemon sound = (refl, sound)
  start_each-IsGood readings (scan_id ∷ ids) daemon sound =
      start_if-IsGood (status_is is_queued (get_status scan_id daemon.store.table))
        (is_allowed pickler (readings scan_id) daemon)
        (start_queued pickler (readings scan_id) scan_id daemon) (start_each pickler readings ids)
        daemon sound (λ waits. start_queued-IsGood (readings scan_id) scan_id daemon waits sound)
        (start_each-IsGood readings ids)

  -- Where every queued scan has the hash of its stored description, and reading the pickle of a stored
  -- file raises nothing but an UnpicklingError, starting the queued scans raises nothing, and both
  -- hold then too: files that are missing, are no pickle or are not what was stored included.
  pub start_queued_scans-IsGood :
      (readings : Text → Reading) (daemon : Daemon)
      → IsSound pickler daemon.store
      → IsGood pickler (start_queued_scans pickler readings daemon)
  unfolding start_queued_scans
  start_queued_scans-IsGood readings daemon sound =
      if_ind (IsGood pickler) ((get_count_queued_scans daemon == 0) || not daemon.initialized)
        (refl, sound) (start_each-IsGood readings (keys daemon.store.table) daemon sound)
