-- ===== src/Scan/Invariant/Reachable.antt =====
-- The scan table after any sequence of operations.
use ospd_openvas.Scan.Creation.{
  unpickle_result, unpickle_with, unpickle_loaded, unpickle_found, id_or, unpickle_scan_info, Store,
  create_scan,
}
use ospd_openvas.Scan.Invariant.{
  HasPercentage, clean, restore, remove, change_status, take_results, bury_amount, bury_hosts,
  IsPercentage, finish_hosts, advance_hosts, advance, forget_hosts, add_many, add_one, Changes,
  WellFormed, Operation, perform,
}
use ospd_openvas.Scan.Collection.{
  progress_or_init, get_progress, update, set_status, set_amount_dead_hosts, set_host_dead,
  set_host_finished, set_host_progress, add_result_list,
}
use ospd_openvas.Scan.{stamps_end, ScanInfo, Files, StoredInfo, Table}
use ospd_openvas.Prelude.{
  if◌then◌else◌, subst, length, none, ◌+◌, arith, Option, ◌++◌, some, refl, false, true, ◌≡◌, List,
  ℕ, Bool, [], ◌∷◌,
}
use ospd_openvas.Scan.Invariant.Writes.{
  Changes-write_if, take-Changes, delete_scan-Changes, restore-Changes, clean-Changes,
  set_progress-Changes, forget-Changes, Changes-read, add_result-Changes,
}
use ospd_openvas.Py.Result.{ok-injective, type_error, attribute_error, key_error, raise, ok, Result}
use ospd_openvas.Prelude.Int.{◌+ℤ◌, pos, ℤ}
use ospd_openvas.Scan.Pickle.{load_data, store_data, Pickler}
use ospd_openvas.Py.Dict.Laws.{AllEntries-get, AllEntries-put, AllEntries}
use ospd_openvas.Py.Dict.{get, Dict}
use ospd_openvas.Py.Text.{Text}

perform-Changes :
    (scan_id : Text) (op : Operation) (table table1 : Table)
    → perform scan_id op table ≡ ok table1
    → Changes scan_id table table1
unfolding perform add_result_list set_host_progress set_host_finished set_host_dead
    set_amount_dead_hosts set_status
perform-Changes scan_id (add_one result) table table1 h =
    add_result-Changes scan_id result table table1 h
perform-Changes scan_id (add_many results) table table1 h =
    Changes-read key_error (λ info. info.results)
      (λ info a. record info { results = some (a ++ results) }) scan_id table table1
      (λ info a. (refl, λ p. p)) h
perform-Changes scan_id (forget_hosts hosts) table table1 h =
    forget-Changes scan_id hosts table table1 h
perform-Changes scan_id (advance now progress) table table1 h =
    set_progress-Changes now scan_id progress table table1 h
perform-Changes scan_id (advance_hosts progresses) table table1 h =
    Changes-read attribute_error (λ info. info.target_progress)
      (λ info a. record info { target_progress = some (update progresses a) }) scan_id table table1
      (λ info a. (refl, λ p. p)) h
perform-Changes scan_id (finish_hosts hosts) table table1 h =
    Changes-read type_error (λ info. info.count_alive)
      (λ info a. record info { count_alive = some (a + length hosts) }) scan_id table table1
      (λ info a. (refl, λ p. p)) h
perform-Changes scan_id (bury_hosts hosts) table table1 h =
    Changes-read type_error (λ info. info.count_dead)
      (λ info a. record info { count_dead = some (a +ℤ pos (length hosts)) }) scan_id table table1
      (λ info a. (refl, λ p. p)) h
perform-Changes scan_id (bury_amount n) table table1 h =
    Changes-read type_error (λ info. info.count_dead)
      (λ info a. record info { count_dead = some (a +ℤ n) }) scan_id table table1
      (λ info a. (refl, λ p. p)) h
perform-Changes scan_id clean table table1 h = clean-Changes scan_id table table1 h
perform-Changes scan_id restore table table1 h = restore-Changes scan_id table table1 h
perform-Changes scan_id remove table table1 h =
    subst (Changes scan_id table) (ok-injective h) (delete_scan-Changes scan_id table)
perform-Changes scan_id (take_results m) table table1 h = take-Changes scan_id m table table1 h
perform-Changes scan_id (change_status now status) table table1 h =
    Changes-write_if true scan_id
      (λ info. record info {
        status = status;
        end_time = if stamps_end status then now else info.end_time;
      })
      table table1 (λ info _. (refl, λ p. p)) h

-- Every operation keeps each scan under its own id and each progress between 0 and 100.
pub perform-WellFormed :
    (scan_id : Text) (op : Operation) (table table1 : Table)
    → perform scan_id op table ≡ ok table1
    → AllEntries WellFormed table
    → AllEntries WellFormed table1
perform-WellFormed scan_id op table table1 h = (perform-Changes scan_id op table table1 h).1

-- What changes the store: creating a scan, starting it, and the operations above.
pub data Call : Type 0 where
  create : Bool → Text → ℕ → Text → Dict (Dict Text) → StoredInfo → Call
  start : ℕ → Text → Call
  operate : Text → Operation → Call

-- An operation that raises leaves the table as it was: no write comes before an exception.
abbrev table_or : Table → Result Table → Table
table_or table (ok table1) = table1
table_or table (raise e) = table

module _ (pickler : Pickler) where
  abbrev pub run_call : Call → Store → Store
  run_call (create writable uuid now scan_id credentials info) store =
      (create_scan pickler writable uuid now scan_id credentials info store).1
  run_call (start now scan_id) store = (unpickle_scan_info pickler now scan_id store).1
  run_call (operate scan_id op) store = record store {
    table = table_or store.table (perform scan_id op store.table);
  }

  abbrev pub run_calls : List Call → Store → Store
  run_calls [] store = store
  run_calls (call ∷ calls) store = run_calls calls (run_call call store)

  table_or-WellFormed :
      (scan_id : Text) (op : Operation) (table : Table) (result : Result Table)
      → perform scan_id op table ≡ result
      → AllEntries WellFormed table
      → AllEntries WellFormed (table_or table result)
  table_or-WellFormed scan_id op table (ok table1) h hs =
      perform-WellFormed scan_id op table table1 h hs
  table_or-WellFormed scan_id op table (raise e) h hs = hs

  create_scan-WellFormed :
      (writable : Bool) (uuid : Text) (now : ℕ) (scan_id : Text) (credentials : Dict (Dict Text))
      (info : StoredInfo) (store : Store)
      → AllEntries WellFormed store.table
      → AllEntries WellFormed
          (create_scan pickler writable uuid now scan_id credentials info store).1.table
  unfolding create_scan store_data
  create_scan-WellFormed true uuid now scan_id credentials info store hs =
      AllEntries-put WellFormed (id_or uuid scan_id) _ store.table (refl, tt) hs
  create_scan-WellFormed false uuid now scan_id credentials info store hs = hs

  unpickle_loaded-WellFormed :
      (loaded : Option StoredInfo) (now : ℕ) (scan_id : Text) (info : ScanInfo) (store : Store)
      → WellFormed scan_id info
      → AllEntries WellFormed store.table
      → AllEntries WellFormed (unpickle_loaded pickler loaded now scan_id info store).1.table
  unpickle_loaded-WellFormed none now scan_id info store h hs =
      AllEntries-put WellFormed scan_id _ store.table h hs
  unpickle_loaded-WellFormed (some stored) now scan_id info store (i, p) hs =
      AllEntries-put WellFormed scan_id _ store.table (i, omega arith) hs

  unpickle_result-WellFormed :
      (loaded : Result (Option StoredInfo)) (now : ℕ) (scan_id : Text) (info : ScanInfo)
      (store : Store)
      → WellFormed scan_id info
      → AllEntries WellFormed store.table
      → AllEntries WellFormed (unpickle_result pickler loaded now scan_id info store).1.table
  unpickle_result-WellFormed (raise e) now scan_id info store h hs =
      AllEntries-put WellFormed scan_id _ store.table h hs
  unpickle_result-WellFormed (ok loaded) now scan_id info store h hs =
      unpickle_loaded-WellFormed loaded now scan_id info store h hs

  unpickle_with-WellFormed :
      (hash : Option (Option Text)) (now : ℕ) (scan_id : Text) (info : ScanInfo) (store : Store)
      → WellFormed scan_id info
      → AllEntries WellFormed store.table
      → AllEntries WellFormed (unpickle_with pickler hash now scan_id info store).1.table
  unpickle_with-WellFormed none now scan_id info store h hs = hs
  unpickle_with-WellFormed (some hash) now scan_id info store h hs =
      unpickle_result-WellFormed (load_data pickler scan_id hash store.files) now scan_id info store
        h hs

  unpickle_found-WellFormed :
      (found : Option ScanInfo) (now : ℕ) (scan_id : Text) (store : Store)
      → get scan_id store.table ≡ found
      → AllEntries WellFormed store.table
      → AllEntries WellFormed (unpickle_found pickler found now scan_id store).1.table
  unpickle_found-WellFormed none now scan_id store h hs = hs
  unpickle_found-WellFormed (some info) now scan_id store h hs =
      unpickle_with-WellFormed info.scan_info_hash now scan_id info store
        (AllEntries-get WellFormed scan_id info store.table hs h) hs

  run_call-WellFormed :
      (call : Call) (store : Store)
      → AllEntries WellFormed store.table
      → AllEntries WellFormed (run_call call store).table
  unfolding unpickle_scan_info
  run_call-WellFormed (create writable uuid now scan_id credentials info) store hs =
      create_scan-WellFormed writable uuid now scan_id credentials info store hs
  run_call-WellFormed (start now scan_id) store hs =
      unpickle_found-WellFormed (get scan_id store.table) now scan_id store refl hs
  run_call-WellFormed (operate scan_id op) store hs =
      table_or-WellFormed scan_id op store.table (perform scan_id op store.table) refl hs

  run_calls-WellFormed :
      (calls : List Call) (store : Store)
      → AllEntries WellFormed store.table
      → AllEntries WellFormed (run_calls calls store).table
  run_calls-WellFormed [] store hs = hs
  run_calls-WellFormed (call ∷ calls) store hs =
      run_calls-WellFormed calls (run_call call store) (run_call-WellFormed call store hs)

  progress_or_init-IsPercentage :
      (progress : Option ℤ) → HasPercentage progress → IsPercentage (progress_or_init progress)
  progress_or_init-IsPercentage none h = omega arith
  progress_or_init-IsPercentage (some progress) h = h

  -- Whatever calls create, start and change scans, failed ones included, from an empty table on:
  -- a scan that is found in the table stands under its own id, and the progress reported for it
  -- lies between 0 and 100.
  pub run_calls-progress :
      (calls : List Call) (files : Files) (scan_id : Text) (info : ScanInfo)
      → get scan_id (run_calls calls (record { files = files; table = [] })).table ≡ some info
      → (info.scan_id ≡ scan_id)
        × ((progress : ℤ) × IsPercentage progress
            × (get_progress scan_id (run_calls calls (record { files = files; table = [] })).table
                ≡ ok progress))
  run_calls-progress calls files scan_id info found =
      let (same, within) =
        AllEntries-get WellFormed scan_id info _
          (run_calls-WellFormed calls (record { files = files; table = [] }) tt) found in
      (
        same,
        (
          progress_or_init info.progress,
          progress_or_init-IsPercentage info.progress within,
          unfold get_progress in ground (arith, found),
        ),
      )
