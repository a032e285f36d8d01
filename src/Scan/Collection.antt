-- ===== src/Scan/Collection.antt =====
-- The operations of `ScanCollection` (ospd/scan.py) on the scan table. A missing scan is a
-- KeyError; a key that the scan does not have is one too, or None where the code calls `.get`, and
-- None has no `update` or sum. The clock is the argument `now`.
use ospd_openvas.Prelude.{
  drop, take, length, ◌+◌, suc, ◌||◌, true, ◌++◌, ◌&&◌, false, none, if◌then◌else◌, not, some, ◌∷◌,
  Bool, [], ℕ, Option, List,
}
use ospd_openvas.Py.Result.{
  assertion_error, raise, attribute_error, key_error, type_error, or_raise, ◌>>=◌, ok, Result,
}
use ospd_openvas.Prelude.Int.{◌+ℤ◌, pos, ltb_ℤ, ℤ}
use ospd_openvas.Scan.{is_running, stamps_end, ScanInfo, ScanStatus, ScanResult, Table}
use ospd_openvas.Network.Ports.{is_empty}
use ospd_openvas.Py.Dict.{put, get, erase, Dict}
use ospd_openvas.Py.Text.{Text}

-- `self.scans_table[scan_id][..] = ..`
abbrev pub modify : Text → (ScanInfo → Result ScanInfo) → Table → Result Table
modify scan_id f table = do
  info ← or_raise key_error (get scan_id table)
  new ← f info
  ok (put scan_id new table)

-- The caller gives the result: `assert scan_id` and `assert len(name) or len(value)` come first.
unfoldable pub add_result : Text → ScanResult → Table → Result Table
add_result scan_id result table =
    if is_empty scan_id || (is_empty result.name && is_empty result.value)
    then raise assertion_error
    else modify scan_id
        (λ info. do
          results ← or_raise key_error info.results
          ok (record info { results = some (results ++ (result ∷ [])) }))
        table

unfoldable pub add_result_list : Text → List ScanResult → Table → Result Table
add_result_list scan_id result_list table =
    modify scan_id
      (λ info. do
        results ← or_raise key_error info.results
        ok (record info { results = some (results ++ result_list) }))
      table

abbrev pub erase_all : List Text → Dict ℤ → Dict ℤ
erase_all [] target = target
erase_all (host ∷ hosts) target = erase_all hosts (erase host target)

unfoldable pub remove_hosts_from_target_progress : Text → List Text → Table → Result Table
remove_hosts_from_target_progress scan_id [] table = ok table
remove_hosts_from_target_progress scan_id (h ∷ hosts) table =
    modify scan_id
      (λ info. do
        target ← or_raise type_error info.target_progress
        ok (record info { target_progress = some (erase_all (h ∷ hosts) target) }))
      table

abbrev pub in_progress : ℤ → Bool
in_progress progress = ltb_ℤ (pos 0) progress && not (ltb_ℤ (pos 100) progress)

abbrev pub is_finished : ℤ → Bool
is_finished progress = not (ltb_ℤ progress (pos 100)) && not (ltb_ℤ (pos 100) progress)

-- `if test: ..` around a write.
abbrev pub write_if : Bool → Text → (ScanInfo → ScanInfo) → Table → Result Table
write_if false scan_id f table = ok table
write_if true scan_id f table = modify scan_id (λ info. ok (f info)) table

unfoldable pub set_progress : ℕ → Text → ℤ → Table → Result Table
set_progress now scan_id progress table = do
  table1 ←
      write_if (in_progress progress) scan_id (λ info. record info { progress = some progress })
        table
  write_if (is_finished progress) scan_id (λ info. record info { end_time = now }) table1

abbrev pub update : {A : Type 0} → Dict A → Dict A → Dict A
update [] target = target
update ((host, progress) ∷ batch) target = update batch (put host progress target)

unfoldable pub set_host_progress : Text → Dict ℤ → Table → Result Table
set_host_progress scan_id host_progress_batch table =
    modify scan_id
      (λ info. do
        target ← or_raise attribute_error info.target_progress
        ok (record info { target_progress = some (update host_progress_batch target) }))
      table

unfoldable pub set_host_finished : Text → List Text → Table → Result Table
set_host_finished scan_id hosts table =
    modify scan_id
      (λ info. do
        count ← or_raise type_error info.count_alive
        ok (record info { count_alive = some (count + length hosts) }))
      table

unfoldable pub set_amount_dead_hosts : Text → ℤ → Table → Result Table
set_amount_dead_hosts scan_id total_dead table =
    modify scan_id
      (λ info. do
        count ← or_raise type_error info.count_dead
        ok (record info { count_dead = some (count +ℤ total_dead) }))
      table

unfoldable pub set_host_dead : Text → List Text → Table → Result Table
set_host_dead scan_id hosts table =
    modify scan_id
      (λ info. do
        count ← or_raise type_error info.count_dead
        ok (record info { count_dead = some (count +ℤ pos (length hosts)) }))
      table

unfoldable pub clean_temp_result_list : Text → Table → Result Table
clean_temp_result_list scan_id table =
    modify scan_id (λ info. ok (record info { temp_results = some [] })) table

abbrev pub or_empty {ℓ} : {A : Type ℓ} → Option (List A) → List A
or_empty none = []
or_empty (some l) = l

abbrev pub with_temp_results : ScanInfo → ScanInfo
with_temp_results info = record info {
  results = some (or_empty info.results ++ or_empty info.temp_results);
}

unfoldable pub restore_temp_result_list : Text → Table → Result Table
restore_temp_result_list scan_id table = do
  table1 ← modify scan_id (λ info. ok (with_temp_results info)) table
  clean_temp_result_list scan_id table1

-- `pop_res` with a `max_res` that is not 0 or None, `pop_res` alone, or a copy.
unfoldable pub results_iterator : Text → Bool → Option ℕ → Table → Result (List ScanResult × Table)
results_iterator scan_id false max_res table = do
  info ← or_raise key_error (get scan_id table)
  results ← or_raise key_error info.results
  ok (results, table)
results_iterator scan_id true (some (suc n)) table = do
  info ← or_raise key_error (get scan_id table)
  let results = or_empty info.results
  ok (
    take (suc n) results,
    put scan_id
        (record info {
          results = some (drop (suc n) results);
          temp_results = some (take (suc n) results);
        })
        table,
  )
results_iterator scan_id true max_res table = do
  info ← or_raise key_error (get scan_id table)
  let results = or_empty info.results
  ok (results, put scan_id (record info { results = some []; temp_results = some results }) table)

unfoldable pub set_status : ℕ → Text → ScanStatus → Table → Result Table
set_status now scan_id status table =
    modify scan_id
      (λ info. ok (record info {
        status = status;
        end_time = if stamps_end status then now else info.end_time;
      }))
      table

-- `none` is the result None, of a scan that is not there.
unfoldable pub get_status : Text → Table → Option ScanStatus
get_status scan_id table = elim (get scan_id table) [ none ↦ none | some info ↦ some info.status ]

-- `.get('progress', ScanProgress.INIT)`
abbrev pub progress_or_init : Option ℤ → ℤ
progress_or_init none = pos 0
progress_or_init (some progress) = progress

unfoldable pub get_progress : Text → Table → Result ℤ
get_progress scan_id table = do
  info ← or_raise key_error (get scan_id table)
  ok (progress_or_init info.progress)

unfoldable pub id_exists : Text → Table → Bool
id_exists scan_id table = elim (get scan_id table) [ none ↦ false | some _ ↦ true ]

-- `delete_scan`, once the scan has been looked up and its status compared to RUNNING.
abbrev pub delete_unless : Bool → Text → Table → Bool × Table
delete_unless true scan_id table = (false, table)
delete_unless false scan_id table = (true, erase scan_id table)

abbrev pub delete_found : Option ScanInfo → Text → Table → Bool × Table
delete_found none scan_id table = (false, table)
delete_found (some info) scan_id table = delete_unless (is_running info.status) scan_id table

-- The result False, or True and the new table.
unfoldable pub delete_scan : Text → Table → Bool × Table
delete_scan scan_id table = delete_found (get scan_id table) scan_id table

-- The ports are taken out of the target.
unfoldable pub get_ports : Text → Table → Result (Text × Table)
get_ports scan_id table = do
  info ← or_raise key_error (get scan_id table)
  target ← or_raise attribute_error info.target
  ports ← or_raise key_error target.ports
  ok (ports, put scan_id (record info { target = some (record target { ports = none }) }) table)
