-- ===== src/Scan/Invariant/Writes.antt =====
-- Each operation of `ScanCollection` on one scan changes that scan only, and keeps its id and the
-- bounds of its progress.
use ospd_openvas.Py.Result.{
  assertion_error, type_error, or_raise-eq-ok, ok-injective, ◌>>=◌, or_raise, >>=-eq-ok, key_error,
  raise, ok, Result, Exception,
}
use ospd_openvas.Py.Dict.Laws.{
  AllEntries-put, AllEntries-erase, AllEntries-get, get-erase_other, get-put_other,
}
use ospd_openvas.Prelude.{
  ◌&&◌, ◌||◌, zero, ap, suc, arith, none, false, ◌++◌, sym, subst, refl, ◌∙◌, true, some,
  if◌then◌else◌, List, ◌≡◌, ℕ, Option, Bool, [], ◌∷◌,
}
use ospd_openvas.Scan.Invariant.{WellFormed, IsPercentage, HasPercentage, Changes}
use ospd_openvas.Prelude.Int.{negsuc, pos, ℤ}
use ospd_openvas.Scan.Collection.{
  erase_all, with_temp_results, or_empty, is_finished, write_if, delete_found, delete_unless,
  modify, in_progress, results_iterator, restore_temp_result_list,
  remove_hosts_from_target_progress, delete_scan, add_result, clean_temp_result_list, set_progress,
}
use ospd_openvas.Network.Ports.{is_empty}
use ospd_openvas.Scan.Results.{batch, left_over}
use ospd_openvas.Scan.{is_running, Table, ScanResult, ScanInfo}
use ospd_openvas.Py.Dict.{put, get}
use ospd_openvas.Py.Text.{Text}

-- A write keeps the id, and a progress within its bounds.
abbrev Keeps : ScanInfo → ScanInfo → Type 0
Keeps info new =
    (new.scan_id ≡ info.scan_id) × (HasPercentage info.progress → HasPercentage new.progress)

pub Changes-put :
    (scan_id : Text) (info new : ScanInfo) (table : Table)
    → get scan_id table ≡ some info
    → Keeps info new
    → Changes scan_id table (put scan_id new table)
Changes-put scan_id info new table h (same, within) = (
  (λ other n. get-put_other scan_id other new table n),
  λ hs.
      let (i, p) = AllEntries-get WellFormed scan_id info table hs h in
      AllEntries-put WellFormed scan_id new table (same ∙ i, within p) hs,
)

Changes-modify :
    (scan_id : Text) (f : ScanInfo → Result ScanInfo) (table table1 : Table)
    → ((info new : ScanInfo) → f info ≡ ok new → Keeps info new)
    → modify scan_id f table ≡ ok table1
    → Changes scan_id table table1
Changes-modify scan_id f table table1 keeps h =
    let (info, found, h1) = >>=-eq-ok (or_raise key_error (get scan_id table)) _ h in
    let (new, run, h2) = >>=-eq-ok (f info) _ h1 in
    subst (Changes scan_id table) (ok-injective h2) (
      Changes-put scan_id info new table (or_raise-eq-ok key_error (get scan_id table) found)
        (keeps info new run))

pub Changes-same : (scan_id : Text) (table : Table) → Changes scan_id table table
Changes-same scan_id table = (λ other n. refl, λ hs. hs)

Changes-trans :
    (scan_id : Text) (a b c : Table)
    → Changes scan_id a b
    → Changes scan_id b c
    → Changes scan_id a c
Changes-trans scan_id a b c (f, p) (g, q) = (λ other n. g other n ∙ f other n, λ hs. q (p hs))

pub Changes-write_if :
    (test : Bool) (scan_id : Text) (f : ScanInfo → ScanInfo) (table table1 : Table)
    → ((info : ScanInfo) → test ≡ true → Keeps info (f info))
    → write_if test scan_id f table ≡ ok table1
    → Changes scan_id table table1
Changes-write_if false scan_id f table table1 keeps h =
    subst (Changes scan_id table) (ok-injective h) (Changes-same scan_id table)
Changes-write_if true scan_id f table table1 keeps h =
    Changes-modify scan_id (λ info. ok (f info)) table table1
      (λ info new e. subst (Keeps info) (ok-injective e) (keeps info refl)) h

within_bounds : (progress : ℤ) → in_progress progress ≡ true → IsPercentage progress
within_bounds (pos n) h = ground arith
within_bounds (negsuc n) h = ground arith

-- A write of a field that is read first.
pub Changes-read :
    {A : Type 0} (e : Exception) (field : ScanInfo → Option A) (build : ScanInfo → A → ScanInfo)
    (scan_id : Text) (table table1 : Table)
    → ((info : ScanInfo) (a : A) → Keeps info (build info a))
    → modify scan_id (λ info. or_raise e (field info) >>= λ a. ok (build info a)) table ≡ ok table1
    → Changes scan_id table table1
Changes-read e field build scan_id table table1 keeps h =
    Changes-modify scan_id (λ info. or_raise e (field info) >>= λ a. ok (build info a)) table table1
      (λ info new k.
        let (a, _, same) = >>=-eq-ok (or_raise e (field info)) (λ a. ok (build info a)) k in
        subst (Keeps info) (ok-injective same) (keeps info a))
      h

passed :
    (test : Bool) (e : Exception) (rest : Result Table) {table : Table}
    → (if test then raise e else rest) ≡ ok table
    → rest ≡ ok table
passed true e rest h = cc
passed false e rest h = h

pub add_result-Changes :
    (scan_id : Text) (result : ScanResult) (table table1 : Table)
    → add_result scan_id result table ≡ ok table1
    → Changes scan_id table table1
unfolding add_result
add_result-Changes scan_id result table table1 h =
    Changes-read key_error (λ info. info.results)
      (λ info a. record info { results = some (a ++ (result ∷ [])) }) scan_id table table1
      (λ info a. (refl, λ p. p))
      (passed (is_empty scan_id || (is_empty result.name && is_empty result.value)) assertion_error
        _ h)

pub forget-Changes :
    (scan_id : Text) (hosts : List Text) (table table1 : Table)
    → remove_hosts_from_target_progress scan_id hosts table ≡ ok table1
    → Changes scan_id table table1
unfolding remove_hosts_from_target_progress
forget-Changes scan_id [] table table1 h =
    subst (Changes scan_id table) (ok-injective h) (Changes-same scan_id table)
forget-Changes scan_id (host ∷ hosts) table table1 h =
    Changes-read type_error (λ info. info.target_progress)
      (λ info a. record info { target_progress = some (erase_all (host ∷ hosts) a) }) scan_id table
      table1 (λ info a. (refl, λ p. p)) h

pub set_progress-Changes :
    (now : ℕ) (scan_id : Text) (progress : ℤ) (table table1 : Table)
    → set_progress now scan_id progress table ≡ ok table1
    → Changes scan_id table table1
unfolding set_progress
set_progress-Changes now scan_id progress table table1 h =
    let (middle, h1, h2) = >>=-eq-ok (write_if (in_progress progress) scan_id _ table) _ h in
    Changes-trans scan_id table middle table1
      (Changes-write_if (in_progress progress) scan_id _ table middle
        (λ info e. (refl, λ _. within_bounds progress e)) h1)
      (Changes-write_if (is_finished progress) scan_id _ middle table1 (λ info e. (refl, λ p. p))
        h2)

pub clean-Changes :
    (scan_id : Text) (table table1 : Table)
    → clean_temp_result_list scan_id table ≡ ok table1
    → Changes scan_id table table1
unfolding clean_temp_result_list
clean-Changes scan_id table table1 h =
    Changes-write_if true scan_id (λ info. record info { temp_results = some [] }) table table1
      (λ info _. (refl, λ p. p)) h

pub restore-Changes :
    (scan_id : Text) (table table1 : Table)
    → restore_temp_result_list scan_id table ≡ ok table1
    → Changes scan_id table table1
unfolding restore_temp_result_list
restore-Changes scan_id table table1 h =
    let (middle, h1, h2) =
      >>=-eq-ok (modify scan_id (λ info. ok (with_temp_results info)) table)
        (clean_temp_result_list scan_id) h in
    Changes-trans scan_id table middle table1
      (Changes-write_if true scan_id with_temp_results table middle (λ info _. (refl, λ p. p)) h1)
      (clean-Changes scan_id middle table1 h2)

delete_unless-Changes :
    (running : Bool) (scan_id : Text) (table : Table)
    → Changes scan_id table (delete_unless running scan_id table).1
delete_unless-Changes true scan_id table = Changes-same scan_id table
delete_unless-Changes false scan_id table =
    ((λ other n. get-erase_other scan_id other table n), AllEntries-erase WellFormed scan_id table)

delete_found-Changes :
    (found : Option ScanInfo) (scan_id : Text) (table : Table)
    → Changes scan_id table (delete_found found scan_id table).1
delete_found-Changes none scan_id table = Changes-same scan_id table
delete_found-Changes (some info) scan_id table =
    delete_unless-Changes (is_running info.status) scan_id table

pub delete_scan-Changes :
    (scan_id : Text) (table : Table) → Changes scan_id table (delete_scan scan_id table).1
unfolding delete_scan
delete_scan-Changes scan_id table = delete_found-Changes (get scan_id table) scan_id table

-- What a pop makes of the scan.
abbrev taken : Option ℕ → ScanInfo → ScanInfo
taken m info = record info {
  results = some (left_over m (or_empty info.results));
  temp_results = some (batch m (or_empty info.results));
}

results_iterator_step :
    (scan_id : Text) (m : Option ℕ) (table : Table)
    → results_iterator scan_id true m table ≡ (
        or_raise key_error (get scan_id table) >>= λ info.
        ok (batch m (or_empty info.results), put scan_id (taken m info) table))
unfolding results_iterator
results_iterator_step scan_id (some (suc n)) table = refl
results_iterator_step scan_id (some zero) table = refl
results_iterator_step scan_id none table = refl

pub take-Changes :
    (scan_id : Text) (m : Option ℕ) (table table1 : Table)
    → (results_iterator scan_id true m table >>= λ (_, t). ok t) ≡ ok table1
    → Changes scan_id table table1
take-Changes scan_id m table table1 h =
    let ((got, table2), h1, h2) = >>=-eq-ok (results_iterator scan_id true m table) _ h in
    let (info, h3, h4) =
      >>=-eq-ok (or_raise key_error (get scan_id table)) _
        (sym (results_iterator_step scan_id m table) ∙ h1) in
    subst (Changes scan_id table) (ap (λ r. r.1) (ok-injective h4) ∙ ok-injective h2) (
      Changes-put scan_id info (taken m info) table
        (or_raise-eq-ok key_error (get scan_id table) h3) (refl, λ p. p))
