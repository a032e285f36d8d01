-- ===== src/Scan/Results.antt =====
-- What a client gets of the results of a scan, in ospd/scan.py: `add_result_list`,
-- `results_iterator` with `pop_res`, and `restore_temp_result_list`.
use ospd_openvas.Scan.Collection.{
  clean_temp_result_list, restore_temp_result_list, modify, results_iterator, add_result_list,
}
use ospd_openvas.Prelude.{
  ap, zero, refl, append_assoc, none, ◌∙◌, arith, append-nil, sym, drop, take, take-append-drop,
  suc, some, true, ◌≡◌, ℕ, List, Option, [], ◌∷◌, ◌++◌,
}
use ospd_openvas.Py.Dict.Laws.{get-put}
use ospd_openvas.Py.Result.{◌>>=◌, ok, Result}
use ospd_openvas.Py.Dict.{put, get}
use ospd_openvas.Scan.{ScanResult, ScanInfo, Table}
use ospd_openvas.Py.Text.{Text}

-- The scan is in the table, with these results and these ones set aside.
abbrev pub HasResults : Text → List ScanResult → Table → Type 0
HasResults scan_id results table =
    (info : ScanInfo) × (get scan_id table ≡ some info) × (info.results ≡ some results)

abbrev pub HasTemp : Text → List ScanResult → Table → Type 0
HasTemp scan_id temp table =
    (info : ScanInfo) × (get scan_id table ≡ some info) × (info.temp_results ≡ some temp)

-- What a call that pops takes and leaves.
abbrev pub batch : Option ℕ → List ScanResult → List ScanResult
batch (some (suc n)) results = take (suc n) results
batch _ results = results

abbrev pub left_over : Option ℕ → List ScanResult → List ScanResult
left_over (some (suc n)) results = drop (suc n) results
left_over _ results = []

batch-append-left_over :
    (m : Option ℕ) (results : List ScanResult) → batch m results ++ left_over m results ≡ results
batch-append-left_over (some (suc n)) results = take-append-drop (suc n) results
batch-append-left_over (some zero) results = append-nil results
batch-append-left_over none results = append-nil results

-- A write that changes a found scan.
pub modify-found :
    (scan_id : Text) (f : ScanInfo → Result ScanInfo) (table : Table) (info new : ScanInfo)
    → get scan_id table ≡ some info
    → f info ≡ ok new
    → modify scan_id f table ≡ ok (put scan_id new table)
modify-found scan_id f table info new h e = ground (arith, h, e)

pub add_result_list-HasResults :
    (scan_id : Text) (new results : List ScanResult) (table : Table)
    → HasResults scan_id results table
    → (table1 : Table) × (add_result_list scan_id new table ≡ ok table1)
      × HasResults scan_id (results ++ new) table1
unfolding add_result_list
add_result_list-HasResults scan_id new results table (info, h, e) =
    let info1 : ScanInfo = record info { results = some (results ++ new) } in
    (put scan_id info1 table, ground (arith, h, e), (info1, get-put scan_id info1 table, refl))

pub results_iterator-HasResults :
    (scan_id : Text) (m : Option ℕ) (results : List ScanResult) (table : Table)
    → HasResults scan_id results table
    → (table1 : Table) × (results_iterator scan_id true m table ≡ ok (batch m results, table1))
      × HasResults scan_id (left_over m results) table1
      × HasTemp scan_id (batch m results) table1
unfolding results_iterator
results_iterator-HasResults scan_id (some (suc n)) results table (info, h, e) =
    let info1 : ScanInfo = record info {
      results = some (drop (suc n) results);
      temp_results = some (take (suc n) results);
    } in
    (
      put scan_id info1 table,
      ground (arith, h, e),
      (info1, get-put scan_id info1 table, refl),
      (info1, get-put scan_id info1 table, refl),
    )
results_iterator-HasResults scan_id (some zero) results table (info, h, e) =
    let info1 : ScanInfo = record info { results = some []; temp_results = some results } in
    (
      put scan_id info1 table,
      ground (arith, h, e),
      (info1, get-put scan_id info1 table, refl),
      (info1, get-put scan_id info1 table, refl),
    )
results_iterator-HasResults scan_id none results table (info, h, e) =
    let info1 : ScanInfo = record info { results = some []; temp_results = some results } in
    (
      put scan_id info1 table,
      ground (arith, h, e),
      (info1, get-put scan_id info1 table, refl),
      (info1, get-put scan_id info1 table, refl),
    )

-- The calls that add results of a scan and the calls that pop them, in any order.
pub data Event : Type 0 where
  add : List ScanResult → Event
  pop : Option ℕ → Event

abbrev pub added : List Event → List ScanResult
added [] = []
added (add new ∷ events) = new ++ added events
added (pop m ∷ events) = added events

-- What the client gets from a sequence of calls.
abbrev pub fetched : Text → List Event → Table → Result (List ScanResult × Table)
fetched scan_id [] table = ok ([], table)
fetched scan_id (add new ∷ events) table = do
  table1 ← add_result_list scan_id new table
  fetched scan_id events table1
fetched scan_id (pop m ∷ events) table = do
  (got, table1) ← results_iterator scan_id true m table
  (more, table2) ← fetched scan_id events table1
  ok (got ++ more, table2)

-- However the calls that add and that pop results of a scan follow one another, none of them
-- raises, and what the client has got, followed by what is left, is what there was at first
-- followed by what was added: no result is lost, repeated or moved.
pub fetched-results :
    (scan_id : Text) (events : List Event) (results : List ScanResult) (table : Table)
    → HasResults scan_id results table
    → (got : List ScanResult) × (rest : List ScanResult) × (last : Table) × (fetched scan_id events
          table
        ≡ ok (got, last))
      × HasResults scan_id rest last
      × (got ++ rest ≡ results ++ added events)
fetched-results scan_id [] results table h = ([], results, table, refl, h, sym (append-nil results))
fetched-results scan_id (add new ∷ events) results table h =
    let (table1, e, h1) = add_result_list-HasResults scan_id new results table h in
    let (got, rest, last, run, h2, same) =
      fetched-results scan_id events (results ++ new) table1 h1 in
    (got, rest, last, rw (e, run), h2, same ∙ append_assoc results new (added events))
fetched-results scan_id (pop m ∷ events) results table h =
    let (table1, e, h1, _) = results_iterator-HasResults scan_id m results table h in
    let (got, rest, last, run, h2, same) =
      fetched-results scan_id events (left_over m results) table1 h1 in
    (
      batch m results ++ got,
      rest,
      last,
      rw (e, run),
      h2,
      append_assoc (batch m results) got rest
          ∙ ap (λ l. batch m results ++ l) same
          ∙ sym (append_assoc (batch m results) (left_over m results) (added events))
          ∙ ap (λ l. l ++ added events) (batch-append-left_over m results),
    )

same_info : {a b : ScanInfo} (found : Option ScanInfo) → found ≡ some a → found ≡ some b → a ≡ b
same_info found h k = cc

restore-Has :
    (scan_id : Text) (results temp : List ScanResult) (table : Table)
    → HasResults scan_id results table
    → HasTemp scan_id temp table
    → (table1 : Table) × (restore_temp_result_list scan_id table ≡ ok table1)
      × HasResults scan_id (results ++ temp) table1
      × HasTemp scan_id [] table1
unfolding restore_temp_result_list clean_temp_result_list
restore-Has scan_id results temp table (info, h, e) (other, k, f) =
    let same : info ≡ other = same_info (get scan_id table) h k in
    let e2 : info.temp_results ≡ some temp = ap (λ i. i.temp_results) same ∙ f in
    let info1 : ScanInfo = record info { results = some (results ++ temp) } in
    let info2 : ScanInfo = record info1 { temp_results = some [] } in
    (
      put scan_id info2 (put scan_id info1 table),
      ground (arith, h, e, e2, get-put scan_id info1 table),
      (info2, get-put scan_id info2 (put scan_id info1 table), refl),
      (info2, get-put scan_id info2 (put scan_id info1 table), refl),
    )

-- After a pop that could not be delivered, restoring gives the results that were left, followed by
-- those that were taken: none is lost or doubled, and nothing is left set aside.
pub restore_temp_result_list-results_iterator :
    (scan_id : Text) (m : Option ℕ) (results : List ScanResult) (table : Table)
    → HasResults scan_id results table
    → (table1 : Table) × (table2 : Table) × (results_iterator scan_id true m table
        ≡ ok (batch m results, table1))
      × (restore_temp_result_list scan_id table1 ≡ ok table2)
      × HasResults scan_id (left_over m results ++ batch m results) table2
      × HasTemp scan_id [] table2
restore_temp_result_list-results_iterator scan_id m results table h =
    let (table1, e, h1, k1) = results_iterator-HasResults scan_id m results table h in
    let (table2, e2, h2, k2) =
      restore-Has scan_id (left_over m results) (batch m results) table1 h1 k1 in
    (table1, table2, e, e2, h2, k2)
