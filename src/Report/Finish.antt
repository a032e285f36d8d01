-- ===== src/Report/Finish.antt =====
-- The end of `report_results` of ospd_openvas/daemon.py, behind its loop.
use ospd_openvas.Prelude.{
  true, [], refl, ◌∷◌, append-nil, sym, some, ◌∙◌, arith, ap, not, ◌++◌, false, Bool, List, ◌≡◌,
}
use ospd_openvas.Py.Dict.Laws.{get-put}
use ospd_openvas.Py.Result.{Ends->>=, Ends}
use ospd_openvas.Py.Dict.{put, get}
use ospd_openvas.Prelude.Int.{negsuc, int_laws, pos, ◌+ℤ◌, ℤ}
use ospd_openvas.Report.{finish_report, insert_list, count_dead_if, Reporting, is_nonzero}
use ospd_openvas.Kb.OpenvasDb.{no_items}
use ospd_openvas.Scan.{ScanInfo, Table, ScanResult}
use ospd_openvas.Py.Text.{Text}
use ospd_openvas.Scan.Collection.{add_result_list, set_amount_dead_hosts}

add_zero : (a : ℤ) → a ≡ a +ℤ pos 0
add_zero a = omega int_laws

zero_of_test : (n : ℤ) → is_nonzero n ≡ false → n ≡ pos 0
zero_of_test (pos n) e = ap pos (ground (arith, e))
zero_of_test (negsuc n) e = cc

-- The scan with its results and its count of dead hosts.
abbrev pub Holds : Text → List ScanResult → ℤ → Table → Type 0
Holds scan_id results dead table =
    (info : ScanInfo) × (get scan_id table ≡ some info)
    × (info.results ≡ some results)
    × (info.count_dead ≡ some dead)

insert_list-Ends :
    (scan_id : Text) (l results : List ScanResult) (dead : ℤ) (table : Table)
    → Holds scan_id results dead table
    → Ends (Holds scan_id (results ++ l) dead) (insert_list scan_id l table)
unfolding add_result_list
insert_list-Ends scan_id [] results dead table (info, found, same, same') =
    (table, refl, (info, found, same ∙ ap some (sym (append-nil results)), same'))
insert_list-Ends scan_id (x ∷ l) results dead table (info, found, same, same') =
    let new : ScanInfo = record info { results = some (results ++ (x ∷ l)) } in
    (
      put scan_id new table,
      ground (arith, found, same),
      (new, get-put scan_id new table, refl, same'),
    )

count_dead_if-Ends :
    (test : Bool) (scan_id : Text) (more : ℤ) (results : List ScanResult) (dead : ℤ) (table : Table)
    → is_nonzero more ≡ test
    → Holds scan_id results dead table
    → Ends (Holds scan_id results (dead +ℤ more)) (count_dead_if test scan_id more table)
unfolding set_amount_dead_hosts
count_dead_if-Ends false scan_id more results dead table e (info, found, same, same') =
    let none_more : dead ≡ dead +ℤ more =
      add_zero dead ∙ ap (λ z. dead +ℤ z) (sym (zero_of_test more e)) in
    (table, refl, (info, found, same, same' ∙ ap some none_more))
count_dead_if-Ends true scan_id more results dead table e (info, found, same, same') =
    let new : ScanInfo = record info { count_dead = some (dead +ℤ more) } in
    (
      put scan_id new table,
      ground (arith, found, same'),
      (new, get-put scan_id new table, same, refl),
    )

pub finish_report-Ends :
    (scan_id : Text) (r : Reporting) (results : List ScanResult) (dead : ℤ)
    → Holds scan_id results dead r.table
    → Ends
        (λ result.
          (result.0 ≡ not (no_items r.res_list))
          × Holds scan_id (results ++ r.res_list) (dead +ℤ r.total_dead) result.1)
        (finish_report scan_id r)
finish_report-Ends scan_id r results dead h =
    Ends->>= _ _ (insert_list-Ends scan_id r.res_list results dead r.table h) (λ table1 h1.
      Ends->>= _ _
        (count_dead_if-Ends (is_nonzero r.total_dead) scan_id r.total_dead (results ++ r.res_list)
          dead table1 refl h1)
        (λ table2 h2. ((not (no_items r.res_list), table2), refl, (refl, h2))))
