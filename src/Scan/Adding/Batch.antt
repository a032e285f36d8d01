-- ===== src/Scan/Adding/Batch.antt =====
-- Results that are collected in a list (ospd/resultlist.py) and added at once, and results that are
-- added one by one (ospd/ospd.py).
use ospd_openvas.Py.Dict.Laws.{put-put, get-put}
use ospd_openvas.Prelude.{
  append-nil, sym, ◌∙◌, append_assoc, ap, All, true, false, refl, ◌&&◌, [], ◌++◌, arith, ◌∷◌, some,
  not, ◌≡◌, Bool, List,
}
use ospd_openvas.Scan.Collection.{add_result_list, add_result}
use ospd_openvas.Scan.Adding.{
  add_scan_host_detail_to_list, add_scan_host_detail, add_scan_error_to_list, add_scan_log_to_list,
  add_scan_error, add_scan_log, add_scan_alarm_to_list, result_of, add_scan_alarm,
}
use ospd_openvas.Py.Result.{◌>>=◌, ok, Result}
use ospd_openvas.Py.Text.{codes, Text}
use ospd_openvas.Network.Ports.{is_empty}
use ospd_openvas.Scan.{Table, ScanInfo, ScanResult}
use ospd_openvas.Py.Dict.{put, get}

-- What a result is made of, by its kind: host, hostname, name, value and the rest.
pub data Finding : Type 0 where
  alarm : (host hostname name value port test_id severity qod uri : Text) → Finding
  log : (host hostname name value port test_id qod uri : Text) → Finding
  error : (host hostname name value port test_id uri : Text) → Finding
  host_detail : (host hostname name value uri : Text) → Finding

abbrev pub collect : Finding → List ScanResult → List ScanResult
collect (alarm host hostname name value port test_id severity qod uri) =
    add_scan_alarm_to_list host hostname name value port test_id severity qod uri
collect (log host hostname name value port test_id qod uri) =
    add_scan_log_to_list host hostname name value port test_id qod uri
collect (error host hostname name value port test_id uri) =
    add_scan_error_to_list host hostname name value port test_id uri
collect (host_detail host hostname name value uri) =
    add_scan_host_detail_to_list host hostname name value uri

abbrev pub collect_all : List Finding → List ScanResult → List ScanResult
collect_all [] result_list = result_list
collect_all (finding ∷ findings) result_list = collect_all findings (collect finding result_list)

abbrev pub add_finding : Text → Finding → Table → Result Table
add_finding scan_id (alarm host hostname name value port test_id severity qod uri) =
    add_scan_alarm scan_id host hostname name value port test_id severity qod uri
add_finding scan_id (log host hostname name value port test_id qod uri) =
    add_scan_log scan_id host hostname name value port test_id qod uri
add_finding scan_id (error host hostname name value port test_id uri) =
    add_scan_error scan_id host hostname name value port test_id uri
add_finding scan_id (host_detail host hostname name value uri) =
    add_scan_host_detail scan_id host hostname name value uri

abbrev pub add_findings : Text → List Finding → Table → Result Table
add_findings scan_id [] table = ok table
add_findings scan_id (finding ∷ findings) table =
    add_finding scan_id finding table >>= add_findings scan_id findings

-- Neither the name nor the value may be left out together.
abbrev pub is_named : Finding → Bool
is_named (alarm host hostname name value port test_id severity qod uri) =
    not (is_empty name && is_empty value)
is_named (log host hostname name value port test_id qod uri) = not (is_empty name && is_empty value)
is_named (error host hostname name value port test_id uri) = not (is_empty name && is_empty value)
is_named (host_detail host hostname name value uri) = not (is_empty name && is_empty value)

put-get : (key : Text) (info : ScanInfo) (d : Table) → get key d ≡ some info → put key info d ≡ d
unfolding get put
put-get key info [] h = cc
put-get key info ((k, a) ∷ d) h = ground (arith, put-get key info d, h)

abbrev with_results : ScanInfo → List ScanResult → ScanInfo
with_results info results = record info { results = some results }

collect-append :
    (finding : Finding) (xs ys : List ScanResult)
    → collect finding (xs ++ ys) ≡ xs ++ collect finding ys
collect-append (alarm host hostname name value port test_id severity qod uri) xs ys =
    append_assoc xs ys _
collect-append (log host hostname name value port test_id qod uri) xs ys = append_assoc xs ys _
collect-append (error host hostname name value port test_id uri) xs ys = append_assoc xs ys _
collect-append (host_detail host hostname name value uri) xs ys = append_assoc xs ys _

collect_all-append :
    (findings : List Finding) (xs ys : List ScanResult)
    → collect_all findings (xs ++ ys) ≡ xs ++ collect_all findings ys
collect_all-append [] xs ys = refl
collect_all-append (finding ∷ findings) xs ys =
    ap (collect_all findings) (collect-append finding xs ys)
    ∙ collect_all-append findings xs (collect finding ys)

add_result_step :
    (scan_id : Text) (result : ScanResult) (table : Table) (info : ScanInfo)
    (results : List ScanResult)
    → is_empty scan_id ≡ false
    → not (is_empty result.name && is_empty result.value) ≡ true
    → get scan_id table ≡ some info
    → info.results ≡ some results
    → add_result scan_id result table
      ≡ ok (put scan_id (with_results info (results ++ (result ∷ []))) table)
unfolding add_result
add_result_step scan_id result table info results h n found e = ground (arith, h, n, found, e)

add_finding_step :
    (scan_id : Text) (finding : Finding) (table : Table) (info : ScanInfo)
    (results : List ScanResult)
    → is_empty scan_id ≡ false
    → is_named finding ≡ true
    → get scan_id table ≡ some info
    → info.results ≡ some results
    → add_finding scan_id finding table
      ≡ ok (put scan_id (with_results info (collect finding results)) table)
unfolding add_scan_alarm add_scan_log add_scan_error add_scan_host_detail
add_finding_step scan_id (alarm host hostname name value port test_id severity qod uri) table info
      results =
    add_result_step scan_id (result_of 0 host hostname name value port test_id severity qod uri)
      table info results
add_finding_step scan_id (log host hostname name value port test_id qod uri) table info results =
    add_result_step scan_id
      (result_of 1 host hostname name value port test_id (codes "0.0") qod uri) table info results
add_finding_step scan_id (error host hostname name value port test_id uri) table info results =
    add_result_step scan_id (result_of 2 host hostname name value port test_id uri [] []) table info
      results
add_finding_step scan_id (host_detail host hostname name value uri) table info results =
    add_result_step scan_id (result_of 3 host hostname name value uri [] [] [] []) table info
      results

add_findings-collected :
    (scan_id : Text) (findings : List Finding) (table : Table) (info : ScanInfo)
    (results : List ScanResult)
    → is_empty scan_id ≡ false
    → All (λ finding. is_named finding ≡ true) findings
    → get scan_id table ≡ some info
    → info.results ≡ some results
    → add_findings scan_id findings table
      ≡ ok (put scan_id (with_results info (collect_all findings results)) table)
add_findings-collected scan_id [] table info results h n found e = ap ok (
    sym (
      ap (λ o. put scan_id (record info { results = o }) table) (sym e)
      ∙ put-get scan_id info table found))
add_findings-collected scan_id (finding ∷ findings) table info results h (n, ns) found e =
    let next = with_results info (collect finding results) in
    let table1 = put scan_id next table in
    ap (λ call. call >>= add_findings scan_id findings)
      (add_finding_step scan_id finding table info results h n found e)
    ∙ add_findings-collected scan_id findings table1 next (collect finding results) h ns
        (get-put scan_id next table) refl
    ∙ ap ok (put-put scan_id next _ table)

-- For a scan that has results, and findings that have a name or a value: adding them one by one has
-- the same effect as collecting them in a list and adding the list.
pub add_findings-add_result_list :
    (scan_id : Text) (findings : List Finding) (table : Table) (info : ScanInfo)
    (results : List ScanResult)
    → is_empty scan_id ≡ false
    → All (λ finding. is_named finding ≡ true) findings
    → get scan_id table ≡ some info
    → info.results ≡ some results
    → add_findings scan_id findings table ≡ add_result_list scan_id (collect_all findings []) table
unfolding add_result_list
add_findings-add_result_list scan_id findings table info results h n found e =
    let same : collect_all findings results ≡ results ++ collect_all findings [] =
      ap (collect_all findings) (sym (append-nil results))
      ∙ collect_all-append findings results [] in
    add_findings-collected scan_id findings table info results h n found e
    ∙ ap (λ l. ok (put scan_id (with_results info l) table)) same
    ∙ ground (arith, found, e)
