-- ===== src/Scan/Counts/Excluded.antt =====
-- `simplify_exclude_host_count` (ospd/scan.py) counts the excluded hosts that are targets and were
-- not finished before.
use ospd_openvas.Py.Dict.{put, get}
use ospd_openvas.Scan.{ScanInfo, Table, Target}
use ospd_openvas.Prelude.{
  none, ◌&&◌, Option, inr, ◌∙◌, ap, inl, refl, Bool-cases, sym, arith, not, length, ◌≡◌, some,
  if◌then◌else◌, List, [], ◌∷◌,
}
use ospd_openvas.Scan.Counts.{
  get_host_list, get_finished_hosts, get_exclude_hosts, simplify_exclude_host_count, remove_each,
  list_or_nothing, count_in,
}
use ospd_openvas.Py.TextList.{fromkeys-NoRepeat, text_eq_sym, remove, NoRepeat, has_text}
use ospd_openvas.Network.Targets.{list_or_empty, Sockets, target_str_to_list}
use ospd_openvas.Py.TextList.Select.{
  select_cong, absent_differs, select-select, select-NoRepeat, remove-select, select_all, select,
}
use ospd_openvas.Py.Text.{text_eq, Text}
use ospd_openvas.Py.Result.{ok}

remove_if_there :
    (s : Text) (xs : List Text)
    → NoRepeat xs
    → (if has_text s xs then remove s xs else xs) ≡ select (λ x. not (text_eq s x)) xs
remove_if_there s xs h = elim (Bool-cases (has_text s xs)) [
  | inl e ↦ rw (e, remove-select s xs h)
  | inr e ↦
      let all =
        select_all (λ x. not (text_eq s x)) xs (λ x p. ap not (absent_differs s x xs e p)) in
      rw (e, all)
]

remove_each-select :
    (finished exc_hosts : List Text)
    → NoRepeat exc_hosts
    → remove_each finished exc_hosts ≡ select (λ x. not (has_text x finished)) exc_hosts
unfolding has_text
remove_each-select [] exc_hosts h =
    sym (select_all (λ x. not (has_text x [])) exc_hosts (λ x _. refl))
remove_each-select (f ∷ finished) exc_hosts h =
    ap (remove_each finished) (remove_if_there f exc_hosts h)
    ∙ remove_each-select finished (select (λ x. not (text_eq f x)) exc_hosts)
        (select-NoRepeat (λ x. not (text_eq f x)) exc_hosts h)
    ∙ select-select (λ x. not (has_text x finished)) (λ x. not (text_eq f x)) exc_hosts
    ∙ select_cong _ (λ x. not (has_text x (f ∷ finished))) exc_hosts
        (λ x _. ground (arith, text_eq_sym f x))

count_in-select :
    (hosts exc_hosts : List Text)
    → count_in (some hosts) exc_hosts ≡ ok (length (select (λ x. has_text x hosts) exc_hosts))
count_in-select hosts [] = refl
count_in-select hosts (x ∷ exc_hosts) = ground (arith, count_in-select hosts exc_hosts)

list_or_empty-NoRepeat :
    (sockets : Sockets) (found : Option (List Text)) → NoRepeat (list_or_empty sockets found)
list_or_empty-NoRepeat sockets none = tt
list_or_empty-NoRepeat sockets (some hosts) = fromkeys-NoRepeat [] hosts tt

target_str_to_list-NoRepeat :
    (sockets : Sockets) (s : Text) → NoRepeat (list_or_nothing (target_str_to_list sockets s))
unfolding target_str_to_list
target_str_to_list-NoRepeat sockets [] = tt
target_str_to_list-NoRepeat sockets (c ∷ s) = list_or_empty-NoRepeat sockets _

module _ (sockets : Sockets) where
  -- The hosts of the text, and none where there is no list.
  abbrev pub hosts_named : Text → List Text
  hosts_named s = list_or_nothing (target_str_to_list sockets s)

  -- The excluded hosts that count: they are hosts of the target, and not among the finished ones.
  abbrev pub excluded_of : Target → List Text
  excluded_of target =
      select
        (λ host.
          not (has_text host (hosts_named target.finished_hosts))
          && has_text host (hosts_named target.hosts))
        (hosts_named target.exclude_hosts)

  excluded_count :
      (target : Target) (hosts : List Text)
      → target_str_to_list sockets target.hosts ≡ some hosts
      → count_in
          (target_str_to_list sockets target.hosts)
          (remove_each (hosts_named target.finished_hosts) (hosts_named target.exclude_hosts))
        ≡ ok (length (excluded_of target))
  excluded_count target hosts h =
      let exc = hosts_named target.exclude_hosts in
      let fin = hosts_named target.finished_hosts in
      let cut =
        remove_each-select fin exc (target_str_to_list-NoRepeat sockets target.exclude_hosts) in
      let named : hosts_named target.hosts ≡ hosts = ap list_or_nothing h in
      ap (λ r. count_in r (remove_each fin exc)) h
      ∙ ap (count_in (some hosts)) cut
      ∙ count_in-select hosts (select (λ x. not (has_text x fin)) exc)
      ∙ ap (λ l. ok (length l))
          (select-select (λ x. has_text x hosts) (λ x. not (has_text x fin)) exc
            ∙ ap (λ hs. select (λ x. not (has_text x fin) && has_text x hs) exc) (sym named))

  -- For a started scan whose hosts are a list, the count is the number of the excluded hosts that
  -- are hosts of the target and not finished, and it is kept in the table.
  pub simplify_exclude_host_count-excluded :
      (scan_id : Text) (table : Table) (info : ScanInfo) (target : Target) (hosts : List Text)
      → get scan_id table ≡ some info
      → info.target ≡ some target
      → target_str_to_list sockets target.hosts ≡ some hosts
      → simplify_exclude_host_count sockets scan_id table
        ≡ ok (
          length (excluded_of target),
          put scan_id
              (record info { excluded_simplified = some (some (length (excluded_of target))) })
              table,
        )
  unfolding simplify_exclude_host_count get_exclude_hosts get_finished_hosts get_host_list
  simplify_exclude_host_count-excluded scan_id table info target hosts h e k =
      ground (arith, h, e, excluded_count target hosts k)
