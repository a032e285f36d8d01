-- ===== src/Scan/Counts.antt =====
-- The host counts and the progress of a scan, in ospd/scan.py. `sockets` is what the target list is
-- parsed with. The quotient of `calculate_target_progress` is a float in the source: it is exact, cut
-- to an integer, for numbers below 2 ^ 53.
pub mod Excluded
pub mod Bounds
use ospd_openvas.Prelude.{
  not, ◌||◌, ◌&&◌, zero, suc, ◌==◌, none, ◌*◌, length, ◌/◌, ◌+◌, some, if◌then◌else◌, List, Option,
  ℕ, [], ◌∷◌,
}
use ospd_openvas.Py.Result.{key_error, type_error, raise, or_raise, ok, ◌>>=◌, Result}
use ospd_openvas.Py.Number.{neg}
use ospd_openvas.Prelude.Int.{◌-ℤ◌, neg_part, negsuc, pos_part, pos, ◌+ℤ◌, ℤ}
use ospd_openvas.Scan.Hosts.{get_current_target_progress}
use ospd_openvas.Py.TextList.{remove, has_text}
use ospd_openvas.Network.Targets.{target_str_to_list, Sockets}
use ospd_openvas.Scan.Collection.{modify}
use ospd_openvas.Py.Dict.{get, Dict}
use ospd_openvas.Scan.{Table, ScanInfo}
use ospd_openvas.Py.Text.{Text}
use mathlib.Core.Option

abbrev pub of_info : {A : Type 0} → (ScanInfo → Option A) → Text → Table → Result A
of_info field scan_id table = do
  info ← or_raise key_error (get scan_id table)
  or_raise key_error (field info)

unfoldable pub get_count_dead : Text → Table → Result ℤ
get_count_dead = of_info (λ info. info.count_dead)

unfoldable pub get_count_alive : Text → Table → Result ℕ
get_count_alive = of_info (λ info. info.count_alive)

unfoldable pub get_count_excluded : Text → Table → Result ℤ
get_count_excluded = of_info (λ info. info.count_excluded)

unfoldable pub update_count_total : Text → ℤ → Table → Result Table
update_count_total scan_id count_total table =
    modify scan_id (λ info. ok (record info { count_total = some (some count_total) })) table

unfoldable pub update_count_excluded : Text → ℤ → Table → Result Table
update_count_excluded scan_id count_excluded table =
    modify scan_id (λ info. ok (record info { count_excluded = some count_excluded })) table

unfoldable pub get_exclude_hosts : Text → Table → Result Text
get_exclude_hosts = of_info (λ info. Option.map (λ target. target.exclude_hosts) info.target)

unfoldable pub get_finished_hosts : Text → Table → Result Text
get_finished_hosts = of_info (λ info. Option.map (λ target. target.finished_hosts) info.target)

-- A KeyError is logged, and the result is None.
unfoldable pub get_host_list : Text → Table → Option Text
get_host_list scan_id table = elim (get scan_id table) [
  | none ↦ none
  | some info ↦ Option.map (λ target. target.hosts) info.target
]

-- `a / b` cut to an integer, for a divisor that is not 0.
abbrev pub signed_quotient : ℕ → ℕ → ℕ → ℕ → ℤ
signed_quotient pos_a neg_a pos_b neg_b =
    let size = (pos_a + neg_a) / (pos_b + neg_b) in
    if ((neg_a == 0) && (neg_b == 0)) || (not (neg_a == 0) && not (neg_b == 0))
    then pos size
    else neg size

unfoldable pub int_quotient : ℤ → ℤ → Option ℤ
int_quotient a b =
    if pos_part b + neg_part b == 0
    then none
    else some (signed_quotient (pos_part a) (neg_part a) (pos_part b) (neg_part b))

abbrev pub sum_values : Dict ℤ → ℤ
sum_values [] = pos 0
sum_values ((_, progress) ∷ d) = progress +ℤ sum_values d

-- `for finished in finished_hosts_list: if finished in exc_hosts_list: exc_hosts_list.remove(finished)`
abbrev pub remove_each : List Text → List Text → List Text
remove_each [] exc_hosts = exc_hosts
remove_each (finished ∷ finished_hosts) exc_hosts =
    remove_each finished_hosts
      (if has_text finished exc_hosts then remove finished exc_hosts else exc_hosts)

-- `exc_host in host_list` on None is a TypeError.
abbrev pub count_in : Option (List Text) → List Text → Result ℕ
count_in host_list [] = ok 0
count_in none (exc_host ∷ exc_hosts) = raise type_error
count_in (some hosts) (exc_host ∷ exc_hosts) = do
  n ← count_in (some hosts) exc_hosts
  ok (if has_text exc_host hosts then suc n else n)

abbrev pub list_or_nothing : Option (List Text) → List Text
list_or_nothing none = []
list_or_nothing (some l) = l

-- A ZeroDivisionError gives 100: all hosts are dead or excluded.
abbrev pub progress_or_done : Option ℤ → ℤ
progress_or_done none = pos 100
progress_or_done (some t_prog) = t_prog

unfoldable pub target_progress_of : ℤ → ℕ → ℤ → Dict ℤ → ℕ → ℤ
target_progress_of total_hosts count_alive count_dead host_progresses finished_hosts =
    progress_or_done (
      int_quotient (sum_values host_progresses +ℤ pos (100 * count_alive))
        (total_hosts +ℤ pos finished_hosts -ℤ count_dead))

module _ (sockets : Sockets) where
  abbrev pub hosts_of : Option Text → Option (List Text)
  hosts_of none = none
  hosts_of (some s) = target_str_to_list sockets s

  unfoldable pub get_host_count : Text → Table → ℕ
  get_host_count scan_id table = length (list_or_nothing (hosts_of (get_host_list scan_id table)))

  unfoldable pub get_finished_hosts_count : Text → Table → Result ℕ
  get_finished_hosts_count scan_id table = do
    finished_hosts ← get_finished_hosts scan_id table
    ok (length (list_or_nothing (target_str_to_list sockets finished_hosts)))

  -- The value of the server, with 0 for -1, or the number of hosts of the target, which is kept.
  abbrev pub total_or_count : Option ℤ → Text → Table → Result (ℤ × Table)
  total_or_count none scan_id table = do
    let count = pos (get_host_count scan_id table)
    table1 ← update_count_total scan_id count table
    ok (count, table1)
  total_or_count (some (pos n)) scan_id table = ok (pos n, table)
  total_or_count (some (negsuc zero)) scan_id table = ok (pos 0, table)
  total_or_count (some (negsuc (suc n))) scan_id table = ok (negsuc (suc n), table)

  unfoldable pub get_count_total : Text → Table → Result (ℤ × Table)
  get_count_total scan_id table = do
    count_total ← of_info (λ info. info.count_total) scan_id table
    total_or_count count_total scan_id table

  unfoldable pub simplify_exclude_host_count : Text → Table → Result (ℕ × Table)
  simplify_exclude_host_count scan_id table = do
    exclude_hosts ← get_exclude_hosts scan_id table
    finished_hosts ← get_finished_hosts scan_id table
    let exc_hosts = list_or_nothing (target_str_to_list sockets exclude_hosts)
    let finished = list_or_nothing (target_str_to_list sockets finished_hosts)
    excluded ← count_in (hosts_of (get_host_list scan_id table)) (remove_each finished exc_hosts)
    new ←
        modify scan_id (λ info. ok (record info { excluded_simplified = some (some excluded) }))
          table
    ok (excluded, new)

  abbrev pub simplified_or_count : Option ℕ → Text → Table → Result (ℕ × Table)
  simplified_or_count (some excluded) scan_id table = ok (excluded, table)
  simplified_or_count none scan_id table = simplify_exclude_host_count scan_id table

  unfoldable pub get_simplified_exclude_host_count : Text → Table → Result (ℕ × Table)
  get_simplified_exclude_host_count scan_id table = do
    excluded_simplified ← of_info (λ info. info.excluded_simplified) scan_id table
    simplified_or_count excluded_simplified scan_id table

  unfoldable pub calculate_target_progress : Text → Table → Result (ℤ × Table)
  calculate_target_progress scan_id table = do
    (total_hosts, table1) ← get_count_total scan_id table
    count_alive ← get_count_alive scan_id table1
    count_dead ← get_count_dead scan_id table1
    host_progresses ← get_current_target_progress scan_id table1
    finished_hosts ← get_finished_hosts_count scan_id table1
    ok (
      target_progress_of total_hosts count_alive count_dead host_progresses finished_hosts,
      table1,
    )
