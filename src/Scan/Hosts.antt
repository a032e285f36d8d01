-- ===== src/Scan/Hosts.antt =====
-- `sort_host_finished` of ospd/ospd.py: the hosts that are done leave the progress table and are
-- counted as alive or dead.
use ospd_openvas.Prelude.{
  sym, inr, inl, ◌↔◌, true, Bool-cases, ◌≢◌, suc, ap, ◌∙◌, ◌+◌, ◌==◌, length, refl, false, arith,
  some, if◌then◌else◌, none, Option, Bool, All, ℕ, ◌≡◌, List, [], ◌∷◌,
}
use ospd_openvas.Py.Dict.Laws.{get-erase_other, get-put, get-erase}
use ospd_openvas.Py.Dict.{put, erase, get, Dict}
use ospd_openvas.Py.Result.{key_error, or_raise, ok, ◌>>=◌, Result}
use ospd_openvas.Prelude.Int.{negsuc, ◌+ℤ◌, pos, ℤ}
use ospd_openvas.Scan.{ScanInfo, Table}
use ospd_openvas.Scan.Collection.{
  erase_all, set_host_finished, is_finished, remove_hosts_from_target_progress, set_host_dead,
}
use ospd_openvas.Py.Text.{Text}

unfoldable pub get_current_target_progress : Text → Table → Result (Dict ℤ)
get_current_target_progress scan_id table = do
  info ← or_raise key_error (get scan_id table)
  or_raise key_error info.target_progress

abbrev is_dead : ℤ → Bool
is_dead (pos n) = false
is_dead (negsuc n) = n == 0

-- `progress == ..` on a progress that may be missing.
abbrev has_progress : (ℤ → Bool) → Option ℤ → Bool
has_progress p none = false
has_progress p (some progress) = p progress

-- The hosts whose progress satisfies the test, in order.
abbrev pub hosts_with : (ℤ → Bool) → Dict ℤ → List Text → List Text
hosts_with p current_hosts [] = []
hosts_with p current_hosts (host ∷ hosts) =
    let rest = hosts_with p current_hosts hosts in
    if has_progress p (get host current_hosts) then host ∷ rest else rest

abbrev pub alive_hosts : Dict ℤ → List Text → List Text
alive_hosts = hosts_with is_finished

abbrev pub dead_hosts : Dict ℤ → List Text → List Text
dead_hosts = hosts_with is_dead

unfoldable pub sort_host_finished : Text → List Text → Table → Result Table
sort_host_finished scan_id finished_hosts table = do
  current_hosts ← get_current_target_progress scan_id table
  table1 ← set_host_dead scan_id (dead_hosts current_hosts finished_hosts) table
  table2 ← set_host_finished scan_id (alive_hosts current_hosts finished_hosts) table1
  remove_hosts_from_target_progress scan_id finished_hosts table2

get-erase-none : (key other : Text) (d : Dict ℤ) → get key d ≡ none → get key (erase other d) ≡ none
unfolding get erase
get-erase-none key other [] h = refl
get-erase-none key other ((k, a) ∷ d) h = ground (arith, get-erase-none key other d)

get-erase_all :
    (key : Text) (hosts : List Text) (d : Dict ℤ)
    → get key d ≡ none
    → get key (erase_all hosts d) ≡ none
get-erase_all key [] d h = h
get-erase_all key (host ∷ hosts) d h =
    get-erase_all key hosts (erase host d) (get-erase-none key host d h)

-- No host of the list is left.
erase_all-none :
    (hosts : List Text) (d : Dict ℤ) → All (λ host. get host (erase_all hosts d) ≡ none) hosts
erase_all-none [] d = tt
erase_all-none (host ∷ hosts) d = (
  get-erase_all host hosts (erase host d) (get-erase host d),
  erase_all-none hosts (erase host d),
)

remove_hosts_step :
    (scan_id : Text) (hosts : List Text) (table : Table) (info : ScanInfo) (target : Dict ℤ)
    → get scan_id table ≡ some info
    → info.target_progress ≡ some target
    → (new : Table) × (remove_hosts_from_target_progress scan_id hosts table ≡ ok new)
      × (get scan_id new ≡ some (record info { target_progress = some (erase_all hosts target) }))
unfolding remove_hosts_from_target_progress
remove_hosts_step scan_id [] table info target h e =
    (table, refl, h ∙ ap (λ x. some (record info { target_progress = x })) e)
remove_hosts_step scan_id (host ∷ hosts) table info target h e =
    let new : ScanInfo = record info { target_progress = some (erase_all (host ∷ hosts) target) } in
    (put scan_id new table, ground (arith, h, e), get-put scan_id new table)

-- `Counted progress target hosts n`: of the hosts, `n` have exactly this progress in the table.
pub data Counted (progress : ℤ) (target : Dict ℤ) : List Text → ℕ → Type 0 where
  no_host : Counted progress target [] 0
  counts :
      {host : Text} {hosts : List Text} {n : ℕ}
      → get host target ≡ some progress
      → Counted progress target hosts n
      → Counted progress target (host ∷ hosts) (suc n)
  skips :
      {host : Text} {hosts : List Text} {n : ℕ}
      → get host target ≢ some progress
      → Counted progress target hosts n
      → Counted progress target (host ∷ hosts) n

true-ne-false : true ≢ false
true-ne-false e = cc

-- The test holds of this progress and of no other.
abbrev Tests : (ℤ → Bool) → ℤ → Type 0
Tests p progress = (found : Option ℤ) → (has_progress p found ≡ true) ↔ (found ≡ some progress)

is_finished-Tests : Tests is_finished (pos 100)
is_finished-Tests none = (λ e. cc, λ e. cc)
is_finished-Tests (some (pos n)) =
    (λ e. ap (λ n. some (pos n)) (ground arith), λ e. ap (has_progress is_finished) e)
is_finished-Tests (some (negsuc n)) = (λ e. ground arith, λ e. cc)

is_dead-Tests : Tests is_dead (negsuc 0)
is_dead-Tests none = (λ e. cc, λ e. cc)
is_dead-Tests (some (pos n)) = (λ e. cc, λ e. cc)
is_dead-Tests (some (negsuc n)) =
    (λ e. ap (λ n. some (negsuc n)) (ground arith), λ e. ap (has_progress is_dead) e)

Counted-hosts_with :
    (p : ℤ → Bool) (progress : ℤ) (target : Dict ℤ) (hosts : List Text)
    → Tests p progress
    → Counted progress target hosts (length (hosts_with p target hosts))
Counted-hosts_with p progress target [] tests = no_host
Counted-hosts_with p progress target (host ∷ hosts) tests =
    let rest = Counted-hosts_with p progress target hosts tests in
    let (found_of, test_of) = tests (get host target) in
    elim (Bool-cases (has_progress p (get host target))) [
      | inl e ↦ rw e (counts (found_of e) rest)
      | inr e ↦ rw e (skips (λ f. true-ne-false (sym (test_of f) ∙ e)) rest)
    ]

-- The other hosts keep their progress.
get-erase_all_other :
    (key : Text) (hosts : List Text) (d : Dict ℤ)
    → All (λ host. key ≢ host) hosts
    → get key (erase_all hosts d) ≡ get key d
get-erase_all_other key [] d hs = refl
get-erase_all_other key (host ∷ hosts) d (h, hs) =
    get-erase_all_other key hosts (erase host d) hs ∙ get-erase_other host key d h

-- The hosts have left the table, and the others have the progress they had.
abbrev pub IsLeft : List Text → Dict ℤ → Dict ℤ → Type 0
IsLeft hosts target left =
    All (λ host. get host left ≡ none) hosts
    × ((key : Text) → All (λ host. key ≢ host) hosts → get key left ≡ get key target)

-- For a scan that has a progress table and counts, `sort_host_finished` raises nothing: the count of
-- alive hosts grows by the number of the finished hosts with progress 100, that of dead hosts by the
-- number of those with progress -1, none of the finished hosts is left in the progress table, the
-- other hosts keep their progress, and nothing else of the scan changes.
pub sort_host_finished-counts :
    (scan_id : Text) (hosts : List Text) (table : Table) (info : ScanInfo) (target : Dict ℤ)
    (alive : ℕ) (dead : ℤ)
    → get scan_id table ≡ some info
    → info.target_progress ≡ some target
    → info.count_alive ≡ some alive
    → info.count_dead ≡ some dead
    → (new : Table) × (finished : ℕ) × (unreachable : ℕ) × (left : Dict ℤ) × (sort_host_finished
          scan_id hosts table
        ≡ ok new)
      × Counted (pos 100) target hosts finished
      × Counted (negsuc 0) target hosts unreachable
      × IsLeft hosts target left
      × (get scan_id new
          ≡ some (record info {
            count_alive = some (alive + finished);
            count_dead = some (dead +ℤ pos unreachable);
            target_progress = some left;
          }))
unfolding sort_host_finished get_current_target_progress set_host_dead set_host_finished
sort_host_finished-counts scan_id hosts table info target alive dead h e f g =
    let finished = length (alive_hosts target hosts) in
    let unreachable = length (dead_hosts target hosts) in
    let info1 : ScanInfo = record info { count_dead = some (dead +ℤ pos unreachable) } in
    let table1 : Table = put scan_id info1 table in
    let info2 : ScanInfo = record info1 { count_alive = some (alive + finished) } in
    let table2 : Table = put scan_id info2 table1 in
    let (new, run, found) =
      remove_hosts_step scan_id hosts table2 info2 target (get-put scan_id info2 table1) e in
    (
      new,
      finished,
      unreachable,
      erase_all hosts target,
      ground (arith, h, e, f, g, get-put scan_id info1 table, run),
      Counted-hosts_with is_finished (pos 100) target hosts is_finished-Tests,
      Counted-hosts_with is_dead (negsuc 0) target hosts is_dead-Tests,
      (erase_all-none hosts target, λ key hs. get-erase_all_other key hosts target hs),
      found,
    )
