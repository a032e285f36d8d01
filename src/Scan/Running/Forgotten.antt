-- ===== src/Scan/Running/Forgotten.antt =====
-- `clean_forgotten_scans` of ospd/ospd.py: which scans are left in the table.
use ospd_openvas.Prelude.{
  ◌*◌, ◌+◌, ltb, not, ◌&&◌, ◌==◌, ◌∙◌, List, ap, ◌∷◌, [], refl, inr, arith, inl, Bool-cases, false,
  if◌then◌else◌, true, none, some, ◌≡◌, Option, Bool, ℕ,
}
use ospd_openvas.Scan.Running.{clean_forgotten_scans, forget_each, forget_if, is_forgotten}
use ospd_openvas.Py.Dict.Laws.{text_eq_refl, get-erase, get-erase_other}
use ospd_openvas.Py.Result.{ok}
use ospd_openvas.Py.Text.{text_eq_iff, text_eq, Text}
use ospd_openvas.Py.TextList.{NoRepeat, has_text}
use ospd_openvas.Py.Dict.{erase, keys, get}
use ospd_openvas.Scan.Collection.{get_status}
use ospd_openvas.Scan.{
  interrupted, finished, stopped, running, init, queued, is_running, Table, ScanInfo, is_ended,
  ScanStatus,
}
use ospd_openvas.Scan.Queue.{Daemon}
use ospd_openvas.Scan.Pickle.{Pickler}
use ospd_openvas.Scan.Queue
use ospd_openvas.Scan.Collection

-- A scan is taken away once it is forgotten.
abbrev kept_if : Bool → ScanInfo → Option ScanInfo
kept_if true info = none
kept_if false info = some info

-- The scan is over, and its end plus the limit is past.
abbrev pub is_old : ℕ → ℕ → ScanInfo → Bool
is_old now hours info =
    is_ended info.status && (not (info.end_time == 0) && ltb (info.end_time + hours * 3600) now)

abbrev pub kept : ℕ → ℕ → Option ScanInfo → Option ScanInfo
kept now hours none = none
kept now hours (some info) = kept_if (is_old now hours info) info

is_forgotten-is_old :
    (now hours : ℕ) (info : ScanInfo) → is_forgotten now hours info ≡ is_old now hours info
is_forgotten-is_old now hours info =
    ap (λ b. is_ended info.status && (not (info.end_time == 0) && b)) (ground arith)

is_ended-is_running : (status : ScanStatus) → is_ended status ≡ true → is_running status ≡ false
is_ended-is_running queued e = refl
is_ended-is_running init e = refl
is_ended-is_running running e = cc
is_ended-is_running stopped e = refl
is_ended-is_running finished e = refl
is_ended-is_running interrupted e = refl

has_text-keys-get :
    (key : Text) (d : Table)
    → has_text key (keys d) ≡ true
    → (info : ScanInfo) × (get key d ≡ some info)
unfolding has_text get
has_text-keys-get key [] h = cc
has_text-keys-get key ((k, info) ∷ d) h = elim (Bool-cases (text_eq key k)) [
  | inl e ↦ (info, ground (arith, e))
  | inr e ↦
      let (found, f) = has_text-keys-get key d (ground (arith, h, e)) in
      (found, ground (arith, e, f))
]

get-keys-none : (key : Text) (d : Table) → has_text key (keys d) ≡ false → get key d ≡ none
unfolding has_text get
get-keys-none key [] h = refl
get-keys-none key ((k, info) ∷ d) h = ground (arith, get-keys-none key d)

abbrev left_of : Bool → Text → Table → Table
left_of true scan_id table = erase scan_id table
left_of false scan_id table = table

left_of-get :
    (b : Bool) (scan_id : Text) (info : ScanInfo) (table : Table)
    → get scan_id table ≡ some info
    → get scan_id (left_of b scan_id table) ≡ kept_if b info
left_of-get true scan_id info table found = get-erase scan_id table
left_of-get false scan_id info table found = found

left_of-get_other :
    (b : Bool) (scan_id key : Text) (table : Table)
    → text_eq key scan_id ≡ false
    → get key (left_of b scan_id table) ≡ get key table
left_of-get_other true scan_id key table e =
    get-erase_other scan_id key table (λ same. ground (arith, e, (text_eq_iff key scan_id).1 same))
left_of-get_other false scan_id key table e = refl

-- A text of the list is not one that the list lacks.
differs_from :
    (s key : Text) (list : List Text)
    → has_text s list ≡ false
    → has_text key list ≡ true
    → text_eq key s ≡ false
differs_from s key list h k = elim (Bool-cases (text_eq key s)) [
  | inl e ↦
      let same = (text_eq_iff key s).0 e in
      absurd (ground (arith, h, k, ap (λ x. has_text x list) same))
  | inr e ↦ e
]

module _ (pickler : Pickler) (now hours : ℕ) where
  abbrev forget : Text → ScanInfo → Daemon → Daemon
  forget scan_id info daemon = forget_if pickler (is_forgotten now hours info) scan_id daemon

  delete_scan-table :
      (scan_id : Text) (info : ScanInfo) (daemon : Daemon)
      → get scan_id daemon.store.table ≡ some info
      → is_running info.status ≡ false
      → (Queue.delete_scan pickler scan_id daemon).1.store.table ≡ erase scan_id daemon.store.table
  unfolding Queue.delete_scan Collection.delete_scan get_status
  delete_scan-table scan_id info daemon found e = ground (arith, found, e)

  forget-table :
      (scan_id : Text) (info : ScanInfo) (daemon : Daemon)
      → get scan_id daemon.store.table ≡ some info
      → (forget scan_id info daemon).store.table
        ≡ left_of (is_forgotten now hours info) scan_id daemon.store.table
  forget-table scan_id info daemon found = elim (Bool-cases (is_forgotten now hours info)) [
    | inl e ↦
        let over : is_ended info.status ≡ true = ground (arith, e) in
        rw e (delete_scan-table scan_id info daemon found (is_ended-is_running info.status over))
    | inr e ↦ rw e refl
  ]

  forget-get :
      (scan_id : Text) (info : ScanInfo) (daemon : Daemon) (key : Text)
      → get scan_id daemon.store.table ≡ some info
      → get key (forget scan_id info daemon).store.table ≡ (
          if text_eq key scan_id
          then kept now hours (get key daemon.store.table)
          else get key daemon.store.table)
  forget-get scan_id info daemon key found =
      ap (get key) (forget-table scan_id info daemon found)
      ∙ elim (Bool-cases (text_eq key scan_id)) [
        | inl e ↦
            let same : key ≡ scan_id = (text_eq_iff key scan_id).0 e in
            rw e (
              rw same (
                left_of-get (is_forgotten now hours info) scan_id info daemon.store.table found
                ∙ ap (λ b. kept_if b info) (is_forgotten-is_old now hours info)
                ∙ rw found refl))
        | inr e ↦
            rw e (left_of-get_other (is_forgotten now hours info) scan_id key daemon.store.table e)
      ]

  -- The loop, over scans that are in the table, each once.
  forget_each-kept :
      (ids : List Text) (daemon : Daemon)
      → NoRepeat ids
      → ((key : Text)
          → has_text key ids ≡ true
          → (info : ScanInfo) × (get key daemon.store.table ≡ some info))
      → (new : Daemon) × (forget_each pickler now hours ids daemon ≡ ok new)
        × ((key : Text)
            → get key new.store.table ≡ (
                if has_text key ids
                then kept now hours (get key daemon.store.table)
                else get key daemon.store.table))
  unfolding has_text
  forget_each-kept [] daemon h there = (daemon, refl, λ key. refl)
  forget_each-kept (scan_id ∷ ids) daemon (h, hs) there =
      let (info, found) = there scan_id (ground (arith, text_eq_refl scan_id)) in
      let next = forget scan_id info daemon in
      let others : (key : Text)
          → has_text key ids ≡ true
          → get key next.store.table ≡ get key daemon.store.table =
        λ key k.
          forget-get scan_id info daemon key found ∙ rw (differs_from scan_id key ids h k) refl in
      let (new, run, all) =
        forget_each-kept ids next hs
          (λ key k. let (i, f) = there key (ground (arith, k)) in (i, others key k ∙ f)) in
      (
        new,
        ground (arith, found, run),
        λ key. all key ∙ elim (Bool-cases (has_text key ids)) [
          | inl k ↦
              rw k (rw (differs_from scan_id key ids h k) (ap (kept now hours) (others key k)))
          | inr k ↦ rw k (forget-get scan_id info daemon key found ∙ ground arith)
        ],
      )

-- Where no id stands in the table twice, `clean_forgotten_scans` raises nothing. It takes away
-- exactly the scans that are stopped, finished or interrupted and have an end time that is longer ago
-- than the limit of hours, every other scan is left as it was, and a limit of 0 takes none away.
pub clean_forgotten_scans-kept :
    (pickler : Pickler) (now hours : ℕ) (daemon : Daemon)
    → NoRepeat (keys daemon.store.table)
    → (new : Daemon) × (clean_forgotten_scans pickler now hours daemon ≡ ok new)
      × ((key : Text)
          → get key new.store.table ≡ (
              if hours == 0
              then get key daemon.store.table
              else kept now hours (get key daemon.store.table)))
unfolding clean_forgotten_scans
clean_forgotten_scans-kept pickler now hours daemon h = elim (Bool-cases (hours == 0)) [
  | inl e ↦ (daemon, rw e refl, λ key. rw e refl)
  | inr e ↦
      let ids = keys daemon.store.table in
      let table = daemon.store.table in
      let (new, run, all) =
        forget_each-kept pickler now hours ids daemon h (λ key. has_text-keys-get key table) in
      (
        new,
        rw e run,
        λ key. all key ∙ elim (Bool-cases (has_text key ids)) [
          | inl k ↦ rw k (rw e refl)
          | inr k ↦ rw k (rw e (rw (get-keys-none key table k) refl))
        ],
      )
]
