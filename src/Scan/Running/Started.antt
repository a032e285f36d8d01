-- ===== src/Scan/Running/Started.antt =====
-- A scan that is started, and the calls of the collection that keep it so: the facts behind the end
-- of `start_scan` in ospd/ospd.py.
use ospd_openvas.Scan.Counts.{of_info}
use ospd_openvas.Scan.Collection.{
  set_status, is_finished, in_progress, modify, write_if, set_progress,
}
use ospd_openvas.Prelude.{if◌then◌else◌, true, false, refl, ◌∙◌, arith, some, Bool, ℕ, ◌≡◌, Option}
use ospd_openvas.Scan.{stamps_end, Table, Target, ScanStatus, ScanInfo}
use ospd_openvas.Py.Result.{ok, Ends->>=, Ends, Result}
use ospd_openvas.Prelude.Int.{ℤ}
use ospd_openvas.Py.Dict.Laws.{get-put}
use ospd_openvas.Py.Dict.{put, get}
use ospd_openvas.Network.Targets.{target_str_to_list, Sockets}
use ospd_openvas.Py.Text.{Text}

-- The key is there.
abbrev pub Has {ℓ} : {A : Type ℓ} → Option A → Type ℓ
Has {A = A} o = (a : A) × (o ≡ some a)

module _ (sockets : Sockets) where
  -- The target, with a list of hosts that can be read.
  abbrev pub HasHosts : Option Target → Type 0
  HasHosts o = (target : Target) × (o ≡ some target) × Has (target_str_to_list sockets target.hosts)

  -- What `create_scan` and `unpickle_scan_info` give to a scan.
  abbrev pub IsStarted : ScanInfo → Type 0
  IsStarted info =
      Has info.results
      × Has info.target_progress
      × Has info.count_alive
      × Has info.count_dead
      × Has info.count_total
      × Has info.excluded_simplified
      × HasHosts info.target

  -- The scan stands in the table, is started and has the status.
  pub record Started (status : ScanStatus) (scan_id : Text) (table : Table) : Type 0 where
    pub info : ScanInfo
    pub found : get scan_id table ≡ some info
    pub started : IsStarted info
    pub same_status : info.status ≡ status

  pub of_info-Ends :
      {A : Type 0} {status : ScanStatus} (field : ScanInfo → Option A) (scan_id : Text)
      (table : Table)
      → ((info : ScanInfo) → IsStarted info → Has (field info))
      → Started status scan_id table
      → Ends (λ _. Unit {0}) (of_info field scan_id table)
  of_info-Ends field scan_id table has s =
      let (a, e) = has s.info s.started in (a, ground (arith, s.found, e), tt)

  -- A write that keeps the scan started.
  pub modify-Ends :
      {status : ScanStatus} (new_status : ScanStatus) (scan_id : Text)
      (f : ScanInfo → Result ScanInfo) (table : Table)
      → ((info : ScanInfo)
          → IsStarted info
          → info.status ≡ status
          → Ends (λ new. IsStarted new × (new.status ≡ new_status)) (f info))
      → Started status scan_id table
      → Ends (Started new_status scan_id) (modify scan_id f table)
  modify-Ends new_status scan_id f table k s =
      let (new, run, (started, same)) = k s.info s.started s.same_status in
      (
        put scan_id new table,
        ground (arith, s.found, run),
        record {
          info = new;
          found = get-put scan_id new table;
          started = started;
          same_status = same;
        },
      )

  pub write_if-Ends :
      {status : ScanStatus} (b : Bool) (scan_id : Text) (f : ScanInfo → ScanInfo) (table : Table)
      → ((info : ScanInfo) → IsStarted info → IsStarted (f info) × ((f info).status ≡ info.status))
      → Started status scan_id table
      → Ends (Started status scan_id) (write_if b scan_id f table)
  write_if-Ends false scan_id f table k s = (table, refl, s)
  write_if-Ends {status = status} true scan_id f table k s =
      modify-Ends status scan_id (λ info. ok (f info)) table
        (λ info started e. (f info, refl, ((k info started).0, (k info started).1 ∙ e))) s

  pub set_progress-Ends :
      {status : ScanStatus} (now : ℕ) (scan_id : Text) (progress : ℤ) (table : Table)
      → Started status scan_id table
      → Ends (Started status scan_id) (set_progress now scan_id progress table)
  unfolding set_progress
  set_progress-Ends now scan_id progress table s =
      Ends->>= _ _
        (write_if-Ends (in_progress progress) scan_id _ table (λ info started. (started, refl)) s)
        (λ new.
          write_if-Ends (is_finished progress) scan_id _ new (λ info started. (started, refl)))

  pub set_status-Ends :
      {old : ScanStatus} (now : ℕ) (scan_id : Text) (status : ScanStatus) (table : Table)
      → Started old scan_id table
      → Ends (Started status scan_id) (set_status now scan_id status table)
  unfolding set_status
  set_status-Ends now scan_id status table s =
      modify-Ends status scan_id
        (λ info. ok (record info {
          status = status;
          end_time = if stamps_end status then now else info.end_time;
        }))
        table (λ info started e. (_, refl, (started, refl))) s
