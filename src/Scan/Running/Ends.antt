-- ===== src/Scan/Running/Ends.antt =====
-- The run of a scan comes to its end: `start_scan` of ospd/ospd.py, whatever `exec_scan` raises.
use ospd_openvas.Scan.Adding.{result_of, add_scan_error}
use ospd_openvas.Scan.Running.Started.{modify-Ends, set_progress-Ends, set_status-Ends, Started}
use ospd_openvas.Py.Result.{
  key_error, or_raise, assertion_error, ok-injective, raise, ok, Ends->>=, ◌>>=◌, Exception, Ends,
  Result,
}
use ospd_openvas.Scan.Collection.{modify, is_finished, get_progress, add_result, get_status}
use ospd_openvas.Prelude.{
  ◌&&◌, ◌||◌, ◌∷◌, ◌∙◌, ◌++◌, ap, sym, refl, subst, List, [], false, arith, if◌then◌else◌, ℕ, some,
  true, ◌≡◌, Bool,
}
use ospd_openvas.Scan.Running.Counted.{
  get_scan_progress_raw-Ends, get_progress-Ends, set_scan_progress-Ends,
  process_finished_hosts-Ends,
}
use ospd_openvas.Scan.{
  interrupted, ScanResult, finished, ScanInfo, stopped, init, running, queued, is_ended, Table,
  ScanStatus,
}
use ospd_openvas.Prelude.Int.{pos, ℤ}
use ospd_openvas.Scan.Running.{
  get_scan_progress_raw, end_scan, run_exec, report_failure, set_scan_progress, interrupt_scan,
  start_scan, is_stopped, finish_scan,
}
use ospd_openvas.Network.Ports.{is_empty}
use ospd_openvas.Py.Text.{Text}
use ospd_openvas.Network.Targets.{Sockets}

-- The scan has one of the three statuses of a scan that is over.
abbrev pub Ended : Sockets → Text → Table → Type 0
Ended sockets scan_id table =
    (status : ScanStatus) × Started sockets status scan_id table × (is_ended status ≡ true)

is_stopped-eq :
    {sockets : Sockets} {status : ScanStatus} (scan_id : Text) (table : Table)
    → Started sockets status scan_id table
    → get_status scan_id table ≡ some status
unfolding get_status
is_stopped-eq scan_id table s = ground (arith, s.found, s.same_status)

add_scan_error-Ends :
    {sockets : Sockets} {status : ScanStatus} (scan_id host value : Text) (table : Table)
    → is_empty scan_id ≡ false
    → is_empty value ≡ false
    → Started sockets status scan_id table
    → Ends (Started sockets status scan_id) (add_scan_error scan_id host [] [] value [] [] [] table)
unfolding add_scan_error add_result
add_scan_error-Ends {sockets = sockets} {status = status} scan_id host value table h v s =
    let result = result_of 2 host [] [] value [] [] [] [] [] in
    let added : ScanInfo → List ScanResult → ScanInfo =
      λ info results. record info { results = some (results ++ (result ∷ [])) } in
    let passes : (is_empty scan_id || (is_empty result.name && is_empty result.value)) ≡ false =
      ground (arith, h, v) in
    subst
      (λ b. Ends (Started sockets status scan_id) (
        if b
        then raise assertion_error
        else modify scan_id
            (λ info. or_raise key_error info.results >>= (λ results. ok (added info results)))
            table))
      (sym passes)
      (modify-Ends sockets status scan_id
        (λ info. or_raise key_error info.results >>= (λ results. ok (added info results))) table
        (λ info ((results, e), p, a, d, t, x, hosts) same.
          Ends->>= {P = λ _. Unit {0}} (or_raise key_error info.results)
            (λ results. ok (added info results)) (results, ap (or_raise key_error) e, tt)
            (λ results _. (added info results, refl, (((_, refl), p, a, d, t, x, hosts), same))))
        s)

either-Ends :
    {P : Table → Type 0} (test : Bool) (first second : Result Table)
    → Ends P first
    → Ends P second
    → Ends P (if test then first else second)
either-Ends true first second p q = p
either-Ends false first second p q = q

Ended-Ends :
    {sockets : Sockets} {scan_id : Text} {call : Result Table} (status : ScanStatus)
    → Ends (Started sockets status scan_id) call
    → is_ended status ≡ true
    → Ends (Ended sockets scan_id) call
Ended-Ends status (new, run, s) e = (new, run, (status, s, e))

module _ (sockets : Sockets) (exec_scan : Text → Table → Result (Unit {0}) × Table)
    (message : Exception → Text) where
  -- `exec_scan` leaves the scan in the table, with its keys.
  abbrev pub KeepsStarted : Type 0
  KeepsStarted =
      (status : ScanStatus) (scan_id : Text) (table : Table)
      → Started sockets status scan_id table
      → (new : ScanStatus) × Started sockets new scan_id (exec_scan scan_id table).1

  abbrev StillStarted : Text → Table → Type 0
  StillStarted scan_id table = (status : ScanStatus) × Started sockets status scan_id table

  report_failure-Ends :
      (scan_id : Text) (run : Result (Unit {0}) × Table)
      → is_empty scan_id ≡ false
      → StillStarted scan_id run.1
      → Ends (StillStarted scan_id) (report_failure sockets exec_scan message scan_id run)
  report_failure-Ends scan_id (ok _, table) h s = (table, refl, s)
  report_failure-Ends scan_id (raise e, table) h (status, s) =
      let (new, run, s1) = add_scan_error-Ends scan_id _ _ table h refl s in
      (new, run, (status, s1))

  run_exec-Ends :
      (scan_id : Text) (table : Table) (call : Result Table)
      → KeepsStarted
      → is_empty scan_id ≡ false
      → Ends (Started sockets running scan_id) call
      → Ends (StillStarted scan_id) (run_exec sockets exec_scan message scan_id table call)
  run_exec-Ends scan_id table (raise e) keeps h (new, run, s) = cc
  run_exec-Ends scan_id table (ok table1) keeps h (new, run, s) =
      report_failure-Ends scan_id (exec_scan scan_id table1) h (
        keeps running scan_id table1
          (subst (Started sockets running scan_id) (sym (ok-injective run)) s))

  end_scan-Ends :
      (now : ℕ) (scan_id : Text) (stop : Bool) (progress : ℤ) (status : ScanStatus) (table : Table)
      → (stop ≡ true → is_ended status ≡ true)
      → Started sockets status scan_id table
      → Ends
          (Ended sockets scan_id)
          (end_scan sockets exec_scan message now scan_id stop progress table)
  unfolding finish_scan interrupt_scan
  end_scan-Ends now scan_id true progress status table k s = (table, refl, (status, s, k refl))
  end_scan-Ends now scan_id false progress status table k s =
      either-Ends (is_finished progress) (finish_scan now scan_id table)
        (interrupt_scan now scan_id table)
        (Ends->>= _ _ (set_progress-Ends sockets now scan_id (pos 100) table s) (λ table1 s1.
          Ended-Ends finished (set_status-Ends sockets now scan_id finished table1 s1) refl))
        (Ended-Ends interrupted (set_status-Ends sockets now scan_id interrupted table s) refl)

  is_stopped-is_ended :
      (status : ScanStatus) → is_stopped (some status) ≡ true → is_ended status ≡ true
  is_stopped-is_ended queued e = cc
  is_stopped-is_ended init e = cc
  is_stopped-is_ended running e = cc
  is_stopped-is_ended stopped e = refl
  is_stopped-is_ended finished e = cc
  is_stopped-is_ended interrupted e = cc

  -- The part of `start_scan` behind `exec_scan`.
  rest-Ends :
      (now : ℕ) (scan_id : Text) (table : Table)
      → StillStarted scan_id table
      → Ends (Ended sockets scan_id) (do
        table1 ← set_scan_progress sockets now scan_id table
        progress ← get_progress scan_id table1
        table2 ←
            end_scan sockets exec_scan message now scan_id
              (is_stopped (get_status scan_id table))
              progress
              table1
        get_scan_progress_raw sockets scan_id table2)
  rest-Ends now scan_id table (status, s) =
      Ends->>= _ _ (set_scan_progress-Ends sockets now scan_id table s) (λ table1 s1.
        Ends->>= _ _ (get_progress-Ends sockets scan_id table1 s1) (λ progress _.
          Ends->>= _ _
            (end_scan-Ends now scan_id (is_stopped (get_status scan_id table)) progress status
              table1
              (λ e.
                is_stopped-is_ended status
                  (ap is_stopped (sym (is_stopped-eq scan_id table s)) ∙ e))
              s1)
            (λ table2 (new, s2, e).
              let (last, run, s3) = get_scan_progress_raw-Ends sockets scan_id table2 s2 in
              (last, run, (new, s3, e)))))

  -- For a scan that is started, and an `exec_scan` that leaves the scan in the table with its keys,
  -- whatever it raises: `start_scan` raises nothing, and then the scan is stopped, finished or
  -- interrupted.
  pub start_scan-Ends :
      (now : ℕ) (scan_id : Text) (status : ScanStatus) (table : Table)
      → KeepsStarted
      → is_empty scan_id ≡ false
      → Started sockets status scan_id table
      → Ends (Ended sockets scan_id) (start_scan sockets exec_scan message now scan_id table)
  unfolding start_scan
  start_scan-Ends now scan_id status table keeps h s =
      Ends->>= _ _ (process_finished_hosts-Ends sockets scan_id table s) (λ table1 s1.
        Ends->>= _ _
          (run_exec-Ends scan_id table1 _ keeps h
            (set_status-Ends sockets now scan_id running table1 s1))
          (λ table2 s2. rest-Ends now scan_id table2 s2))
