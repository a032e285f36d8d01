-- ===== src/Scan/Running/Counted.antt =====
-- The counts and the progress of a started scan are computed without an exception.
use ospd_openvas.Scan.Running.Started.{
  of_info-Ends, Has, modify-Ends, set_progress-Ends, Started, IsStarted,
}
use ospd_openvas.Scan.Counts.{
  get_simplified_exclude_host_count, get_count_dead, get_count_alive, calculate_target_progress,
  remove_each, list_or_nothing, get_host_count, simplified_or_count, count_in, hosts_of,
  get_exclude_hosts, get_finished_hosts, total_or_count, update_count_total, get_host_list,
  get_count_total, simplify_exclude_host_count, get_finished_hosts_count,
}
use ospd_openvas.Scan.Collection.{progress_or_init, set_host_finished, get_progress}
use ospd_openvas.Scan.Running.{
  set_scan_progress, get_scan_progress_raw, add_finished, process_finished_hosts,
}
use ospd_openvas.Prelude.{
  zero, length, none, ◌+◌, sym, suc, ap, subst, [], ◌∷◌, List, refl, arith, some, ℕ, Option,
}
use ospd_openvas.Scan.{Table, ScanStatus, ScanInfo}
use ospd_openvas.Py.Result.{◌>>=◌, type_error, or_raise, ok, Ends->>=, Ends}
use ospd_openvas.Prelude.Int.{negsuc, pos, ℤ}
use ospd_openvas.Scan.Hosts.{get_current_target_progress}
use ospd_openvas.Network.Targets.{target_str_to_list, Sockets}
use ospd_openvas.Py.Text.{Text}
use mathlib.Core.Option

module _ (sockets : Sockets) where
  pub finished_hosts_of :
      (info : ScanInfo)
      → IsStarted sockets info
      → Has (Option.map (λ target. target.finished_hosts) info.target)
  finished_hosts_of info (_, _, _, _, _, _, (target, e, _)) =
      (target.finished_hosts, ap (Option.map (λ target. target.finished_hosts)) e)

  pub exclude_hosts_of :
      (info : ScanInfo)
      → IsStarted sockets info
      → Has (Option.map (λ target. target.exclude_hosts) info.target)
  exclude_hosts_of info (_, _, _, _, _, _, (target, e, _)) =
      (target.exclude_hosts, ap (Option.map (λ target. target.exclude_hosts)) e)

  pub add_finished-Ends :
      {status : ScanStatus} (hosts : Text) (scan_id : Text) (table : Table)
      → Started sockets status scan_id table
      → Ends (Started sockets status scan_id) (add_finished sockets hosts scan_id table)
  unfolding set_host_finished
  add_finished-Ends [] scan_id table s = (table, refl, s)
  add_finished-Ends {status = status} (c ∷ hosts) scan_id table s =
      let added = length (list_or_nothing (target_str_to_list sockets (c ∷ hosts))) in
      let count_more : ScanInfo → ℕ → ScanInfo =
        λ info count. record info { count_alive = some (count + added) } in
      modify-Ends sockets status scan_id
        (λ info. or_raise type_error info.count_alive >>= (λ count. ok (count_more info count)))
        table
        (λ info (r, p, (alive, e), d, t, x, h) same.
          Ends->>= {P = λ _. Unit {0}} (or_raise type_error info.count_alive)
            (λ count. ok (count_more info count)) (alive, ap (or_raise type_error) e, tt)
            (λ count _. (count_more info count, refl, ((r, p, (_, refl), d, t, x, h), same))))
        s

  pub process_finished_hosts-Ends :
      {status : ScanStatus} (scan_id : Text) (table : Table)
      → Started sockets status scan_id table
      → Ends (Started sockets status scan_id) (process_finished_hosts sockets scan_id table)
  unfolding process_finished_hosts get_finished_hosts
  process_finished_hosts-Ends scan_id table s =
      Ends->>= _ _ (of_info-Ends sockets _ scan_id table finished_hosts_of s)
        (λ hosts _. add_finished-Ends hosts scan_id table s)

  pub total_or_count-Ends :
      {status : ScanStatus} (count_total : Option ℤ) (scan_id : Text) (table : Table)
      → Started sockets status scan_id table
      → Ends
          (λ result. Started sockets status scan_id result.1)
          (total_or_count sockets count_total scan_id table)
  unfolding update_count_total
  total_or_count-Ends {status = status} none scan_id table s =
      Ends->>= _ _
        (modify-Ends sockets status scan_id
          (λ info. ok (record info {
            count_total = some (some (pos (get_host_count sockets scan_id table)));
          }))
          table
          (λ info (r, p, a, d, t, x, h) same. (_, refl, ((r, p, a, d, (_, refl), x, h), same))) s)
        (λ new s1. (_, refl, s1))
  total_or_count-Ends (some (pos n)) scan_id table s = (_, refl, s)
  total_or_count-Ends (some (negsuc zero)) scan_id table s = (_, refl, s)
  total_or_count-Ends (some (negsuc (suc n))) scan_id table s = (_, refl, s)

  pub get_count_total-Ends :
      {status : ScanStatus} (scan_id : Text) (table : Table)
      → Started sockets status scan_id table
      → Ends
          (λ result. Started sockets status scan_id result.1)
          (get_count_total sockets scan_id table)
  unfolding get_count_total
  get_count_total-Ends scan_id table s =
      Ends->>= _ _ (of_info-Ends sockets _ scan_id table (λ info (_, _, _, _, t, _, _). t) s)
        (λ count_total _. total_or_count-Ends count_total scan_id table s)

  -- The hosts of the target can be read, so that nothing is looked for in None.
  pub count_in-Ends :
      (hosts exc_hosts : List Text) → Ends (λ _. Unit {0}) (count_in (some hosts) exc_hosts)
  count_in-Ends hosts [] = (0, refl, tt)
  count_in-Ends hosts (host ∷ exc_hosts) =
      Ends->>= _ _ (count_in-Ends hosts exc_hosts) (λ n _. (_, refl, tt))

  pub hosts_of-Started :
      {status : ScanStatus} (scan_id : Text) (table : Table)
      → Started sockets status scan_id table
      → Has (hosts_of sockets (get_host_list scan_id table))
  unfolding get_host_list
  hosts_of-Started scan_id table s =
      let (_, _, _, _, _, _, (target, e, (hosts, read))) = s.started in
      (hosts, ground (arith, s.found, e, read))

  pub count_in-Started-Ends :
      {status : ScanStatus} (exc_hosts : List Text) (scan_id : Text) (table : Table)
      → Started sockets status scan_id table
      → Ends (λ _. Unit {0}) (count_in (hosts_of sockets (get_host_list scan_id table)) exc_hosts)
  count_in-Started-Ends exc_hosts scan_id table s =
      let (hosts, e) = hosts_of-Started scan_id table s in
      subst (λ o. Ends (λ _. Unit {0}) (count_in o exc_hosts)) (sym e)
        (count_in-Ends hosts exc_hosts)

  pub simplified_or_count-Ends :
      {status : ScanStatus} (count : Option ℕ) (scan_id : Text) (table : Table)
      → Started sockets status scan_id table
      → Ends
          (λ result. Started sockets status scan_id result.1)
          (simplified_or_count sockets count scan_id table)
  unfolding simplify_exclude_host_count get_exclude_hosts get_finished_hosts
  simplified_or_count-Ends (some n) scan_id table s = (_, refl, s)
  simplified_or_count-Ends {status = status} none scan_id table s =
      Ends->>= _ _ (of_info-Ends sockets _ scan_id table exclude_hosts_of s) (λ exclude_hosts _.
        Ends->>= _ _ (of_info-Ends sockets _ scan_id table finished_hosts_of s) (λ finished_hosts _.
          Ends->>= _ _
            (count_in-Started-Ends
              (remove_each (list_or_nothing (target_str_to_list sockets finished_hosts))
                (list_or_nothing (target_str_to_list sockets exclude_hosts)))
              scan_id table s)
            (λ excluded _.
              Ends->>= _ _
                (modify-Ends sockets status scan_id
                  (λ info. ok (record info { excluded_simplified = some (some excluded) })) table
                  (λ info (r, p, a, d, t, x, h) same.
                    (_, refl, ((r, p, a, d, t, (_, refl), h), same)))
                  s)
                (λ new s1. ((excluded, new), refl, s1)))))

  pub get_progress-Ends :
      {status : ScanStatus} (scan_id : Text) (table : Table)
      → Started sockets status scan_id table
      → Ends (λ _. Unit {0}) (get_progress scan_id table)
  unfolding get_progress
  get_progress-Ends scan_id table s =
      (progress_or_init s.info.progress, ground (arith, s.found), tt)

  pub get_current_target_progress-Ends :
      {status : ScanStatus} (scan_id : Text) (table : Table)
      → Started sockets status scan_id table
      → Ends (λ _. Unit {0}) (get_current_target_progress scan_id table)
  unfolding get_current_target_progress
  get_current_target_progress-Ends scan_id table s =
      of_info-Ends sockets (λ info. info.target_progress) scan_id table
        (λ info (_, p, _, _, _, _, _). p) s

  pub get_finished_hosts_count-Ends :
      {status : ScanStatus} (scan_id : Text) (table : Table)
      → Started sockets status scan_id table
      → Ends (λ _. Unit {0}) (get_finished_hosts_count sockets scan_id table)
  unfolding get_finished_hosts_count get_finished_hosts
  get_finished_hosts_count-Ends scan_id table s =
      Ends->>= _ _ (of_info-Ends sockets _ scan_id table finished_hosts_of s)
        (λ hosts _. (_, refl, tt))

  pub get_scan_progress_raw-Ends :
      {status : ScanStatus} (scan_id : Text) (table : Table)
      → Started sockets status scan_id table
      → Ends (Started sockets status scan_id) (get_scan_progress_raw sockets scan_id table)
  unfolding get_scan_progress_raw get_count_alive get_count_dead get_simplified_exclude_host_count
  get_scan_progress_raw-Ends scan_id table s =
      Ends->>= _ _ (get_current_target_progress-Ends scan_id table s) (λ _ _.
        Ends->>= _ _ (get_progress-Ends scan_id table s) (λ _ _.
          Ends->>= _ _ (of_info-Ends sockets _ scan_id table (λ info (_, _, a, _, _, _, _). a) s)
            (λ _ _.
              Ends->>= _ _
                (of_info-Ends sockets _ scan_id table (λ info (_, _, _, d, _, _, _). d) s)
                (λ _ _.
                  Ends->>= _ _
                    (Ends->>= _ _
                      (of_info-Ends sockets _ scan_id table (λ info (_, _, _, _, _, x, _). x) s)
                      (λ count _. simplified_or_count-Ends count scan_id table s))
                    (λ (_, table1) s1.
                      Ends->>= _ _ (get_count_total-Ends scan_id table1 s1) (λ (_, table2) s2.
                        Ends->>= _ _ (get_finished_hosts_count-Ends scan_id table2 s2)
                          (λ _ _. (table2, refl, s2))))))))

  pub calculate_target_progress-Ends :
      {status : ScanStatus} (scan_id : Text) (table : Table)
      → Started sockets status scan_id table
      → Ends
          (λ result. Started sockets status scan_id result.1)
          (calculate_target_progress sockets scan_id table)
  unfolding calculate_target_progress get_count_alive get_count_dead
  calculate_target_progress-Ends scan_id table s =
      Ends->>= _ _ (get_count_total-Ends scan_id table s) (λ (total, table1) s1.
        Ends->>= _ _ (of_info-Ends sockets _ scan_id table1 (λ info (_, _, a, _, _, _, _). a) s1)
          (λ alive _.
            Ends->>= _ _
              (of_info-Ends sockets _ scan_id table1 (λ info (_, _, _, d, _, _, _). d) s1)
              (λ dead _.
                Ends->>= _ _ (get_current_target_progress-Ends scan_id table1 s1) (λ progress _.
                  Ends->>= _ _ (get_finished_hosts_count-Ends scan_id table1 s1)
                    (λ finished _. ((_, table1), refl, s1))))))

  pub set_scan_progress-Ends :
      {status : ScanStatus} (now : ℕ) (scan_id : Text) (table : Table)
      → Started sockets status scan_id table
      → Ends (Started sockets status scan_id) (set_scan_progress sockets now scan_id table)
  unfolding set_scan_progress
  set_scan_progress-Ends now scan_id table s =
      Ends->>= _ _ (get_scan_progress_raw-Ends scan_id table s) (λ table1 s1.
        Ends->>= _ _ (calculate_target_progress-Ends scan_id table1 s1)
          (λ (progress, table2) s2. set_progress-Ends sockets now scan_id progress table2 s2))
