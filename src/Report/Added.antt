-- ===== src/Report/Added.antt =====
-- What `report_results` of ospd_openvas/daemon.py adds to a scan.
use ospd_openvas.Report.Finish.{Holds}
use ospd_openvas.Prelude.{◌≢◌, ◌↔◌, true, Bool, [], ◌++◌, ◌≡◌, List}
use ospd_openvas.Report.{Reporting, Vulnerabilities}
use ospd_openvas.Prelude.Int.{◌+ℤ◌, ℤ}
use ospd_openvas.Scan.{Table, ScanResult}
use ospd_openvas.Py.Text.{Text}

module _ (vulnerabilities : Vulnerabilities) where
  -- The loop so far: what it has collected beyond `r`.
  abbrev Collected :
      Text → List ScanResult → ℤ → Reporting → List ScanResult → ℤ → Reporting → Type 0
  Collected scan_id results dead r added more next =
      Holds scan_id results dead next.table
      × (next.res_list ≡ r.res_list ++ added)
      × (next.total_dead ≡ r.total_dead +ℤ more)

  -- The answer says whether there are results, and the scan has them and the dead hosts.
  abbrev pub IsReported : Text → List ScanResult → List ScanResult → ℤ → ℤ → Bool × Table → Type 0
  IsReported scan_id results added dead more (any, new) =
      ((any ≡ true) ↔ (added ≢ [])) × Holds scan_id (results ++ added) (dead +ℤ more) new
