-- ===== src/Scan.antt =====
-- The scans of the daemon: what ospd/scan.py keeps for each of them.
pub mod Pickle
pub mod Collection
pub mod Results
pub mod Creation
pub mod Invariant
pub mod Queue
pub mod Hosts
pub mod Counts
pub mod Adding
pub mod Running
mod Tests
use ospd_openvas.Prelude.{ℕ, List, Option, Bool, true, false}
use ospd_openvas.Prelude.Int.{ℤ}
use ospd_openvas.Py.Text.{Text}
use ospd_openvas.Py.Dict.{Dict}

pub data ScanStatus : Type 0 where
  queued init running stopped finished interrupted : ScanStatus

abbrev pub is_queued : ScanStatus → Bool
is_queued queued = true
is_queued _ = false

abbrev pub is_running : ScanStatus → Bool
is_running running = true
is_running _ = false

-- `status == STOPPED or status == INTERRUPTED`
abbrev pub stamps_end : ScanStatus → Bool
stamps_end stopped = true
stamps_end interrupted = true
stamps_end _ = false

-- STOPPED, FINISHED or INTERRUPTED.
abbrev pub is_ended : ScanStatus → Bool
is_ended stopped = true
is_ended finished = true
is_ended interrupted = true
is_ended _ = false

-- The dictionary of one result.
pub record ScanResult : Type 0 where
  pub type : ℕ
  pub name : Text
  pub severity : Text
  pub test_id : Text
  pub value : Text
  pub host : Text
  pub hostname : Text
  pub port : Text
  pub qod : Text
  pub uri : Text

-- The dictionary of the target without its credentials. `get_ports` takes the ports out.
pub record Target : Type 0 where
  pub hosts : Text
  pub ports : Option Text
  pub exclude_hosts : Text
  pub finished_hosts : Text
  pub options : Dict Text

-- The parameters of each VT, and the groups.
pub record Selection : Type 0 where
  pub vts : Dict (Dict Text)
  pub vt_groups : List Text

-- What `create_scan` stores in a file.
pub record StoredInfo : Type 0 where
  pub target : Target
  pub options : Dict Text
  pub vts : Selection

-- The dictionary of a scan: a key that may be missing is an option.
pub record ScanInfo : Type 0 where
  pub scan_id : Text
  pub status : ScanStatus
  pub credentials : Dict (Dict Text)
  pub start_time : ℕ
  pub end_time : ℕ
  pub scan_info_hash : Option (Option Text)
  pub results : Option (List ScanResult)
  pub temp_results : Option (List ScanResult)
  pub progress : Option ℤ
  pub target_progress : Option (Dict ℤ)
  pub count_alive : Option ℕ
  pub count_dead : Option ℤ
  pub count_total : Option (Option ℤ)
  pub count_excluded : Option ℤ
  pub excluded_simplified : Option (Option ℕ)
  pub target : Option Target
  pub vts : Option Selection
  pub options : Option (Dict Text)

-- `scans_table`
abbrev pub Table : Type 0
Table = Dict ScanInfo

-- The storage directory: the bytes of each file.
abbrev pub Files : Type 0
Files = Dict (List ℕ)
