-- ===== src/Scan/Creation.antt =====
-- `create_scan` and `unpickle_scan_info` of ospd/scan.py: a queued scan keeps its description in a
-- file until it is started.
pub mod RoundTrip
use ospd_openvas.Py.Result.{command_error, key_error, ok, attribute_error, raise, Result}
use ospd_openvas.Scan.Pickle.{load_data, remove_file, store_data, Pickler}
use ospd_openvas.Py.Dict.{put, get, Dict}
use ospd_openvas.Prelude.Int.{pos}
use ospd_openvas.Prelude.{some, none, Option, Bool, ℕ, [], ◌∷◌}
use ospd_openvas.Scan.{queued, ScanInfo, StoredInfo, Table, Files}
use ospd_openvas.Py.Text.{Text}

-- The scan table and the storage directory.
pub record Store : Type 0 where
  pub files : Files
  pub table : Table

-- A queued scan: no other key is set.
abbrev pub queued_info : ℕ → Text → Dict (Dict Text) → Option Text → ScanInfo
queued_info now scan_id credentials hash = record {
  scan_id = scan_id;
  status = queued;
  credentials = credentials;
  start_time = now;
  end_time = 0;
  scan_info_hash = some hash;
  results = none;
  temp_results = none;
  progress = none;
  target_progress = none;
  count_alive = none;
  count_dead = none;
  count_total = none;
  count_excluded = none;
  excluded_simplified = none;
  target = none;
  vts = none;
  options = none;
}

-- What `unpickle_scan_info` writes into the dictionary of a scan.
abbrev pub started_info : ℕ → StoredInfo → ScanInfo → ScanInfo
started_info now stored info = record info {
  scan_info_hash = none;
  results = some [];
  temp_results = some [];
  progress = some (pos 0);
  target_progress = some [];
  count_alive = some 0;
  count_dead = some (pos 0);
  count_total = some none;
  count_excluded = some (pos 0);
  excluded_simplified = some none;
  target = some stored.target;
  vts = some stored.vts;
  options = some stored.options;
  start_time = now;
  end_time = 0;
}

-- `if scan_id is None or scan_id == '': scan_id = str(uuid.uuid4())`
abbrev pub id_or : Text → Text → Text
id_or uuid [] = uuid
id_or uuid (c ∷ scan_id) = c ∷ scan_id

module _ (pickler : Pickler) where
  -- `writable` and `uuid` are what the file system and `uuid4` give; `none` is the result None.
  unfoldable pub create_scan :
      Bool → Text → ℕ → Text → Dict (Dict Text) → StoredInfo → Store → Option Text × Store
  create_scan writable uuid now scan_id credentials info store =
      let ident = id_or uuid scan_id in
      elim (store_data pickler writable ident info store.files) [
        | raise _ ↦ (none, store)
        | ok stored ↦ (
          some ident,
          record {
            files = stored.1;
            table = put ident (queued_info now ident credentials stored.0) store.table;
          },
        )
      ]

  -- The rest of `unpickle_scan_info`, from the result of `load_data` on; the hash is out of the
  -- dictionary whether the file could be loaded or not.
  abbrev pub unpickle_loaded :
      Option StoredInfo → ℕ → Text → ScanInfo → Store → Result (Unit {0}) × Store
  unpickle_loaded none now scan_id info store = (
    raise command_error,
    record {
      files = remove_file pickler scan_id store.files;
      table = put scan_id (record info { scan_info_hash = none }) store.table;
    },
  )
  unpickle_loaded (some stored) now scan_id info store = (
    ok tt,
    record {
      files = remove_file pickler scan_id store.files;
      table = put scan_id (started_info now stored info) store.table;
    },
  )

  -- An exception of `load_data` passes on, and the file stays.
  abbrev pub unpickle_result :
      Result (Option StoredInfo) → ℕ → Text → ScanInfo → Store → Result (Unit {0}) × Store
  unpickle_result (raise e) now scan_id info store = (
    raise e,
    record store { table = put scan_id (record info { scan_info_hash = none }) store.table },
  )
  unpickle_result (ok loaded) now scan_id info store = unpickle_loaded loaded now scan_id info store

  abbrev pub unpickle_with :
      Option (Option Text) → ℕ → Text → ScanInfo → Store → Result (Unit {0}) × Store
  unpickle_with none now scan_id info store = (raise key_error, store)
  unpickle_with (some hash) now scan_id info store =
      unpickle_result (load_data pickler scan_id hash store.files) now scan_id info store

  abbrev pub unpickle_found : Option ScanInfo → ℕ → Text → Store → Result (Unit {0}) × Store
  unpickle_found none now scan_id store = (raise attribute_error, store)
  unpickle_found (some info) now scan_id store =
      unpickle_with info.scan_info_hash now scan_id info store

  -- The exception, if there is one, and what is stored then.
  unfoldable pub unpickle_scan_info : ℕ → Text → Store → Result (Unit {0}) × Store
  unpickle_scan_info now scan_id store = unpickle_found (get scan_id store.table) now scan_id store
