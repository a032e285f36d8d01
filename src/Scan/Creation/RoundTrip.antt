-- ===== src/Scan/Creation/RoundTrip.antt =====
-- A scan that was created is started with the description it was created with.
use ospd_openvas.Scan.Pickle.{
  IsReadBack, load_data-write_file, remove_file, load_data, pickled_data_hash_generator, write_file,
  store_data, Pickler,
}
use ospd_openvas.Py.Dict.Laws.{get-erase, get-put}
use ospd_openvas.Prelude.{arith, refl, some, none, ◌≡◌, true, ◌≢◌, Option, ℕ, [], ◌∷◌}
use ospd_openvas.Scan.Creation.{started_info, queued_info, Store, create_scan, unpickle_scan_info}
use ospd_openvas.Scan.{queued, ScanInfo, StoredInfo}
use ospd_openvas.Py.Result.{ok}
use ospd_openvas.Scan.Collection.{get_status}
use ospd_openvas.Py.Dict.{put, get, Dict}
use ospd_openvas.Py.Text.{Text}

module _ (pickler : Pickler) where
  -- The scan `create_scan` makes.
  abbrev pub created : ℕ → Text → Dict (Dict Text) → StoredInfo → ScanInfo
  created now scan_id credentials info =
      queued_info now scan_id credentials (pickled_data_hash_generator pickler (pickler.dumps info))

  abbrev pub create_store : ℕ → Text → Dict (Dict Text) → StoredInfo → Store → Store
  create_store now scan_id credentials info store = record {
    files = write_file pickler scan_id (pickler.dumps info) store.files;
    table = put scan_id (created now scan_id credentials info) store.table;
  }

  create_scan-writable :
      (uuid : Text) (now : ℕ) (scan_id : Text) (credentials : Dict (Dict Text)) (info : StoredInfo)
      (store : Store)
      → scan_id ≢ []
      → create_scan pickler true uuid now scan_id credentials info store
        ≡ (some scan_id, create_store now scan_id credentials info store)
  unfolding create_scan store_data
  create_scan-writable uuid now [] credentials info store h = absurd (h refl)
  create_scan-writable uuid now (c ∷ s) credentials info store h = refl

  unpickle-loaded :
      (now : ℕ) (scan_id : Text) (hash : Option Text) (stored : StoredInfo) (info : ScanInfo)
      (store : Store)
      → get scan_id store.table ≡ some info
      → info.scan_info_hash ≡ some hash
      → load_data pickler scan_id hash store.files ≡ ok (some stored)
      → unpickle_scan_info pickler now scan_id store ≡ (
        ok tt,
        record {
          files = remove_file pickler scan_id store.files;
          table = put scan_id (started_info now stored info) store.table;
        },
      )
  unfolding unpickle_scan_info
  unpickle-loaded now scan_id hash stored info store h k l = ground (arith, h, k, l)

  -- A scan created under a new, non-empty id, with a description that pickle reads back and a
  -- writable directory, is queued, and starting it succeeds: it then has the target, options, VT
  -- selection and credentials that it was created with and no result, and its file is gone.
  pub unpickle_scan_info-create_scan :
      (uuid : Text) (now later : ℕ) (scan_id : Text) (credentials : Dict (Dict Text))
      (info : StoredInfo) (store : Store)
      → IsReadBack pickler info
      → scan_id ≢ []
      → get scan_id store.files ≡ none
      → (queue : Store) × (last : Store) × (scan : ScanInfo) × (create_scan pickler true uuid now
            scan_id credentials info store
          ≡ (some scan_id, queue))
        × (get_status scan_id queue.table ≡ some queued)
        × (unpickle_scan_info pickler later scan_id queue ≡ (ok tt, last))
        × (get scan_id last.table ≡ some scan)
        × (scan.target ≡ some info.target)
        × (scan.options ≡ some info.options)
        × (scan.vts ≡ some info.vts)
        × (scan.credentials ≡ credentials)
        × (scan.results ≡ some [])
        × (get scan_id last.files ≡ none)
  unpickle_scan_info-create_scan uuid now later scan_id credentials info store readable full
        absent =
      let queue : Store = create_store now scan_id credentials info store in
      let first : ScanInfo = created now scan_id credentials info in
      let scan : ScanInfo = started_info later info first in
      let found = get-put scan_id first store.table in
      let loaded = load_data-write_file pickler scan_id info store.files readable absent in
      (
        queue,
        record {
          files = remove_file pickler scan_id queue.files;
          table = put scan_id scan queue.table;
        },
        scan,
        create_scan-writable uuid now scan_id credentials info store full,
        unfold get_status in ground (arith, found),
        unpickle-loaded later scan_id _ info first queue found refl loaded,
        get-put scan_id scan queue.table,
        refl,
        refl,
        refl,
        refl,
        refl,
        unfold remove_file in get-erase scan_id queue.files,
      )
