-- ===== src/Scan/Pickle.antt =====
-- ospd/datapickler.py: a scan's description in a file, with the hash of its bytes kept apart.
use ospd_openvas.Py.Dict.Laws.{AllEntries-get, AllEntries, text_eq_of_ne, text_eq_refl, get-put}
use ospd_openvas.Prelude.{
  ap, sym, arith, length, false, drop, refl, ◌++◌, true, ◌∷◌, [], if◌then◌else◌, ◌≢◌, none, some, ℕ,
  List, ◌≡◌, Option, Bool,
}
use ospd_openvas.Py.Result.{unpickling_error, command_error, raise, ok, Result}
use ospd_openvas.Py.Text.{text_eq, Text}
use ospd_openvas.Py.Dict.{put, erase, get}
use ospd_openvas.Scan.{Files, StoredInfo}

-- pickle and sha256. `loads` may raise an UnpicklingError, but also an EOFError, an AttributeError and
-- other exceptions.
pub record Pickler : Type 0 where
  pub dumps : StoredInfo → List ℕ
  pub loads : List ℕ → Result StoredInfo
  pub sha256 : List ℕ → Text

-- The pickle of this description is not empty, and pickle reads it back.
abbrev pub IsReadBack : Pickler → StoredInfo → Type 0
IsReadBack pickler info = (pickler.dumps info ≢ []) × (pickler.loads (pickler.dumps info) ≡ ok info)

-- `except pickle.UnpicklingError` catches what `loads` raises, if it raises anything.
abbrev pub IsCaught : Result StoredInfo → Type 0
IsCaught (raise e) = e ≡ unpickling_error
IsCaught (ok info) = Unit

module _ (pickler : Pickler) where
  -- `_pickled_data_hash_generator`: None on no bytes.
  unfoldable pub pickled_data_hash_generator : List ℕ → Option Text
  pickled_data_hash_generator [] = none
  pickled_data_hash_generator (b ∷ bytes) = some (pickler.sha256 (b ∷ bytes))

  -- `open(path, 'wb', opener=...)` opens without O_TRUNC: the bytes of an old file behind the end
  -- of the new bytes stay.
  unfoldable pub write_file : Text → List ℕ → Files → Files
  write_file filename bytes files = elim (get filename files) [
    | none ↦ put filename bytes files
    | some old ↦ put filename (bytes ++ drop (length bytes) old) files
  ]

  -- `writable`: the directory and the file can be opened.
  unfoldable pub store_data : Bool → Text → StoredInfo → Files → Result (Option Text × Files)
  store_data writable filename info files =
      if writable
      then ok (
        pickled_data_hash_generator (pickler.dumps info),
        write_file filename (pickler.dumps info) files,
      )
      else raise command_error

  abbrev pub same_hash : Option Text → Option Text → Bool
  same_hash none none = true
  same_hash (some h) (some k) = text_eq h k
  same_hash _ _ = false

  -- The rest of `load_data`, from what `loads` gives for the bytes on.
  abbrev pub check_loaded : Option Text → List ℕ → Result StoredInfo → Result (Option StoredInfo)
  check_loaded original_data_hash bytes (raise unpickling_error) = ok none
  check_loaded original_data_hash bytes (raise e) = raise e
  check_loaded original_data_hash bytes (ok info) =
      ok (
        if same_hash original_data_hash (pickled_data_hash_generator bytes)
        then some info
        else none)

  -- `none` is the result None. An exception that is no UnpicklingError passes on.
  unfoldable pub load_data : Text → Option Text → Files → Result (Option StoredInfo)
  load_data filename original_data_hash files = elim (get filename files) [
    | none ↦ ok none
    | some bytes ↦ check_loaded original_data_hash bytes (pickler.loads bytes)
  ]

  -- A missing file is logged.
  unfoldable pub remove_file : Text → Files → Files
  remove_file filename files = erase filename files

  text_hash :
      (bytes : List ℕ)
      → bytes ≢ []
      → pickled_data_hash_generator bytes ≡ some (pickler.sha256 bytes)
  unfolding pickled_data_hash_generator
  text_hash [] h = absurd (h refl)
  text_hash (b ∷ bytes) h = refl

  hash-dumps :
      (info : StoredInfo)
      → pickler.dumps info ≢ []
      → pickled_data_hash_generator (pickler.dumps info)
        ≡ some (pickler.sha256 (pickler.dumps info))
  hash-dumps info full = text_hash (pickler.dumps info) full

  load_data-bytes :
      (filename : Text) (bytes : List ℕ) (info : StoredInfo) (hash : Text) (files : Files)
      → get filename files ≡ some bytes
      → bytes ≢ []
      → pickler.loads bytes ≡ ok info
      → load_data filename (some hash) files
        ≡ ok (if text_eq hash (pickler.sha256 bytes) then some info else none)
  unfolding load_data
  load_data-bytes filename bytes info hash files found full loaded =
      ground (arith, found, loaded, text_hash bytes full)

  check_loaded-ok :
      (hash : Option Text) (bytes : List ℕ) (loaded : Result StoredInfo)
      → IsCaught loaded
      → (result : Option StoredInfo) × (check_loaded hash bytes loaded ≡ ok result)
  check_loaded-ok hash bytes (raise e) caught =
      (none, ap (λ x. check_loaded hash bytes (raise x)) caught)
  check_loaded-ok hash bytes (ok info) caught = (_, refl)

  -- Nothing is raised for files whose pickles raise nothing but an UnpicklingError.
  pub load_data-ok :
      (filename : Text) (hash : Option Text) (files : Files) (found : Option (List ℕ))
      → get filename files ≡ found
      → AllEntries (λ key bytes. IsCaught (pickler.loads bytes)) files
      → (result : Option StoredInfo) × (load_data filename hash files ≡ ok result)
  unfolding load_data
  load_data-ok filename hash files none e all = (none, rw (e, load_data) refl)
  load_data-ok filename hash files (some bytes) e all =
      let caught =
        AllEntries-get (λ key bytes. IsCaught (pickler.loads bytes)) filename bytes files all e in
      let (result, run) = check_loaded-ok hash bytes (pickler.loads bytes) caught in
      (result, rw (e, load_data) run)

  pub write_file-new :
      (filename : Text) (bytes : List ℕ) (files : Files)
      → get filename files ≡ none
      → write_file filename bytes files ≡ put filename bytes files
  unfolding write_file
  write_file-new filename bytes files h = ground (arith, h)

  -- What was stored under a new name is loaded with the hash that storing it gave.
  pub load_data-write_file :
      (filename : Text) (info : StoredInfo) (files : Files)
      → IsReadBack pickler info
      → get filename files ≡ none
      → load_data filename
          (pickled_data_hash_generator (pickler.dumps info))
          (write_file filename (pickler.dumps info) files)
        ≡ ok (some info)
  load_data-write_file filename info files (full, loaded) h = rw (
    hash-dumps info full,
    write_file-new filename (pickler.dumps info) files h,
    load_data-bytes filename (pickler.dumps info) info (pickler.sha256 (pickler.dumps info))
        (put filename (pickler.dumps info) files) (get-put filename (pickler.dumps info) files) full
        loaded,
    text_eq_refl (pickler.sha256 (pickler.dumps info)),
  )

  get-write_file_over :
      (filename : Text) (bytes old : List ℕ) (files : Files)
      → get filename files ≡ some old
      → get filename (write_file filename bytes files) ≡ some (bytes ++ drop (length bytes) old)
  unfolding write_file
  get-write_file_over filename bytes old files h =
      ground (arith, h, get-put filename (bytes ++ drop (length bytes) old) files)

  check_loaded_of_hash :
      (hash : Text) (bytes : List ℕ) (loaded : Result StoredInfo)
      → bytes ≢ []
      → pickler.sha256 bytes ≢ hash
      → IsCaught loaded
      → check_loaded (some hash) bytes loaded ≡ ok none
  check_loaded_of_hash hash bytes (raise e) full other caught =
      ap (λ x. check_loaded (some hash) bytes (raise x)) caught
  check_loaded_of_hash hash bytes (ok info) full other caught =
      ground (
        arith,
        text_hash bytes full,
        text_eq_of_ne hash (pickler.sha256 bytes) (λ e. other (sym e)),
      )

  load_data_of_hash :
      (filename : Text) (hash : Text) (bytes : List ℕ) (files : Files)
      → get filename files ≡ some bytes
      → bytes ≢ []
      → pickler.sha256 bytes ≢ hash
      → IsCaught (pickler.loads bytes)
      → load_data filename (some hash) files ≡ ok none
  unfolding load_data
  load_data_of_hash filename hash bytes files found full other caught =
      rw (found, load_data)
        (check_loaded_of_hash hash bytes (pickler.loads bytes) full other caught)

  append-ne-nil : (l m : List ℕ) → l ≢ [] → l ++ m ≢ []
  append-ne-nil [] m h e = h refl
  append-ne-nil (x ∷ l) m h e = cc

  -- Storing over a longer file of the same name leaves the end of the old bytes. Where these change
  -- the hash, the new description cannot be loaded: the result is None, if reading the pickle raises
  -- nothing but an UnpicklingError.
  pub load_data-write_file_over :
      (filename : Text) (info : StoredInfo) (old : List ℕ) (files : Files)
      → pickler.dumps info ≢ []
      → get filename files ≡ some old
      → pickler.sha256 (pickler.dumps info ++ drop (length (pickler.dumps info)) old)
        ≢ pickler.sha256 (pickler.dumps info)
      → IsCaught (pickler.loads (pickler.dumps info ++ drop (length (pickler.dumps info)) old))
      → load_data filename
          (pickled_data_hash_generator (pickler.dumps info))
          (write_file filename (pickler.dumps info) files)
        ≡ ok none
  load_data-write_file_over filename info old files full found other caught =
      rw (hash-dumps info full) (
        load_data_of_hash filename (pickler.sha256 (pickler.dumps info))
          (pickler.dumps info ++ drop (length (pickler.dumps info)) old)
          (write_file filename (pickler.dumps info) files)
          (get-write_file_over filename (pickler.dumps info) old files found)
          (append-ne-nil (pickler.dumps info) _ full) other caught)
