-- ===== src/Kb/KbDb.antt =====
-- The classes `ScanDB` and `KbDB`, and the scan's part of `BaseKbDB`, of ospd_openvas/db.py: what the daemon and the
-- scanner tell each other about a scan. The keys and the values are those of the source.
use ospd_openvas.Py.Text.{text_eq, codes, Text}
use ospd_openvas.Prelude.{◌||◌, none, [], ◌∷◌, some, true, false, ◌++◌, Bool, ℕ, List, Option}
use ospd_openvas.Kb.OpenvasDb.{required}
use ospd_openvas.Py.Result.{◌>>=◌, ok, Result}
use ospd_openvas.Py.Number.{str}
use ospd_openvas.Kb.Redis.{Redis}
use ospd_openvas.Kb.BaseKbDb.{
  add_single_item, set_single_item, get_single_item, get_list_item, pop_list_items,
  remove_list_item,
}

-- `f'internal/{scan_id}'`
abbrev pub internal : Text → Text
internal name = codes "internal/" ++ name

-- `current_status == 'finished'` on a status that may be None.
abbrev pub is_text : Text → Option Text → Bool
is_text text none = false
is_text text (some status) = text_eq status text

abbrev pub is_none {ℓ} : {A : Type ℓ} → Option A → Bool
is_none none = true
is_none (some a) = false

module _ (redis : Redis) where
  unfoldable pub get_result : ℕ → redis.State → Result (List Text × redis.State)
  get_result index = pop_list_items redis index (codes "internal/results")

  unfoldable pub get_status : ℕ → Text → redis.State → Result (Option Text)
  get_status index openvas_scan_id = get_single_item redis index (internal openvas_scan_id)

  -- `select`, which needs the index to be a text that is not empty.
  abbrev pub select_each : List Text → Result (List Text)
  select_each [] = ok []
  select_each (kbindex ∷ dbs) = do _ ← required kbindex; rest ← select_each dbs; ok (kbindex ∷ rest)

  -- The indexes of the databases that the iterator selects. `kbindex == self.index` compares a text
  -- with a number and is never true.
  unfoldable pub get_scan_databases : ℕ → redis.State → Result (List Text)
  get_scan_databases index s = do
    dbs ← get_list_item redis index (codes "internal/dbindex") s
    select_each dbs

  unfoldable pub add_scan_id : ℕ → Text → redis.State → Result redis.State
  add_scan_id index scan_id s = do
    s1 ← add_single_item redis index (internal scan_id) (codes "new" ∷ []) false s
    add_single_item redis index (codes "internal/scanid") (scan_id ∷ []) false s1

  abbrev pub scanprefs : Text → Text
  scanprefs scan_id = internal (scan_id ++ codes "/scanprefs")

  unfoldable pub add_scan_preferences : ℕ → Text → List Text → redis.State → Result redis.State
  add_scan_preferences index openvas_scan_id preferences =
      add_single_item redis index (scanprefs openvas_scan_id) preferences false

  unfoldable pub add_credentials_to_scan_preferences :
      ℕ → Text → List Text → redis.State → Result redis.State
  add_credentials_to_scan_preferences index openvas_scan_id preferences =
      add_single_item redis index (scanprefs openvas_scan_id) preferences true

  -- Redis keeps a number as its digits.
  unfoldable pub add_scan_process_id : ℕ → ℕ → redis.State → Result redis.State
  add_scan_process_id index pid =
      add_single_item redis index (codes "internal/ovas_pid") (str pid ∷ []) false

  unfoldable pub get_scan_process_id : ℕ → redis.State → Result (Option Text)
  get_scan_process_id index = get_single_item redis index (codes "internal/ovas_pid")

  unfoldable pub remove_scan_database : ℕ → Text → redis.State → Result redis.State
  remove_scan_database index scan_db =
      remove_list_item redis index (codes "internal/dbindex") scan_db

  unfoldable pub target_is_finished : ℕ → Text → redis.State → Result Bool
  target_is_finished index scan_id s = do
    status ← get_single_item redis index (internal scan_id) s
    ok (is_text (codes "finished") status || is_none status)

  unfoldable pub stop_scan : ℕ → Text → redis.State → Result redis.State
  stop_scan index openvas_scan_id =
      set_single_item redis index (internal openvas_scan_id) (codes "stop_all" ∷ [])

  unfoldable pub scan_is_stopped : ℕ → Text → redis.State → Result Bool
  scan_is_stopped index scan_id s = do
    status ← get_single_item redis index (internal scan_id) s
    ok (is_text (codes "stop_all") status)

  unfoldable pub get_scan_status : ℕ → redis.State → Result (List Text × redis.State)
  get_scan_status index = pop_list_items redis index (codes "internal/status")
