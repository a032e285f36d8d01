-- ===== src/Kb/MainDb.antt =====
-- The class `MainDB` of ospd_openvas/db.py: database 0 keeps which of the others are in use.
use ospd_openvas.Kb.BaseKbDb.{ctx_of, flush}
use ospd_openvas.Kb.KbDb.{internal, is_text, get_status}
use ospd_openvas.Prelude.Int.{pos, negsuc, ℤ}
use ospd_openvas.Prelude.{
  ◌||◌, [], ◌==◌, false, ◌∷◌, none, true, some, if◌then◌else◌, Bool, Option, ℕ, List,
}
use ospd_openvas.Kb.OpenvasDb.{get_key_count}
use ospd_openvas.Py.Result.{openvas_error, or_raise, ok, ◌>>=◌, Result}
use ospd_openvas.Py.Order.{range}
use ospd_openvas.Py.Text.{codes, Text}
use ospd_openvas.Kb.Redis.{Redis, Context}

-- `DBINDEX_NAME`
abbrev pub dbindex_name : Text
dbindex_name = codes "GVM.__GlobalDBIndex"

abbrev pub main_ctx : Context
main_ctx = ctx_of 0

module _ (redis : Redis) where
  -- The property `max_database_index`, by what is kept of it.
  abbrev pub max_database_index : Option ℕ → redis.State → Result ℕ
  max_database_index (some max_dbindex) s = ok max_dbindex
  max_database_index none s = or_raise openvas_error (redis.config_get_databases s)

  -- `resp == 1`, where the command did not fail.
  unfoldable pub try_database : ℕ → redis.State → Result (Bool × redis.State)
  try_database index s = do
    let (answer, s1) = redis.hsetnx main_ctx dbindex_name index s
    resp ← or_raise openvas_error answer
    ok (resp == 1, s1)

  -- The loop of `get_new_kb_database`, by whether the database could be taken. `none` is None.
  abbrev pub take_or_next :
      ℕ
      → Bool × redis.State
      → (redis.State → Result (Option ℕ × redis.State))
      → Result (Option ℕ × redis.State)
  take_or_next index (true, s) rest = ok (some index, flush redis index s)
  take_or_next index (false, s) rest = rest s

  abbrev pub try_each : List ℕ → redis.State → Result (Option ℕ × redis.State)
  try_each [] s = ok (none, s)
  try_each (index ∷ indexes) s = do
    tried ← try_database index s
    take_or_next index tried (try_each indexes)

  unfoldable pub get_new_kb_database : Option ℕ → redis.State → Result (Option ℕ × redis.State)
  get_new_kb_database max_dbindex s = do
    max ← max_database_index max_dbindex s
    try_each (range 1 max) s

  abbrev pub find_each : Text → List ℕ → redis.State → Result (Option ℕ)
  find_each scan_id [] s = ok none
  find_each scan_id (index ∷ indexes) s = do
    count ← get_key_count redis (some (ctx_of index)) (some (internal scan_id)) s
    rest ← find_each scan_id indexes s
    ok (if count == 0 then rest else some index)

  unfoldable pub find_kb_database_by_scan_id : Option ℕ → Text → redis.State → Result (Option ℕ)
  find_kb_database_by_scan_id max_dbindex scan_id s = do
    max ← max_database_index max_dbindex s
    find_each scan_id (range 1 max) s

  abbrev pub error_code : Option Text → ℤ
  error_code current_status =
      if is_text (codes "finished") current_status
      then negsuc 0
      else if is_text (codes "stop_all") current_status || is_text (codes "ready") current_status
      then negsuc 1
      else pos 0

  abbrev pub status_of : Option ℕ → Text → redis.State → Result (Option Text)
  status_of none scan_id s = ok none
  status_of (some index) scan_id s = get_status redis index scan_id s

  unfoldable pub check_consistency : Option ℕ → Text → redis.State → Result (Option ℕ × ℤ)
  check_consistency max_dbindex scan_id s = do
    kb ← find_kb_database_by_scan_id max_dbindex scan_id s
    current_status ← status_of kb scan_id s
    ok (kb, error_code current_status)

  unfoldable pub release_database_by_index : ℕ → redis.State → redis.State
  release_database_by_index index = redis.hdel main_ctx dbindex_name index

  unfoldable pub release_database : ℕ → redis.State → redis.State
  release_database index s = flush redis index (release_database_by_index index s)

  unfoldable pub release : redis.State → redis.State
  release = release_database 0
