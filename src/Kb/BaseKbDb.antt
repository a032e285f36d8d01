-- ===== src/Kb/BaseKbDb.antt =====
-- The classes `BaseDB` and `BaseKbDB` of ospd_openvas/db.py: the queries of `OpenvasDB` on a
-- database that is connected.
use ospd_openvas.Prelude.{Bool, some, Option, false, List, ℕ}
use ospd_openvas.Py.Result.{Result}
use ospd_openvas.Py.Text.{Text}
use ospd_openvas.Kb.Redis.{Context, Redis}
use ospd_openvas.Kb.OpenvasDb

-- `self.index` and `self.ctx`: the context is connected to the database of the index.
abbrev pub ctx_of : ℕ → Context
ctx_of index = record { index = index; utf8 = false }

module _ (redis : Redis) where
  unfoldable pub flush : ℕ → redis.State → redis.State
  flush index = redis.flushdb (ctx_of index)

  -- The encoding of a context cannot be changed: for utf-8 there is a new one.
  unfoldable pub add_single_item : ℕ → Text → List Text → Bool → redis.State → Result redis.State
  add_single_item index name values utf8_enc =
      OpenvasDb.add_single_item redis (some (record { index = index; utf8 = utf8_enc })) name values
        false

  unfoldable pub set_single_item : ℕ → Text → List Text → redis.State → Result redis.State
  set_single_item index = OpenvasDb.set_single_item redis (some (ctx_of index))

  unfoldable pub get_single_item : ℕ → Text → redis.State → Result (Option Text)
  get_single_item index = OpenvasDb.get_single_item redis (some (ctx_of index))

  unfoldable pub get_list_item : ℕ → Text → redis.State → Result (List Text)
  get_list_item index = OpenvasDb.get_list_item redis (some (ctx_of index))

  unfoldable pub pop_list_items : ℕ → Text → redis.State → Result (List Text × redis.State)
  pop_list_items index = OpenvasDb.pop_list_items redis (some (ctx_of index))

  unfoldable pub remove_list_item : ℕ → Text → Text → redis.State → Result redis.State
  remove_list_item index = OpenvasDb.remove_list_item redis (some (ctx_of index))
