-- ===== src/Kb/Redis.antt =====
-- The commands of Redis that ospd_openvas/db.py sends, and what it relies on. A connection that breaks
-- is not part of the interface, but for `hsetnx`, whose failure the code handles.
use ospd_openvas.Prelude.{
  not, ◌&&◌, ◌==◌, ◌||◌, if◌then◌else◌, some, [], ◌++◌, none, ◌∷◌, Option, Bool, ◌≡◌, List, ℕ,
}
use mathlib.Core.List.{reverse}
use ospd_openvas.Py.TextList.{NoRepeat, has_text}
use ospd_openvas.Py.Text.{Text}

-- A connection: the index of its database, and whether its texts are encoded as utf-8 or as latin-1.
pub record Context : Type 0 where
  pub index : ℕ
  pub utf8 : Bool

-- All the databases of the server, and the commands. `elements` is the order in which Python goes
-- over the set of some values.
pub record Redis : Type 1 where
  pub State : Type 0
  pub elements : List Text → List Text
  pub lrange : Context → Text → State → List Text
  pub lindex : Context → Text → State → Option Text
  pub rpush : Context → Text → List Text → State → State
  pub lpush : Context → Text → List Text → State → State
  pub lrem : Context → Text → Text → State → State
  pub rpop : Context → Text → State → Option Text × State
  pub delete : Context → Text → State → ℕ × State
  pub keys : Context → Text → State → List Text
  pub flushdb : Context → State → State
  pub hsetnx : Context → Text → ℕ → State → Option ℕ × State
  pub hdel : Context → Text → ℕ → State → State
  pub hexists : Context → Text → ℕ → State → Bool
  pub config_get_databases : State → Option ℕ

abbrev pub head_of : List Text → Option Text
head_of [] = none
head_of (x ∷ xs) = some x

-- 1 for a key that was there.
abbrev pub count_of : List Text → ℕ
count_of [] = 0
count_of (x ∷ xs) = 1

-- The documented effects on a list: a list without elements is no key.
pub record ListLaws (redis : Redis) : Type 0 where
  pub lindex_head :
      (ctx : Context) (name : Text) (s : redis.State)
      → redis.lindex ctx name s ≡ head_of (redis.lrange ctx name s)
  pub lrange_rpush :
      (ctx : Context) (name : Text) (values : List Text) (s : redis.State)
      → redis.lrange ctx name (redis.rpush ctx name values s) ≡ redis.lrange ctx name s ++ values
  pub lrange_lpush :
      (ctx : Context) (name : Text) (values : List Text) (s : redis.State)
      → redis.lrange ctx name (redis.lpush ctx name values s)
        ≡ reverse values ++ redis.lrange ctx name s
  pub lrange_delete :
      (ctx : Context) (name : Text) (s : redis.State)
      → redis.lrange ctx name (redis.delete ctx name s).1 ≡ []
  pub delete_count :
      (ctx : Context) (name : Text) (s : redis.State)
      → (redis.delete ctx name s).0 ≡ count_of (redis.lrange ctx name s)

-- The values of a set are those given, each once.
pub record SetLaws (redis : Redis) : Type 0 where
  pub elements_same :
      (value : Text) (values : List Text)
      → has_text value (redis.elements values) ≡ has_text value values
  pub elements_once : (values : List Text) → NoRepeat (redis.elements values)

-- The documented effects on the fields of a hash, and of `FLUSHDB`.
pub record HashLaws (redis : Redis) : Type 0 where
  pub hsetnx_answer :
      (ctx : Context) (name : Text) (field : ℕ) (s : redis.State)
      → (redis.hsetnx ctx name field s).0 ≡ some (if redis.hexists ctx name field s then 0 else 1)
  pub hsetnx_hexists :
      (ctx : Context) (name : Text) (field other : ℕ) (s : redis.State)
      → redis.hexists ctx name other (redis.hsetnx ctx name field s).1
        ≡ (redis.hexists ctx name other s || (other == field))
  pub hsetnx_lrange :
      (ctx : Context) (name : Text) (field : ℕ) (other : Context) (key : Text) (s : redis.State)
      → redis.lrange other key (redis.hsetnx ctx name field s).1 ≡ redis.lrange other key s
  pub hdel_hexists :
      (ctx : Context) (name : Text) (field other : ℕ) (s : redis.State)
      → redis.hexists ctx name other (redis.hdel ctx name field s)
        ≡ (redis.hexists ctx name other s && not (other == field))
  pub flushdb_lrange :
      (ctx other : Context) (key : Text) (s : redis.State)
      → redis.lrange other key (redis.flushdb ctx s)
        ≡ (if other.index == ctx.index then [] else redis.lrange other key s)
  pub flushdb_hexists :
      (ctx other : Context) (key : Text) (field : ℕ) (s : redis.State)
      → redis.hexists other key field (redis.flushdb ctx s)
        ≡ (not (other.index == ctx.index) && redis.hexists other key field s)
