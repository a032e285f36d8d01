-- ===== src/Kb/OpenvasDb.antt =====
-- The class `OpenvasDB` of ospd_openvas/db.py: queries that check their arguments first. A context
-- may be None, and a missing argument is a RequiredArgument.
use ospd_openvas.Prelude.{
  zero, length, if◌then◌else◌, some, suc, false, [], ◌∷◌, none, true, ℕ, Bool, Option, List,
}
use mathlib.Core.List.{reverse}
use ospd_openvas.Py.Result.{ok, required_argument, ◌>>=◌, or_raise, refuse_if, Result}
use ospd_openvas.Py.Text.{codes, Text}
use ospd_openvas.Py.Order.{range}
use ospd_openvas.Kb.Redis.{Context, Redis}

-- `not x`, of a text or a list.
abbrev pub no_items {ℓ} : {A : Type ℓ} → List A → Bool
no_items [] = true
no_items (x ∷ xs) = false

-- `if not x: raise RequiredArgument(..)`
abbrev pub required {ℓ} : {A : Type ℓ} → List A → Result (Unit {0})
required xs = refuse_if (no_items xs) required_argument

abbrev pub connected : Option Context → Result Context
connected = or_raise required_argument

module _ (redis : Redis) where
  unfoldable pub get_list_item : Option Context → Text → redis.State → Result (List Text)
  get_list_item ctx name s = do c ← connected ctx; _ ← required name; ok (redis.lrange c name s)

  unfoldable pub get_last_list_item :
      Option Context → Text → redis.State → Result (Option Text × redis.State)
  get_last_list_item ctx name s = do c ← connected ctx; _ ← required name; ok (redis.rpop c name s)

  -- The two commands of the pipeline are one transaction. The number of deleted keys tells whether
  -- the list was there.
  abbrev pub popped : ℕ → List Text → List Text
  popped zero results = []
  popped (suc n) results = reverse results

  unfoldable pub pop_list_items :
      Option Context → Text → redis.State → Result (List Text × redis.State)
  pop_list_items ctx name s = do
    c ← connected ctx
    _ ← required name
    let (redis_return_code, s1) = redis.delete c name s
    ok (popped redis_return_code (redis.lrange c name s), s1)

  abbrev pub pattern_or_all : Option Text → Text
  pattern_or_all none = codes "*"
  pattern_or_all (some []) = codes "*"
  pattern_or_all (some (c ∷ text)) = c ∷ text

  unfoldable pub get_key_count : Option Context → Option Text → redis.State → Result ℕ
  get_key_count ctx text s = do
    c ← connected ctx
    ok (length (redis.keys c (pattern_or_all text) s))

  unfoldable pub remove_list_item : Option Context → Text → Text → redis.State → Result redis.State
  remove_list_item ctx key value s = do
    c ← connected ctx
    _ ← required key
    _ ← required value
    ok (redis.lrem c key value s)

  unfoldable pub get_single_item : Option Context → Text → redis.State → Result (Option Text)
  get_single_item ctx name s = do c ← connected ctx; _ ← required name; ok (redis.lindex c name s)

  unfoldable pub add_single_list :
      Option Context → Text → List Text → redis.State → Result redis.State
  add_single_list ctx name values s = do
    c ← connected ctx
    _ ← required name
    _ ← required values
    ok (redis.rpush c name values (redis.delete c name s).1)

  abbrev pub push_set : Bool → Context → Text → List Text → redis.State → redis.State
  push_set true c name values s = redis.lpush c name (redis.elements values) s
  push_set false c name values s = redis.rpush c name (redis.elements values) s

  unfoldable pub add_single_item :
      Option Context → Text → List Text → Bool → redis.State → Result redis.State
  add_single_item ctx name values lpush s = do
    c ← connected ctx
    _ ← required name
    _ ← required values
    ok (push_set lpush c name values s)

  unfoldable pub set_single_item :
      Option Context → Text → List Text → redis.State → Result redis.State
  set_single_item ctx name value s = do
    c ← connected ctx
    _ ← required name
    _ ← required value
    ok (redis.rpush c name (redis.elements value) (redis.delete c name s).1)

  abbrev pub with_items : Context → redis.State → List Text → List (Text × List Text)
  with_items c s [] = []
  with_items c s (item ∷ items) = (item, redis.lrange c item s) ∷ with_items c s items

  unfoldable pub get_pattern :
      Option Context → Text → redis.State → Result (List (Text × List Text))
  get_pattern ctx text s = do
    c ← connected ctx
    _ ← required text
    ok (with_items c s (redis.keys c text s))

  -- `range(0, max_database_index)`, by what is left of it.
  abbrev pub find_from : Text → redis.State → List ℕ → Option ℕ
  find_from text s [] = none
  find_from text s (i ∷ indexes) =
      if no_items (redis.keys (record { index = i; utf8 = false }) text s)
      then find_from text s indexes
      else some i

  -- The context that is found has the index.
  unfoldable pub find_database_by_pattern : Text → ℕ → redis.State → Option ℕ
  find_database_by_pattern text max_database_index s = find_from text s (range 0 max_database_index)
