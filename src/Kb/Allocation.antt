-- ===== src/Kb/Allocation.antt =====
-- Taking and releasing knowledge bases (`MainDB` of ospd_openvas/db.py): the hash in database 0 is an
-- allocator of the other databases.
use ospd_openvas.Kb.First.{first_in-range, IsLeast, first_in_cong, first_in}
use ospd_openvas.Prelude.{
  sym, zero, ◌-◌, suc, ◌≢◌, ◌<◌, ◌⊎◌, subst, refl, ==_iff, inr, [], ◌∷◌, inl, none, ap,
  if◌then◌else◌, arith, Bool-cases, ◌∙◌, ◌==◌, not, some, false, ◌||◌, true, All, ◌≤◌, ◌≡◌, Bool, ℕ,
  List, Option,
}
use ospd_openvas.Py.Result.{ok-injective, ok}
use ospd_openvas.Kb.MainDb.{
  release_database_by_index, release_database, get_new_kb_database, max_database_index,
  dbindex_name, try_each, main_ctx, try_database,
}
use ospd_openvas.Py.Order.{range, count_up}
use ospd_openvas.Py.Text.{Text}
use ospd_openvas.Kb.BaseKbDb.{ctx_of, flush}
use ospd_openvas.Kb.Redis.{Context, HashLaws, Redis}

abbrev pub is_found : Option ℕ → ℕ → Bool
is_found none i = false
is_found (some j) i = i == j

le_or_above : (i index : ℕ) → (i ≤ index) ⊎ (index < i)
le_or_above i index = omega arith

module _ (redis : Redis) where
  -- The abstract view: which databases are in use.
  abbrev pub in_use : redis.State → ℕ → Bool
  in_use s i = redis.hexists main_ctx dbindex_name i s

  -- The allocator's promise: the database is in use too, it is empty, and no other database changes.
  pub record IsTaken (found : Option ℕ) (s new : redis.State) : Type 0 where
    pub taken : (i : ℕ) → in_use new i ≡ (in_use s i || is_found found i)
    pub lists :
        (ctx : Context) (key : Text)
        → redis.lrange ctx key new
          ≡ (if is_found found ctx.index then [] else redis.lrange ctx key s)

  try_database-answer :
      (index : ℕ) (s : redis.State)
      → HashLaws redis
      → try_database redis index s
        ≡ ok (not (in_use s index), (redis.hsetnx main_ctx dbindex_name index s).1)
  unfolding try_database
  try_database-answer index s laws =
      let answer = laws.hsetnx_answer main_ctx dbindex_name index s in
      elim (Bool-cases (in_use s index)) [
        | inl e ↦ rw answer (rw e refl)
        | inr e ↦ rw answer (rw e refl)
      ]

  flush-IsTaken :
      (index : ℕ) (s : redis.State)
      → HashLaws redis
      → 1 ≤ index
      → IsTaken (some index) s (flush redis index (redis.hsetnx main_ctx dbindex_name index s).1)
  unfolding flush
  flush-IsTaken index s laws h =
      let s1 = (redis.hsetnx main_ctx dbindex_name index s).1 in
      record {
        taken = λ i.
            laws.flushdb_hexists (ctx_of index) main_ctx dbindex_name i s1
            ∙ ground (arith, h, laws.hsetnx_hexists main_ctx dbindex_name index i s);
        lists = λ ctx key.
            laws.flushdb_lrange (ctx_of index) ctx key s1
            ∙ ap (λ l. if ctx.index == index then [] else l)
                (laws.hsetnx_lrange main_ctx dbindex_name index ctx key s);
      }

  hsetnx-in_use :
      (index : ℕ) (s : redis.State)
      → HashLaws redis
      → in_use s index ≡ true
      → (i : ℕ) → in_use (redis.hsetnx main_ctx dbindex_name index s).1 i ≡ in_use s i
  hsetnx-in_use index s laws e i =
      laws.hsetnx_hexists main_ctx dbindex_name index i s ∙ elim (Bool-cases (i == index)) [
        | inl k ↦ let same : i ≡ index = (==_iff i index).0 k in rw k (rw same (rw e refl))
        | inr k ↦ rw k (ground arith)
      ]

  -- A database that is in use stays as it is.
  IsTaken-after :
      (found : Option ℕ) (index : ℕ) (s new : redis.State)
      → HashLaws redis
      → in_use s index ≡ true
      → IsTaken found (redis.hsetnx main_ctx dbindex_name index s).1 new
      → IsTaken found s new
  IsTaken-after found index s new laws e t = record {
    taken = λ i. t.taken i ∙ ap (λ b. b || is_found found i) (hsetnx-in_use index s laws e i);
    lists = λ ctx key.
        t.lists ctx key
        ∙ ap (λ l. if is_found found ctx.index then [] else l)
            (laws.hsetnx_lrange main_ctx dbindex_name index ctx key s);
  }

  try_each-first :
      (indexes : List ℕ) (s : redis.State)
      → HashLaws redis
      → All (λ i. 1 ≤ i) indexes
      → (new : redis.State) × (try_each redis indexes s
          ≡ ok (first_in (λ i. not (in_use s i)) indexes, new))
        × IsTaken (first_in (λ i. not (in_use s i)) indexes) s new
  try_each-first [] s laws h =
      (s, refl, record { taken = λ i. ground arith; lists = λ ctx key. refl })
  try_each-first (index ∷ indexes) s laws (h, hs) = elim (Bool-cases (in_use s index)) [
    | inl e ↦
        let s1 = (redis.hsetnx main_ctx dbindex_name index s).1 in
        let (new, run, t) = try_each-first indexes s1 laws hs in
        let same : first_in (λ i. not (in_use s1 i)) indexes
            ≡ first_in (λ i. not (in_use s i)) indexes =
          first_in_cong _ _ indexes (λ i. ap not (hsetnx-in_use index s laws e i)) in
        (
          new,
          rw (try_database-answer index s laws) (rw e (run ∙ ap (λ f. ok (f, new)) same)),
          rw e (IsTaken-after _ index s new laws e (subst (λ f. IsTaken f s1 new) same t)),
        )
    | inr e ↦ (
      flush redis index (redis.hsetnx main_ctx dbindex_name index s).1,
      rw (try_database-answer index s laws) (rw e refl),
      rw e (flush-IsTaken index s laws h),
    )
  ]

  count_up-positive : (a n : ℕ) → 1 ≤ a → All (λ i. 1 ≤ i) (count_up a n)
  unfolding count_up
  count_up-positive a zero h = tt
  count_up-positive a (suc n) h = (h, count_up-positive (suc a) n (omega (arith, h)))

  -- Where the server has a number of databases, `get_new_kb_database` implements the allocator: it
  -- gives the least index from 1 on that is not in use, or None where all are in use; then this
  -- database is in use and empty, and no other one has changed.
  pub get_new_kb_database-IsLeast :
      (max_dbindex : Option ℕ) (max : ℕ) (s : redis.State)
      → HashLaws redis
      → max_database_index redis max_dbindex s ≡ ok max
      → 1 ≤ max
      → (found : Option ℕ) × (new : redis.State) × (get_new_kb_database redis max_dbindex s
          ≡ ok (found, new))
        × IsLeast (λ i. not (in_use s i)) 1 max found
        × IsTaken found s new
  unfolding get_new_kb_database range
  get_new_kb_database-IsLeast max_dbindex max s laws e h =
      let (new, run, t) =
        try_each-first (range 1 max) s laws (count_up-positive 1 (max - 1) (omega arith)) in
      (
        first_in (λ i. not (in_use s i)) (range 1 max),
        new,
        rw e run,
        first_in-range (λ i. not (in_use s i)) max h,
        t,
      )

  release_database-in_use :
      (index : ℕ) (s : redis.State)
      → HashLaws redis
      → 1 ≤ index
      → in_use (release_database redis index s) index ≡ false
  unfolding release_database release_database_by_index flush
  release_database-in_use index s laws h =
      laws.flushdb_hexists (ctx_of index) main_ctx dbindex_name index
        (redis.hdel main_ctx dbindex_name index s)
      ∙ ground (arith, h, laws.hdel_hexists main_ctx dbindex_name index index s)

  least_of_free :
      (p : ℕ → Bool) (max index : ℕ) (found : Option ℕ)
      → IsLeast p 1 max found
      → 1 ≤ index
      → index < max
      → p index ≡ true
      → (i : ℕ) × (found ≡ some i) × (i ≤ index)
  least_of_free p max index none least h k free = ground (arith, least index h k, free)
  least_of_free p max index (some i) (le, lt, t, before) h k free = elim (le_or_above i index) [
    | inl small ↦ (i, refl, small)
    | inr above ↦ ground (arith, before index h above, free)
  ]

  -- Once a database is released, the next call gives a database, whose index is not above the
  -- released one.
  pub get_new_kb_database-release_database :
      (max_dbindex : Option ℕ) (max index : ℕ) (s : redis.State)
      → HashLaws redis
      → max_database_index redis max_dbindex (release_database redis index s) ≡ ok max
      → 1 ≤ index
      → index < max
      → (i : ℕ) × (new : redis.State) × (get_new_kb_database redis max_dbindex
            (release_database redis index s)
          ≡ ok (some i, new))
        × (i ≤ index)
  get_new_kb_database-release_database max_dbindex max index s laws e h k =
      let s1 = release_database redis index s in
      let (found, new, run, least, _) =
        get_new_kb_database-IsLeast max_dbindex max s1 laws e (omega (arith, h, k)) in
      let (i, same, small) =
        least_of_free (λ i. not (in_use s1 i)) max index found least h k
          (ap not (release_database-in_use index s laws h)) in
      (i, new, run ∙ ap (λ f. ok (f, new)) same, small)

  -- The database that was given is in use afterwards, and was not before.
  given-in_use :
      (max_dbindex : Option ℕ) (max : ℕ) (s s1 : redis.State) (i : ℕ)
      → HashLaws redis
      → max_database_index redis max_dbindex s ≡ ok max
      → 1 ≤ max
      → get_new_kb_database redis max_dbindex s ≡ ok (some i, s1)
      → (in_use s i ≡ false) × (in_use s1 i ≡ true)
  given-in_use max_dbindex max s s1 i laws e h run =
      let (found, new, r, least, t) = get_new_kb_database-IsLeast max_dbindex max s laws e h in
      let both = ok-injective (sym r ∙ run) in
      let same : found ≡ some i = ap (λ pair. pair.0) both in
      let last : new ≡ s1 = ap (λ pair. pair.1) both in
      let (_, _, free, _) = subst (IsLeast (λ k. not (in_use s k)) 1 max) same least in
      let t1 : IsTaken (some i) s s1 =
        subst (λ f. IsTaken f s s1) same (subst (λ n. IsTaken found s n) last t) in
      (ground (arith, free), ground (arith, t1.taken i))

  -- Two calls that follow one another do not give the same database.
  pub get_new_kb_database-distinct :
      (max_dbindex : Option ℕ) (max : ℕ) (s s1 s2 : redis.State) (i j : ℕ)
      → HashLaws redis
      → max_database_index redis max_dbindex s ≡ ok max
      → max_database_index redis max_dbindex s1 ≡ ok max
      → 1 ≤ max
      → get_new_kb_database redis max_dbindex s ≡ ok (some i, s1)
      → get_new_kb_database redis max_dbindex s1 ≡ ok (some j, s2)
      → i ≢ j
  get_new_kb_database-distinct max_dbindex max s s1 s2 i j laws e e1 h run run1 same =
      let (_, taken) = given-in_use max_dbindex max s s1 i laws e h run in
      let (free, _) = given-in_use max_dbindex max s1 s2 j laws e1 h run1 in
      ground (arith, taken, free, ap (in_use s1) same)
