-- ===== src/Kb/Delivery.antt =====
-- The results and the host states of a scan on their way from the scanner to the daemon
-- (`get_result` and `get_scan_status` of ospd_openvas/db.py): the scanner pushes at the front of a
-- list, and the daemon takes the whole list.
use ospd_openvas.Kb.Redis.{Context, count_of, ListLaws, Redis}
use ospd_openvas.Prelude.{append_assoc, append-nil, ◌∙◌, ap, refl, sym, ◌∷◌, ◌≡◌, [], ◌++◌, ℕ, List}
use ospd_openvas.Py.Result.{◌>>=◌, ok, Result}
use ospd_openvas.Kb.BaseKbDb.{ctx_of}
use ospd_openvas.Kb.KbDb.{get_scan_status, get_result}
use ospd_openvas.Py.Text.{codes, Text}
use ospd_openvas.Kb.OpenvasDb.{popped}
use mathlib.Core.List.{reverse, reverse-append, reverse-reverse}
use ospd_openvas.Kb.BaseKbDb
use ospd_openvas.Kb.OpenvasDb

-- The two lists.
pub data Channel : Type 0 where
  results status : Channel

-- What the scanner and the daemon do, in the order in which the server sees it.
pub data Event : Type 0 where
  push : List Text → Event
  fetch : Event

abbrev pub name_of : Channel → Text
name_of results = codes "internal/results"
name_of status = codes "internal/status"

abbrev pub pushed : List Event → List Text
pushed [] = []
pushed (push values ∷ events) = values ++ pushed events
pushed (fetch ∷ events) = pushed events

module _ (redis : Redis) where
  abbrev pub pop_channel : Channel → ℕ → redis.State → Result (List Text × redis.State)
  pop_channel results index = get_result redis index
  pop_channel status index = get_scan_status redis index

  -- What all the fetches give, and the state at the end.
  abbrev pub run_events : Channel → ℕ → List Event → redis.State → Result (List Text × redis.State)
  run_events channel index [] s = ok ([], s)
  run_events channel index (push values ∷ events) s =
      run_events channel index events (redis.lpush (ctx_of index) (name_of channel) values s)
  run_events channel index (fetch ∷ events) s = do
    (got, s1) ← pop_channel channel index s
    (rest, s2) ← run_events channel index events s1
    ok (got ++ rest, s2)

  popped-count_of : (l : List Text) → popped redis (count_of l) l ≡ reverse l
  popped-count_of [] = refl
  popped-count_of (x ∷ l) = refl

  all_popped :
      (ctx : Context) (name : Text) (s : redis.State)
      → ListLaws redis
      → popped redis (redis.delete ctx name s).0 (redis.lrange ctx name s)
        ≡ reverse (redis.lrange ctx name s)
  all_popped ctx name s laws =
      ap (λ n. popped redis n (redis.lrange ctx name s)) (laws.delete_count ctx name s)
      ∙ popped-count_of (redis.lrange ctx name s)

  pop_channel-reverse :
      (channel : Channel) (index : ℕ) (s : redis.State)
      → ListLaws redis
      → pop_channel channel index s
        ≡ ok (
          reverse (redis.lrange (ctx_of index) (name_of channel) s),
          (redis.delete (ctx_of index) (name_of channel) s).1,
        )
  unfolding get_result get_scan_status BaseKbDb.pop_list_items OpenvasDb.pop_list_items
  pop_channel-reverse results index s laws =
      ap (λ l. ok (l, (redis.delete (ctx_of index) (name_of results) s).1))
        (all_popped (ctx_of index) (name_of results) s laws)
  pop_channel-reverse status index s laws =
      ap (λ l. ok (l, (redis.delete (ctx_of index) (name_of status) s).1))
        (all_popped (ctx_of index) (name_of status) s laws)

  -- Whatever pushes of the scanner and fetches of the daemon follow one another, no fetch fails, and
  -- what the fetches gave, followed by what is left with the oldest first, is what there was
  -- followed by what was pushed, in the order of the pushes.
  pub run_events-pushed :
      (channel : Channel) (index : ℕ) (events : List Event) (s : redis.State)
      → ListLaws redis
      → (got : List Text) × (last : redis.State) × (run_events channel index events s
          ≡ ok (got, last))
        × (got ++ reverse (redis.lrange (ctx_of index) (name_of channel) last)
            ≡ reverse (redis.lrange (ctx_of index) (name_of channel) s) ++ pushed events)
  run_events-pushed channel index [] s laws = ([], s, refl, sym (append-nil _))
  run_events-pushed channel index (push values ∷ events) s laws =
      let ctx = ctx_of index in
      let name = name_of channel in
      let old = redis.lrange ctx name s in
      let (got, last, run, same) =
        run_events-pushed channel index events (redis.lpush ctx name values s) laws in
      let order : reverse (redis.lrange ctx name (redis.lpush ctx name values s))
          ≡ reverse old ++ values =
        ap reverse (laws.lrange_lpush ctx name values s)
        ∙ reverse-append (reverse values) old
        ∙ ap (λ l. reverse old ++ l) (reverse-reverse values) in
      (
        got,
        last,
        run,
        same
            ∙ ap (λ l. l ++ pushed events) order
            ∙ append_assoc (reverse old) values (pushed events),
      )
  run_events-pushed channel index (fetch ∷ events) s laws =
      let ctx = ctx_of index in
      let name = name_of channel in
      let old = redis.lrange ctx name s in
      let s1 = (redis.delete ctx name s).1 in
      let (rest, last, run, same) = run_events-pushed channel index events s1 laws in
      (
        reverse old ++ rest,
        last,
        rw (pop_channel-reverse channel index s laws) (rw run refl),
        append_assoc (reverse old) rest (reverse (redis.lrange ctx name last))
            ∙ ap (λ l. reverse old ++ l)
                (same ∙ ap (λ l. reverse l ++ pushed events) (laws.lrange_delete ctx name s)),
      )
