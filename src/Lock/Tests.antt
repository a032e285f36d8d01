-- ===== src/Lock/Tests.antt =====
-- Processes that want the feed lock, at concrete inputs.
use ospd_openvas.Lock.Exclusive.{
  try_acquire, freed-tried, start, Reachable-exclusive, freed, next, World, Reachable, tried,
}
use ospd_openvas.Prelude.{refl, false, ℕ, none, true, ◌≡◌}
use ospd_openvas.Lock.{new_lock, acquire_lock}

abbrev nobody : World
nobody = record { holder = none; locks = λ i. new_lock }

-- Process 1 has acquired the lock, and then process 2 has tried.
abbrev two_tries : World
two_tries = tried (tried nobody 1 true true) 2 true true

two_tries-Reachable : Reachable two_tries
two_tries-Reachable =
    next (next start (try_acquire nobody 1 true true))
      (try_acquire (tried nobody 1 true true) 2 true true)

only_first : ((two_tries.locks 1).has_lock ≡ true) × ((two_tries.locks 2).has_lock ≡ false)
unfolding acquire_lock
only_first = (refl, refl)

Reachable-exclusive_example : ◌≡◌ {A = ℕ} 1 1
unfolding only_first
Reachable-exclusive_example =
    Reachable-exclusive two_tries 1 1 two_tries-Reachable only_first.0 only_first.0

freed-tried_example : ((tried (freed two_tries 1) 2 true true).locks 2).has_lock ≡ true
freed-tried_example = freed-tried two_tries 1 2 two_tries-Reachable only_first.0
