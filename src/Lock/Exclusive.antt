-- ===== src/Lock/Exclusive.antt =====
-- At most one process holds the feed lock (ospd_openvas/lock.py).
use ospd_openvas.Prelude.{
  not, arith, ◌∙◌, sym, ◌&&◌, ◌==◌, false, if◌then◌else◌, ◌≡◌, some, true, ℕ, none, Bool, Option,
}
use ospd_openvas.Lock.{release_lock, blocked, acquire_lock, granted, Flock, LockFile, new_lock}

-- The processes by number, each with its lock file, and the one that `flock` has granted the lock.
pub record World : Type 0 where
  pub holder : Option ℕ
  pub locks : ℕ → LockFile

abbrev set_lock : ℕ → LockFile → (ℕ → LockFile) → ℕ → LockFile
set_lock i lock locks j = if j == i then lock else locks j

-- `flock` on a file of the process, while another process may hold the lock: it grants the lock only
-- if nobody holds it.
abbrev answer : Option ℕ → Flock
answer none = granted
answer (some i) = blocked

-- A process that holds the lock does not call `flock`.
abbrev holder_after : Bool → ℕ → Option ℕ → Option ℕ
holder_after true i holder = some i
holder_after false i holder = holder

-- Whether the process has closed its file, which it does behind `LOCK_UN`.
abbrev has_closed : LockFile → LockFile → Bool
has_closed old new = old.fd && not new.fd

-- A process that closes its file loses the lock if it is the holder. The lock of another stays.
abbrev unlocked : Bool → ℕ → Option ℕ → Option ℕ
unlocked false i holder = holder
unlocked true i none = none
unlocked true i (some j) = if j == i then none else some j

abbrev pub after_acquire : World → ℕ → LockFile → World
after_acquire w i new = record {
  holder = holder_after new.has_lock i w.holder;
  locks = set_lock i new w.locks;
}

abbrev pub tried : World → ℕ → Bool → Bool → World
tried w i mkdir opened =
    after_acquire w i
      (acquire_lock (record { mkdir = mkdir; opened = opened; flock = answer w.holder })
        (w.locks i)).1

abbrev pub after_release : World → ℕ → LockFile → World
after_release w i new = record {
  holder = unlocked (has_closed (w.locks i) new) i w.holder;
  locks = set_lock i new w.locks;
}

abbrev pub freed : World → ℕ → World
freed w i = after_release w i (release_lock (w.locks i))

-- A process tries to acquire the lock, whatever becomes of the file, or releases it.
pub data Step : World → World → Type 0 where
  try_acquire : (w : World) (i : ℕ) (mkdir opened : Bool) → Step w (tried w i mkdir opened)
  free : (w : World) (i : ℕ) → Step w (freed w i)

pub data Reachable : World → Type 0 where
  start : Reachable (record { holder = none; locks = λ i. new_lock })
  next : {w v : World} → Reachable w → Step w v → Reachable v

-- Who has the lock is the holder, with an open file.
abbrev IsConsistent : World → Type 0
IsConsistent w =
    (i : ℕ) → (w.locks i).has_lock ≡ true → ((w.locks i).fd ≡ true) × (w.holder ≡ some i)

IsConsistent-tried :
    (w : World) (i : ℕ) (mkdir opened : Bool)
    → IsConsistent w
    → IsConsistent (tried w i mkdir opened)
unfolding acquire_lock
IsConsistent-tried w i mkdir opened h j held = ground (arith, held, h i, h j)

IsConsistent-freed : (w : World) (i : ℕ) → IsConsistent w → IsConsistent (freed w i)
unfolding release_lock
IsConsistent-freed w i h j held = ground (arith, held, h i, h j)

IsConsistent-Step : {w v : World} → Step w v → IsConsistent w → IsConsistent v
IsConsistent-Step (try_acquire w i mkdir opened) h = IsConsistent-tried w i mkdir opened h
IsConsistent-Step (free w i) h = IsConsistent-freed w i h

IsConsistent-Reachable : {w : World} → Reachable w → IsConsistent w
IsConsistent-Reachable start = λ i held. cc
IsConsistent-Reachable (next r step) = IsConsistent-Step step (IsConsistent-Reachable r)

some-injective : {i j : ℕ} → some i ≡ some j → i ≡ j
some-injective e = cc

-- However the processes try to acquire the lock and release it, never do two of them have it.
pub Reachable-exclusive :
    (w : World) (i j : ℕ)
    → Reachable w
    → (w.locks i).has_lock ≡ true
    → (w.locks j).has_lock ≡ true
    → i ≡ j
Reachable-exclusive w i j r hi hj =
    let (_, first) = IsConsistent-Reachable r i hi in
    let (_, second) = IsConsistent-Reachable r j hj in some-injective (sym first ∙ second)

freed-holder :
    (w : World) (i : ℕ) → IsConsistent w → (w.locks i).has_lock ≡ true → (freed w i).holder ≡ none
unfolding release_lock
freed-holder w i h held = ground (arith, held, h i held)

tried-has_lock :
    (w : World) (j : ℕ) → w.holder ≡ none → ((tried w j true true).locks j).has_lock ≡ true
unfolding acquire_lock
tried-has_lock w j e = ground (arith, e)

-- When the process that has the lock releases it, the next process whose file can be opened gets it.
pub freed-tried :
    (w : World) (i j : ℕ)
    → Reachable w
    → (w.locks i).has_lock ≡ true
    → ((tried (freed w i) j true true).locks j).has_lock ≡ true
freed-tried w i j r held =
    tried-has_lock (freed w i) j (freed-holder w i (IsConsistent-Reachable r) held)
