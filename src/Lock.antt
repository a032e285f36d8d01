-- ===== src/Lock.antt =====
-- The lock file of the feed: ospd_openvas/lock.py. The file system and `flock` answer each attempt.
pub mod Exclusive
mod Tests
use ospd_openvas.Py.Result.{os_error, raise, ok, Result}
use ospd_openvas.Prelude.{true, false, ◌&&◌, Bool}

-- `_has_lock`, and whether `_fd` is an open file.
pub record LockFile : Type 0 where
  pub has_lock : Bool
  pub fd : Bool

-- `LOCK_EX | LOCK_NB`: the lock is granted, another holds it (BlockingIOError), or another error.
pub data Flock : Type 0 where
  granted blocked failed : Flock

-- Whether the directory could be created and the file could be opened, and the answer of `flock`.
pub record Attempt : Type 0 where
  pub mkdir : Bool
  pub opened : Bool
  pub flock : Flock

abbrev pub new_lock : LockFile
new_lock = record { has_lock = false; fd = false }

-- The end of `_acquire_lock`, with the file open. An error that is no BlockingIOError passes on.
abbrev pub lock_opened : Flock → LockFile → Result (Unit {0}) × LockFile
lock_opened granted lock = (ok tt, record lock { has_lock = true; fd = true })
lock_opened blocked lock = (ok tt, record lock { fd = false })
lock_opened failed lock = (raise os_error, record lock { fd = true })

-- Once the lock is held, and by whether the directory and the file are there. A file that could not
-- be opened leaves `_fd` as it was: an open one is closed.
abbrev pub acquire : Bool → Bool → Bool → Flock → LockFile → Result (Unit {0}) × LockFile
acquire true mkdir opened flock lock = (ok tt, lock)
acquire false false opened flock lock = (ok tt, lock)
acquire false true false flock lock = (ok tt, record lock { fd = false })
acquire false true true flock lock = lock_opened flock lock

unfoldable pub acquire_lock : Attempt → LockFile → Result (Unit {0}) × LockFile
acquire_lock attempt lock = acquire lock.has_lock attempt.mkdir attempt.opened attempt.flock lock

abbrev pub release : Bool → LockFile → LockFile
release false lock = lock
release true lock = record lock { has_lock = false; fd = false }

-- `_release_lock`
unfoldable pub release_lock : LockFile → LockFile
release_lock lock = release (lock.has_lock && lock.fd) lock
