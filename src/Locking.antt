-- ===== src/Locking.antt =====
-- internal/locking/lock.go: lock files. Another process may change the files while this one sleeps,
-- which is a parameter, as are the clock and what each call of the operating system does.
pub mod Waits
mod Tests
use vara.Base.{
  ℕ, zero, suc, ◌+◌, ◌*◌, Bool, true, false, Option, none, some, ltb, if◌then◌else◌, Bytes, codes,
  lookup, insert, erase, Error, Result, ok, err, failure, lock_timeout,
}
use vara.Fsutil.{Files}

abbrev pub name_repository : Bytes
name_repository = codes "locks/repository.lock"

abbrev pub name_refs : Bytes
name_refs = codes "locks/refs.lock"

abbrev pub name_index : Bytes
name_index = codes "locks/index.lock"

abbrev pub name_objects : Bytes
name_objects = codes "locks/objects.lock"

-- Durations in milliseconds.
abbrev pub default_timeout : ℕ
default_timeout = 30000

abbrev pub initial_backoff : ℕ
initial_backoff = 10

abbrev pub max_backoff : ℕ
max_backoff = 500

-- Of the n-th attempt: whether `OpenFile` fails for another reason than a file that is there; what
-- is in the file where `Fprintf` or `Sync` fails, whose errors are dropped (`none`: both succeed);
-- what the clock says then; and what the other processes do in the sleep after it.
pub record LockCalls : Type 0 where
  pub mkdir : Bool
  pub start : ℕ
  pub fails : ℕ → Bool
  pub torn : ℕ → Option Bytes
  pub clock : ℕ → ℕ
  pub others : ℕ → Files → Files

-- What is in a new lock file.
abbrev pub lock_content : Option Bytes → Bytes → Bytes
lock_content none pid = pid
lock_content (some content) pid = content

-- `LockFile`, of which only the path counts. `pid` is what this process writes.
abbrev pub LockFile : Type 0
LockFile = Bytes

abbrev pub next_backoff : ℕ → ℕ
next_backoff backoff = if ltb max_backoff (backoff * 2) then max_backoff else backoff * 2

module _ (calls : LockCalls) (pid : Bytes) where
  -- The loop; `none` says that the fuel ran out.
  unfoldable pub try_lock : ℕ → ℕ → ℕ → Bytes → Files → Option (Files × Result LockFile)
  try_lock zero deadline attempt path files = none
  try_lock (suc fuel) deadline attempt path files = elim (calls.fails attempt) [
    | true ↦ some (files, err failure)
    | false ↦ elim (lookup path files) [
      | none ↦ some (insert path (lock_content (calls.torn attempt) pid) files, ok path)
      | some _ ↦ elim (ltb deadline (calls.clock attempt)) [
        | true ↦ some (files, err lock_timeout)
        | false ↦ try_lock fuel deadline (attempt + 1) path (calls.others attempt files)
      ]
    ]
  ]

  -- `AcquireWithTimeout`, for the path that a name stands for.
  unfoldable pub acquire_with_timeout : ℕ → ℕ → Bytes → Files → Option (Files × Result LockFile)
  acquire_with_timeout fuel timeout path files =
      if calls.mkdir
      then try_lock fuel (calls.start + timeout) 0 path files
      else some (files, err failure)

  -- `Acquire`.
  abbrev pub acquire : ℕ → Bytes → Files → Option (Files × Result LockFile)
  acquire fuel path files = acquire_with_timeout fuel default_timeout path files

-- The sleep before the n-th attempt, but the first.
unfoldable pub backoff_at : ℕ → ℕ
backoff_at zero = initial_backoff
backoff_at (suc n) = next_backoff (backoff_at n)

-- `Release`, where `removes` says whether `os.Remove` succeeds; callers drop its error.
abbrev pub release : Bool → LockFile → Files → Files
release removes path files = if removes then erase path files else files
