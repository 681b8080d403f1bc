-- ===== src/Locking/Waits.antt =====
-- internal/locking/lock.go: how long `Acquire` waits, and what it holds then.
use vara.Base.{
  ℕ, zero, suc, ◌+◌, ◌≤◌, ◌≡◌, ◌⊎◌, none, some, Bytes, lookup, insert, Result, ok, err, failure,
  lock_timeout,
}
use vara.Fsutil.{Files}
use vara.Locking.{LockCalls, LockFile, lock_content, try_lock, backoff_at}

-- The sleeps before the n-th attempt, together.
waited : ℕ → ℕ
waited zero = 0
waited (suc n) = waited n + backoff_at n

-- What an attempt leaves: a lock that was free is this process's, or there is an error; after a
-- timeout the lock file of another one is there.
abbrev pub Settled : LockCalls → Bytes → Bytes → Files × Result LockFile → Type 0
Settled calls pid path (files', ok lock) =
    (lock ≡ path)
    × (before : Files) × (n : ℕ) × (lookup path before ≡ none)
    × (files' ≡ insert path (lock_content (calls.torn n) pid) before)
Settled calls pid path (files', err e) =
    (e ≡ failure) ⊎ (e ≡ lock_timeout) × (content : Bytes) × (lookup path files' ≡ some content)

module _ (calls : LockCalls) (pid : Bytes)
    (slept : (n : ℕ) → calls.clock n + backoff_at n ≤ calls.clock (n + 1)) where
  abbrev Returns : ℕ → ℕ → ℕ → Bytes → Files → Type 0
  Returns fuel deadline attempt path files =
      (out : Files × Result LockFile) × (try_lock calls pid fuel deadline attempt path files
        ≡ some out)
      × Settled calls pid path out
