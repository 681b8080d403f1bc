-- ===== src/Locking/Tests.antt =====
-- internal/locking/lock.go: a lock that is held for a while, and one that stays held.
use vara.Base.{
  ℕ, zero, suc, ◌+◌, ◌≡◌, refl, true, false, none, some, [], ◌∷◌, bytes_eq, codes, erase, insert,
  lookup, ok, err, lock_timeout,
}
use vara.Fsutil.{Files}
use vara.Locking.{LockCalls, try_lock, acquire_with_timeout, acquire, backoff_at, name_refs}

-- A clock that goes on by the sleeps.
slept_at : ℕ → ℕ
slept_at zero = 0
slept_at (suc n) = slept_at n + backoff_at n

-- The other process lets the lock go in the third sleep.
abbrev lock_calls : LockCalls
lock_calls = record {
  mkdir = true;
  start = 0;
  fails = λ n. false;
  torn = λ n. none;
  clock = slept_at;
  others = elim [ zero ↦ λ files. files | suc n ↦ λ files. erase name_refs files ];
}

abbrev held : Files
held = (name_refs, codes "other") ∷ []

waits :
    acquire lock_calls (codes "me") 66 name_refs held
    ≡ some ((name_refs, codes "me") ∷ [], ok name_refs)
unfolding acquire_with_timeout try_lock slept_at backoff_at lookup insert erase bytes_eq
waits = refl

abbrev patient : LockCalls
patient = record lock_calls { others = λ n files. files }

-- The identifier cannot be written: the lock is taken all the same.
torn :
    acquire (record lock_calls { torn = λ n. some [] }) (codes "me") 66 name_refs []
    ≡ some ((name_refs, []) ∷ [], ok name_refs)
unfolding acquire_with_timeout try_lock insert lookup
torn = refl

times_out : acquire patient (codes "me") 66 name_refs held ≡ some (held, err lock_timeout)
unfolding acquire_with_timeout try_lock slept_at backoff_at lookup insert erase bytes_eq
times_out = refl
