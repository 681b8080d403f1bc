-- ===== src/Transaction/Ends.antt =====
-- internal/transaction/transaction.go: the locks from `Begin` to the end of the transaction.
use vara.Base.{
  ℕ, ◌≡◌, refl, sym, ap, ◌∙◌, true, false, Bool, Option, none, some, List, [], ◌∷◌, Bytes,
  Bool-cases, Option-cases, Result, ok, err, subst, inl, inr,
}
use vara.Fsutil.{Files, WriteCalls}
use vara.Transaction.{
  Journal, Transaction, Calls, Operation, to_state, object, ref, release_all, flush_journal,
  acquire_all, new_transaction, begin_journal, begin, state_complete, state_failed, set_state,
  ended, commit, rollback_unless, rollback, apply_operation, run_operations,
}
use vara.Transaction.Locks.{
  SameHeld, Held, HeldBeside, acquire_all-Acquired, release_all-HeldBeside,
  flush_journal-HeldBeside, some_inj,
}

module _ (marshal : Journal → Bytes) (pid : Bytes) (path : Bytes) (ps : List Bytes) where
  -- A transaction that holds its locks.
  abbrev pub Open : Transaction × Files → Type 0
  Open (t, files) =
      (t.journal_path ≡ path)
      × (t.locks ≡ ps)
      × (t.committed ≡ false)
      × HeldBeside marshal pid path ps files

  set_state-Open :
      (write : WriteCalls) (s : Bytes) (t : Transaction) (files : Files)
      → Open (t, files)
      → Open ((set_state marshal pid write s t files).0, (set_state marshal pid write s t files).1)
  unfolding set_state
  set_state-Open write s t files (at, locks, active, held) =
      let t' : Transaction = record t { journal = record (t.journal) { state = s } } in
      (
        at,
        locks,
        active,
        subst
            (λ (x : Bytes).
              HeldBeside marshal pid x ps (flush_journal marshal pid write t' files).0)
            at
            (flush_journal-HeldBeside marshal pid write t' ps files
              (subst (λ (x : Bytes). HeldBeside marshal pid x ps files) (sym at) held)),
      )

  apply_operation-Open :
      (o : Operation) (t : Transaction) (files : Files)
      → Open (t, files)
      → Open (apply_operation marshal pid o (t, files))
  apply_operation-Open (to_state write s) t files h = set_state-Open write s t files h
  apply_operation-Open (object id) t files h = h
  apply_operation-Open (ref name commit_hex) t files h = h

  run_operations-Open :
      (os : List Operation) (t : Transaction) (files : Files)
      → Open (t, files)
      → Open (run_operations marshal pid os (t, files))
  unfolding run_operations
  run_operations-Open [] t files h = h
  run_operations-Open (o ∷ os) t files h =
      let s = apply_operation marshal pid o (t, files) in
      run_operations-Open os s.0 s.1 (apply_operation-Open o t files h)

  -- A transaction that has let its locks go: a further `Rollback` does nothing.
  abbrev pub Closed : Transaction × Files → Type 0
  Closed (t, files) = (t.committed ≡ true) × (t.locks ≡ []) × HeldBeside marshal pid path [] files

  module _ (removes : Bytes → Bool) (removed : (p : Bytes) → removes p ≡ true) where
    ended-Closed :
        (t : Transaction) (files : Files)
        → Open (t, files)
        → Closed (ended marshal pid removes t files)
    ended-Closed t files (at, locks, active, held) = (
      refl,
      refl,
      subst
          (λ (ls : List Bytes).
            HeldBeside marshal pid path [] (release_all marshal pid removes ls files))
          (sym locks) (release_all-HeldBeside marshal pid path removes ps files removed held),
    )

    commit-Closed :
        (write : WriteCalls) (t : Transaction) (files : Files)
        → Open (t, files)
        → Closed (commit marshal pid write removes t files).0
    unfolding commit
    commit-Closed write t files h =
        let s = set_state marshal pid write state_complete t files in
        ended-Closed s.0 s.1 (set_state-Open write state_complete t files h)

    rollback-Closed :
        (write : WriteCalls) (t : Transaction) (files : Files)
        → Open (t, files)
        → Closed (rollback marshal pid write removes t files)
    unfolding rollback_unless
    rollback-Closed write t files h =
        let s = set_state marshal pid write state_failed t files in
        subst (λ (b : Bool). Closed (rollback_unless marshal pid b write removes t files)) (sym h.2)
          (ended-Closed s.0 s.1 (set_state-Open write state_failed t files h))

    rollback_again :
        (write : WriteCalls) (t : Transaction) (files : Files)
        → Closed (t, files)
        → rollback marshal pid write removes t files ≡ (t, files)
    unfolding rollback_unless
    rollback_again write t files h =
        ap (λ (b : Bool). rollback_unless marshal pid b write removes t files) h.0

-- After `Begin`: with an error no lock is held; else the locks of the paths are, and stay so until
-- `Commit` or `Rollback`, which lets all of them go, and behind which `Rollback` does nothing.
abbrev pub Locked :
    (Journal → Bytes)
    → Bytes
    → Bytes
    → List Bytes
    → (Bytes → Bool)
    → Files × Result Transaction
    → Type 0
Locked marshal pid path ps removes (files, err x) = HeldBeside marshal pid path [] files
Locked marshal pid path ps removes (files, ok t) =
    (os : List Operation) (write again : WriteCalls)
    → let s = run_operations marshal pid os (t, files) in
      let c = (commit marshal pid write removes s.0 s.1).0 in
      let r = rollback marshal pid write removes s.0 s.1 in
      HeldBeside marshal pid path ps s.1
      × HeldBeside marshal pid path [] c.1
      × (rollback marshal pid again removes c.0 c.1 ≡ c)
      × HeldBeside marshal pid path [] r.1
      × (rollback marshal pid again removes r.0 r.1 ≡ r)

module _ (marshal : Journal → Bytes) (pid : Bytes) (calls : Calls)
    (fair : (p : Bytes) (n : ℕ) (files : Files)
      → SameHeld pid files ((calls.lock p).others n files))
    (whole : (p : Bytes) (n : ℕ) → (calls.lock p).torn n ≡ none)
    (removed : (p : Bytes) → calls.removes p ≡ true) where
  Locked-Open :
      (path : Bytes) (ps : List Bytes) (t : Transaction) (files : Files)
      → Open marshal pid path ps (t, files)
      → Locked marshal pid path ps calls.removes (files, ok t)
  Locked-Open path ps t files h os write again =
      let s = run_operations marshal pid os (t, files) in
      let active = run_operations-Open marshal pid path ps os t files h in
      let c = commit-Closed marshal pid path ps calls.removes removed write s.0 s.1 active in
      let r = rollback-Closed marshal pid path ps calls.removes removed write s.0 s.1 active in
      (
        active.3,
        c.2,
        rollback_again marshal pid path ps calls.removes removed again _ _ c,
        r.2,
        rollback_again marshal pid path ps calls.removes removed again _ _ r,
      )

  begin_journal-Locked :
      (id path command : Bytes) (ps : List Bytes) (files : Files)
      → HeldBeside marshal pid path ps files
      → Locked marshal pid path ps calls.removes
          (begin_journal marshal pid calls (new_transaction marshal pid id path command ps) files)
  begin_journal-Locked id path command ps files h =
      let t = new_transaction marshal pid id path command ps in
      let w = flush_journal marshal pid calls.write t files in
      let kept = flush_journal-HeldBeside marshal pid calls.write t ps files h in
      elim (Bool-cases calls.mkdir) [
        | inr no_dir ↦
            rw no_dir (release_all-HeldBeside marshal pid path calls.removes ps files removed h)
        | inl dir ↦ elim (Option-cases w.1) [
          | inl e ↦ rw (dir, e) (Locked-Open path ps t w.0 (refl, refl, refl, kept))
          | inr (x, e) ↦
              rw (dir, e)
                (release_all-HeldBeside marshal pid path calls.removes ps w.0 removed kept)
        ]
      ]

  -- If this process holds no lock, its identifier is written into each lock file that it makes,
  -- removing a lock file succeeds, and other processes leave the lock files of this one alone, then
  -- behind a `Begin` that returns an error it holds no lock; behind one
  -- that succeeds it holds exactly the locks of the paths through every operation, whatever the calls
  -- on the journal do, until `Commit` or `Rollback`, which leaves none, also with an error, and behind
  -- which a further `Rollback` changes nothing (the files of the journal apart).
  pub transaction_locks :
      (id path command : Bytes) (ps : List Bytes) (files : Files) (out : Files × Result Transaction)
      → Held pid [] files
      → begin marshal pid calls id path command ps files ≡ some out
      → Locked marshal pid path ps calls.removes out
  unfolding begin
  transaction_locks id path command ps files out none_held e =
      go (acquire_all marshal pid calls ps [] files) refl
    where
      go :
          (r : Option (Files × Result (List Bytes)))
          → acquire_all marshal pid calls ps [] files ≡ r
          → Locked marshal pid path ps calls.removes out
      go none a = absurd (cc (rw (a, begin) at e))
      go (some (f, err x)) a =
          let h =
            acquire_all-Acquired marshal pid calls fair whole removed ps [] files (f, err x)
              none_held a in
          subst (Locked marshal pid path ps calls.removes) (some_inj (rw (a, begin) at e))
            (λ q b c. h q)
      go (some (f, ok ls)) a =
          let (same, h) =
            acquire_all-Acquired marshal pid calls fair whole removed ps [] files (f, ok ls)
              none_held a in
          subst (Locked marshal pid path ps calls.removes)
            (ap
                (λ (l : List Bytes).
                  begin_journal marshal pid calls (new_transaction marshal pid id path command l) f)
                (sym same)
              ∙ some_inj (rw (a, begin) at e))
            (begin_journal-Locked id path command ps f (λ q b c. h q))
