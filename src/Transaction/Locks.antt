-- ===== src/Transaction/Locks.antt =====
-- internal/transaction/transaction.go: the locks that a transaction holds.
use vara.Base.{
  ℕ, zero, suc, ◌+◌, ◌≡◌, ◌↔◌, inl, inr, refl, sym, ap, ◌∙◌, true, false, Bool, Option, none, some,
  List, [], ◌∷◌, ◌++◌, arith, ltb, if◌then◌else◌, Bytes, bytes_eq, bytes_eq_iff, codes, contains,
  contains_iff, Member, Member-append, lookup, insert, erase, lookup-insert, lookup-erase,
  Bool-cases, Option-cases, Result, ok, err, failure, subst,
}
use mathlib.Core.List.{append-nil, append_assoc}
use vara.Fsutil.{Files, WriteCalls, write_file_atomic}
use vara.Locking.{LockCalls, LockFile, try_lock, acquire_with_timeout, acquire, default_timeout}
use vara.Transaction.{Journal, Transaction, Calls, release_all, flush_journal, acquire_all}

-- This process's lock files are the same in both.
abbrev pub SameHeld : Bytes → Files → Files → Type 0
SameHeld pid f g = (q : Bytes) → (lookup q g ≡ some pid) ↔ (lookup q f ≡ some pid)

SameHeld-trans :
    (pid : Bytes) (f g h : Files) → SameHeld pid f g → SameHeld pid g h → SameHeld pid f h
SameHeld-trans pid f g h a b = λ q. (λ e. (a q).0 ((b q).0 e), λ e. (b q).1 ((a q).1 e))

-- An attempt, from the files right before it.
abbrev Tried : Bytes → Bytes → Files → Files × Result LockFile → Type 0
Tried pid p before (files', err x) = files' ≡ before
Tried pid p before (files', ok l) =
    (l ≡ p) × (lookup p before ≡ none) × (files' ≡ insert p pid before)

pub some_inj {ℓ} : {A : Type ℓ} {a b : A} → some a ≡ some b → a ≡ b
some_inj h = cc h

module _ (pid : Bytes) (calls : LockCalls)
    (fair : (n : ℕ) (files : Files) → SameHeld pid files (calls.others n files))
    (whole : (n : ℕ) → calls.torn n ≡ none) where
  abbrev Tries : Bytes → Files → Files × Result LockFile → Type 0
  Tries p files out = (before : Files) × SameHeld pid files before × Tried pid p before out

  try_lock-Tries :
      (fuel deadline attempt : ℕ) (p : Bytes) (files : Files) (out : Files × Result LockFile)
      → try_lock calls pid fuel deadline attempt p files ≡ some out
      → Tries p files out
  unfolding try_lock
  try_lock-Tries zero deadline attempt p files out h = absurd (cc h)
  try_lock-Tries (suc fuel) deadline attempt p files out h =
      elim (Bool-cases (calls.fails attempt)) [
        | inl bad ↦
            subst (Tries p files) (some_inj (rw (bad, try_lock) at h))
              (files, λ q. (λ x. x, λ x. x), refl)
        | inr fine ↦ elim (Option-cases (lookup p files)) [
          | inl free ↦
              subst (Tries p files) (some_inj (rw (fine, free, whole attempt, try_lock) at h))
                (files, λ q. (λ x. x, λ x. x), (refl, free, refl))
          | inr (content, held) ↦ elim (Bool-cases (ltb deadline (calls.clock attempt))) [
            | inl late ↦
                subst (Tries p files) (some_inj (rw (fine, held, late, try_lock) at h))
                  (files, λ q. (λ x. x, λ x. x), refl)
            | inr early ↦
                let next = calls.others attempt files in
                let (before, same, tried) =
                  try_lock-Tries fuel deadline (attempt + 1) p next out
                    (rw (fine, held, early, try_lock) at h) in
                (before, SameHeld-trans pid files next before (fair attempt files) same, tried)
          ]
        ]
      ]

  acquire-Tries :
      (p : Bytes) (files : Files) (out : Files × Result LockFile)
      → acquire calls pid 66 p files ≡ some out
      → Tries p files out
  unfolding acquire_with_timeout
  acquire-Tries p files out h = elim (Bool-cases calls.mkdir) [
    | inr no_dir ↦
        subst (Tries p files) (some_inj (no no_dir ∙ h)) (files, λ q. (λ x. x, λ x. x), refl)
    | inl dir ↦ try_lock-Tries 66 (calls.start + default_timeout) 0 p files out (with_dir dir ∙ h)
  ]
    where
      no : calls.mkdir ≡ false → some (files, err failure) ≡ acquire calls pid 66 p files
      no e = ground arith

      with_dir :
          calls.mkdir ≡ true
          → try_lock calls pid 66 (calls.start + default_timeout) 0 p files
            ≡ acquire calls pid 66 p files
      with_dir e = ground arith

-- The paths at which the lock files of this process are.
abbrev pub Held : Bytes → List Bytes → Files → Type 0
Held pid ps files = (q : Bytes) → (lookup q files ≡ some pid) ↔ Member q ps

module _ (marshal : Journal → Bytes) (pid : Bytes) where
  pub lookup-release_all :
      (removes : Bytes → Bool) (ls : List LockFile) (files : Files) (q : Bytes)
      → ((p : Bytes) → removes p ≡ true)
      → lookup q (release_all marshal pid removes ls files)
        ≡ (if contains ls q then none else lookup q files)
  unfolding release_all contains
  lookup-release_all removes [] files q r = refl
  lookup-release_all removes (l ∷ ls) files q r =
      rw (r l, release_all)
        (lookup-release_all removes ls (erase l files) q r
          ∙ ground (arith, lookup-erase l q files, bytes_eq_iff l q))

  release_all-Held :
      (removes : Bytes → Bool) (ls : List LockFile) (files : Files)
      → ((p : Bytes) → removes p ≡ true)
      → Held pid ls files
      → Held pid [] (release_all marshal pid removes ls files)
  release_all-Held removes ls files r held q = (
    λ e. ground (arith, lookup-release_all removes ls files q r, held q, contains_iff ls q),
    λ m. absurd m,
  )

  -- The same, but for the files of the journal.
  abbrev pub HeldBeside : Bytes → List Bytes → Files → Type 0
  HeldBeside path ps files =
      (q : Bytes)
      → bytes_eq path q ≡ false
      → bytes_eq (path ++ codes ".tmp") q ≡ false
      → (lookup q files ≡ some pid) ↔ Member q ps

  pub release_all-HeldBeside :
      (path : Bytes) (removes : Bytes → Bool) (ls : List LockFile) (files : Files)
      → ((p : Bytes) → removes p ≡ true)
      → HeldBeside path ls files
      → HeldBeside path [] (release_all marshal pid removes ls files)
  release_all-HeldBeside path removes ls files r held q a b = (
    λ e. ground (arith, lookup-release_all removes ls files q r, held q a b, contains_iff ls q),
    λ m. absurd m,
  )

  pub flush_journal-HeldBeside :
      (write : WriteCalls) (t : Transaction) (ps : List Bytes) (files : Files)
      → HeldBeside t.journal_path ps files
      → HeldBeside t.journal_path ps (flush_journal marshal pid write t files).0
  unfolding flush_journal
  flush_journal-HeldBeside write t ps files held q a b =
      let path = t.journal_path in
      let tmp = path ++ codes ".tmp" in
      let same : lookup q (flush_journal marshal pid write t files).0 ≡ lookup q files =
        ground (arith, write_file_atomic 20 write tmp path (marshal t.journal) q files b) in
      rw same (held q a b)

  -- What `acquire_all` leaves.
  abbrev pub Acquired : List Bytes → Files × Result (List LockFile) → Type 0
  Acquired ps (files, ok ls) = (ls ≡ ps) × Held pid ps files
  Acquired ps (files, err x) = Held pid [] files

  module _ (calls : Calls)
      (fair : (p : Bytes) (n : ℕ) (files : Files)
        → SameHeld pid files ((calls.lock p).others n files))
      (whole : (p : Bytes) (n : ℕ) → (calls.lock p).torn n ≡ none)
      (removed : (p : Bytes) → calls.removes p ≡ true) where
    grown :
        (p : Bytes) (held : List Bytes) (files before : Files)
        → Held pid held files
        → SameHeld pid files before
        → Held pid (held ++ p ∷ []) (insert p pid before)
    grown p held files before h same q = ground (
      arith,
      lookup-insert p q pid before,
      bytes_eq_iff p q,
      h q,
      same q,
      Member-append q held (p ∷ []),
    )

    pub acquire_all-Acquired :
        (ps held : List Bytes) (files : Files) (out : Files × Result (List LockFile))
        → Held pid held files
        → acquire_all marshal pid calls ps held files ≡ some out
        → Acquired (held ++ ps) out
    unfolding acquire_all
    acquire_all-Acquired [] held files out h e = subst (Acquired (held ++ [])) (some_inj e) (
      sym (append-nil held),
      subst (λ (l : List Bytes). Held pid l files) (sym (append-nil held)) h,
    )
    acquire_all-Acquired (p ∷ ps) held files out h e =
        go (λ l f k e'. acquire_all-Acquired ps (held ++ l ∷ []) f out k e')
          (acquire (calls.lock p) pid 66 p files) refl
      where
        go :
            ((l : Bytes) (f : Files)
              → Held pid (held ++ l ∷ []) f
              → acquire_all marshal pid calls ps (held ++ l ∷ []) f ≡ some out
              → Acquired ((held ++ l ∷ []) ++ ps) out)
            → (r : Option (Files × Result LockFile)) → acquire (calls.lock p) pid 66 p files ≡ r
            → Acquired (held ++ p ∷ ps) out
        go later none a = absurd (cc (rw (a, acquire_all) at e))
        go later (some (f, err x)) a =
            let (before, same, tried) =
              acquire-Tries pid (calls.lock p) (fair p) (whole p) p files (f, err x) a in
            let still : Held pid held f =
              subst (Held pid held) (sym tried)
                (λ q. (λ y. (h q).0 ((same q).0 y), λ y. (same q).1 ((h q).1 y))) in
            subst (Acquired (held ++ p ∷ ps)) (some_inj (rw (a, acquire_all) at e))
              (release_all-Held calls.removes held f removed still)
        go later (some (f, ok l)) a =
            let (before, same, tried) =
              acquire-Tries pid (calls.lock p) (fair p) (whole p) p files (f, ok l) a in
            let now : Held pid (held ++ l ∷ []) f =
              rw (tried.0, tried.2) (grown p held files before h same) in
            subst (λ (ls : List Bytes). Acquired ls out)
              (append_assoc held (l ∷ []) ps ∙ ap (λ (x : Bytes). held ++ x ∷ ps) tried.0)
              (later l f now (rw (a, acquire_all) at e))
