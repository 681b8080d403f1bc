-- ===== src/Recovery/Scanned.antt =====
-- pkg/recovery/recovery.go: which transactions `ScanJournal` lists.
use vara.Base.{
  ◌≡◌, ◌⊎◌, inl, inr, refl, sym, ap, ◌∙◌, true, false, Bool, not, ◌||◌, Option, none, some, List,
  [], ◌∷◌, Bytes, codes, lookup, Bool-cases,
}
use vara.Object.Store.{Files}
use vara.Recovery.{
  JournalFile, PendingTransaction, DirEntry, has_suffix, is_pending, parse_entry, keep_pending,
  scan_entries,
}

some_inj {ℓ} : {A : Type ℓ} {a b : A} → some a ≡ some b → a ≡ b
some_inj h = cc h

-- An entry of the directory whose file is at the path.
abbrev pub Shows : (Bytes → Bytes → Bytes) → Bytes → Bytes → List DirEntry → Type 0
Shows join dir path [] = ⊥
Shows join dir path (e ∷ es) =
    ((e.is_dir ≡ false) × (has_suffix e.name (codes ".json") ≡ true) × (join dir e.name ≡ path))
    ⊎ Shows join dir path es

-- The transaction is among the pending ones.
abbrev pub Listed : Bytes → Bytes → List PendingTransaction → Type 0
Listed id path [] = ⊥
Listed id path (p ∷ ps) = ((p.id ≡ id) × (p.path ≡ path)) ⊎ Listed id path ps

module _ (unmarshal : Bytes → Option JournalFile) (join : Bytes → Bytes → Bytes) where
  -- The file at the path is a journal of the transaction, pending or not.
  abbrev pub Journaled : Bytes → Bytes → Bool → Files → Type 0
  Journaled id path pending files =
      (txn : JournalFile) × (parse_entry unmarshal join (lookup path files) ≡ some txn)
      × (txn.id ≡ id)
      × (is_pending txn ≡ pending)

  keep_pending-Listed :
      (id path at : Bytes) (found : Option JournalFile) (rest : List PendingTransaction)
      → Listed id path rest
      → Listed id path (keep_pending unmarshal join at found rest)
  keep_pending-Listed id path at none rest l = l
  keep_pending-Listed id path at (some txn) rest l = elim (Bool-cases (is_pending txn)) [
    | inl p ↦ rw p (inr l)
    | inr n ↦ rw n l
  ]

  Listed-keep_pending :
      (id path at : Bytes) (found : Option JournalFile) (rest : List PendingTransaction)
      → Listed id path (keep_pending unmarshal join at found rest)
      → Listed id path rest
        ⊎ ((at ≡ path) × ((txn : JournalFile) × (found ≡ some txn) × (is_pending txn ≡ true)))
  Listed-keep_pending id path at none rest l = inl l
  Listed-keep_pending id path at (some txn) rest l = elim (Bool-cases (is_pending txn)) [
    | inl p ↦ elim (rw p at l) [ inl (_, here) ↦ inr (here, (txn, refl, p)) | inr m ↦ inl m ]
    | inr n ↦ inl (rw n at l)
  ]

  pub scan_entries-Listed :
      (id path dir : Bytes) (files : Files) (entries : List DirEntry)
      → Journaled id path true files
      → Shows join dir path entries
      → Listed id path (scan_entries unmarshal join dir entries files)
  unfolding scan_entries
  scan_entries-Listed id path dir files [] j s = s
  scan_entries-Listed id path dir files (e ∷ es) (txn, parses, same, pending)
        (inl (file, json, here)) =
      rw (file, json, here, parses, pending) (inl (same, refl))
  scan_entries-Listed id path dir files (e ∷ es) j (inr s) =
      let later = scan_entries-Listed id path dir files es j s in
      elim (Bool-cases (e.is_dir || not (has_suffix e.name (codes ".json")))) [
        | inl skipped ↦ rw skipped later
        | inr read ↦ rw read (keep_pending-Listed id path _ _ _ later)
      ]

  pub scan_entries-unlisted :
      (id path dir : Bytes) (files : Files) (entries : List DirEntry)
      → Journaled id path false files
      → ¬ (Listed id path (scan_entries unmarshal join dir entries files))
  unfolding scan_entries
  scan_entries-unlisted id path dir files [] j l = l
  scan_entries-unlisted id path dir files (e ∷ es) (txn, parses, same, ended_) l =
      let later = scan_entries-unlisted id path dir files es (txn, parses, same, ended_) in
      elim (Bool-cases (e.is_dir || not (has_suffix e.name (codes ".json")))) [
        | inl skipped ↦ later (rw skipped at l)
        | inr read ↦
            elim (Listed-keep_pending id path (join dir e.name)
              (parse_entry unmarshal join (lookup (join dir e.name) files))
              (scan_entries unmarshal join dir es files) (rw read at l)) [
                | inl m ↦ later m
                | inr (here, (other, parses', pending)) ↦
                    let one : some other ≡ some txn = sym (rw here at parses') ∙ parses in
                    absurd (cc (sym pending ∙ ap is_pending (some_inj one) ∙ ended_))
              ]
      ]
