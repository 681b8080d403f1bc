-- ===== src/Transaction/Journals.antt =====
-- internal/transaction/transaction.go with pkg/recovery/recovery.go: what a scan of the
-- journals finds of a transaction.
use vara.Base.{
  ◌≡◌, true, false, Bool, Option, none, some, List, [], ◌∷◌, ltb, ◌&&◌, Bytes, bytes_eq, lookup,
  Error, Result, ok, err,
}
use vara.Fsutil.{Files}
use vara.Recovery.{JournalFile, PendingTransaction, parse_entry}
use vara.Recovery.Scanned.{Listed, Journaled}
use vara.Transaction.{
  Journal, Transaction, Operation, to_state, object, ref, state_complete, state_failed,
}

-- What is read from a journal.
abbrev pub journal_file : Journal → JournalFile
journal_file j = record { id = j.id; state = j.state; command = j.command }

-- Only ASCII characters. JSON keeps such a string as it is, and others too, but replaces what is no
-- UTF-8.
unfoldable pub is_ascii : Bytes → Bool
is_ascii [] = true
is_ascii (c ∷ cs) = ltb c 128 && is_ascii cs

-- The strings of a journal that a scan reads.
abbrev pub IsPlain : Journal → Type 0
IsPlain j = (is_ascii j.id ≡ true) × (is_ascii j.state ≡ true) × (is_ascii j.command ≡ true)

-- An operation that does not write a final state, and writes one of ASCII characters.
abbrev pub Unfinished : Operation → Type 0
Unfinished (to_state write s) =
    (is_ascii s ≡ true) × (bytes_eq s state_complete ≡ false) × (bytes_eq s state_failed ≡ false)
Unfinished (object id) = Unit
Unfinished (ref name commit_hex) = Unit

abbrev pub AllUnfinished : List Operation → Type 0
AllUnfinished [] = Unit
AllUnfinished (o ∷ os) = Unfinished o × AllUnfinished os

-- What `Commit` leaves to a scan: nothing to recover or, with an error, the transaction.
abbrev pub Settles : Bytes → Bytes → Option Error → List PendingTransaction → Type 0
Settles id path none pending = ¬ (Listed id path pending)
Settles id path (some x) pending = Listed id path pending

module _ (marshal : Journal → Bytes) (unmarshal : Bytes → Option JournalFile)
    (join : Bytes → Bytes → Bytes) (pid id path : Bytes)
    (reads : (j : Journal) → IsPlain j → unmarshal (marshal j) ≡ some (journal_file j))
    (id_ascii : is_ascii id ≡ true) where
  -- What the write of a state leaves: the journal in that state or, with an error, as it was.
  abbrev Wrote : Transaction → Bytes → Files → Files × Option Error → Type 0
  Wrote t at before (files, none) =
      parse_entry unmarshal join (lookup at files) ≡ some (journal_file t.journal)
  Wrote t at before (files, some x) = lookup at files ≡ lookup at before

  -- A transaction between Begin and its end, with its locks.
  abbrev Known : List Bytes → Transaction × Files → Type 0
  Known ps (t, files) =
      (t.journal.id ≡ id)
      × (t.journal_path ≡ path)
      × (t.locks ≡ ps)
      × IsPlain t.journal
      × Journaled unmarshal join id path true files

  -- A write of a state that is pending or not, behind a journal that is pending: the new state
  -- counts exactly if there is no error.
  abbrev now_pending : Bool → Option Error → Bool
  now_pending pending none = pending
  now_pending pending (some x) = true

  -- What `Begin` leaves.
  abbrev Begun : List Bytes → Files × Result Transaction → Type 0
  Begun ps (files, err x) = Unit
  Begun ps (files, ok t) = Known ps (t, files)
