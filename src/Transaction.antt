-- ===== src/Transaction.antt =====
-- internal/transaction/transaction.go: the locks and the journal of a transaction. The names of the
-- locks stand for their paths; the JSON encoder, the clock, from which the identifier of a
-- transaction is made, and the calls of the operating system are parameters.
pub mod Locks
pub mod Ends
pub mod Journals
mod Tests
use vara.Base.{
  ℕ, Bool, true, false, Option, none, some, List, [], ◌∷◌, ◌++◌, if◌then◌else◌, Bytes, codes,
  insert, Error, Result, ok, err, failure,
}
use vara.Fsutil.{Files, WriteCalls, write_file}
use vara.Locking.{LockCalls, LockFile, acquire, release}

abbrev pub state_begin : Bytes
state_begin = codes "BEGIN"

abbrev pub state_complete : Bytes
state_complete = codes "COMPLETED"

abbrev pub state_failed : Bytes
state_failed = codes "FAILED"

-- `journal`.
pub record Journal : Type 0 where
  pub id : Bytes
  pub state : Bytes
  pub command : Bytes
  pub objects : List Bytes
  pub refs : List (Bytes × Bytes)

pub record Transaction : Type 0 where
  pub journal : Journal
  pub journal_path : Bytes
  pub locks : List LockFile
  pub committed : Bool

-- What the calls of the operating system do, for the lock of each path and for the journal.
pub record Calls : Type 0 where
  pub lock : Bytes → LockCalls
  pub mkdir : Bool
  pub removes : Bytes → Bool
  pub write : WriteCalls

-- What a command does with a transaction between `Begin` and its end; it may go on after an error
-- of `SetState`.
pub data Operation : Type 0 where
  to_state : WriteCalls → Bytes → Operation
  object : Bytes → Operation
  ref : Bytes → Bytes → Operation

-- `marshal` is `json.MarshalIndent`, which does not fail on a journal; `pid` is what this process
-- writes in its lock files.
module _ (marshal : Journal → Bytes) (pid : Bytes) where
  -- The loop that releases the locks.
  unfoldable pub release_all : (Bytes → Bool) → List LockFile → Files → Files
  release_all removes [] files = files
  release_all removes (l ∷ ls) files = release_all removes ls (release (removes l) l files)

  unfoldable pub flush_journal : WriteCalls → Transaction → Files → Files × Option Error
  flush_journal write t files =
      write_file 20 write (t.journal_path ++ codes ".tmp") t.journal_path (marshal t.journal) files

  -- The loop that acquires the locks, with those that are held.
  unfoldable pub acquire_all :
      Calls → List Bytes → List LockFile → Files → Option (Files × Result (List LockFile))
  acquire_all calls [] held files = some (files, ok held)
  acquire_all calls (p ∷ ps) held files = elim (acquire (calls.lock p) pid 66 p files) [
    | none ↦ none
    | some (files', err x) ↦ some (release_all calls.removes held files', err x)
    | some (files', ok l) ↦ acquire_all calls ps (held ++ l ∷ []) files'
  ]

  abbrev pub new_transaction : Bytes → Bytes → Bytes → List LockFile → Transaction
  new_transaction id path command locks = record {
    journal = record { id = id; state = state_begin; command = command; objects = []; refs = [] };
    journal_path = path;
    locks = locks;
    committed = false;
  }

  -- `Begin` after the first `flush_journal`.
  abbrev pub begun : Calls → Transaction → Files × Option Error → Files × Result Transaction
  begun calls t (files, some x) = (release_all calls.removes t.locks files, err x)
  begun calls t (files, none) = (files, ok t)

  -- `Begin` once the locks are held.
  abbrev pub begin_journal : Calls → Transaction → Files → Files × Result Transaction
  begin_journal calls t files =
      if calls.mkdir
      then begun calls t (flush_journal calls.write t files)
      else (release_all calls.removes t.locks files, err failure)

  abbrev pub with_locks :
      Calls
      → (List LockFile → Transaction)
      → Option (Files × Result (List LockFile))
      → Option (Files × Result Transaction)
  with_locks calls make none = none
  with_locks calls make (some (files, err x)) = some (files, err x)
  with_locks calls make (some (files, ok locks)) = some (begin_journal calls (make locks) files)

  -- `Begin`: `id` is made from the clock, and `path` is the journal's path for it.
  unfoldable pub begin :
      Calls → Bytes → Bytes → Bytes → List Bytes → Files → Option (Files × Result Transaction)
  begin calls id path command lock_paths files =
      with_locks calls (new_transaction id path command) (acquire_all calls lock_paths [] files)

  unfoldable pub set_state :
      WriteCalls → Bytes → Transaction → Files → Transaction × Files × Option Error
  set_state write s t files =
      let t' : Transaction = record t { journal = record (t.journal) { state = s } } in
      let (files', e) = flush_journal write t' files in (t', files', e)

  abbrev pub track_object : Bytes → Transaction → Transaction
  track_object id t = record t {
    journal = record (t.journal) { objects = t.journal.objects ++ id ∷ [] };
  }

  abbrev pub track_ref : Bytes → Bytes → Transaction → Transaction
  track_ref name commit t = record t {
    journal = record (t.journal) { refs = insert name commit t.journal.refs };
  }

  -- The end of `Commit` and of `Rollback`.
  abbrev pub ended : (Bytes → Bool) → Transaction → Files → Transaction × Files
  ended removes t files =
      (record t { locks = []; committed = true }, release_all removes t.locks files)

  unfoldable pub commit :
      WriteCalls → (Bytes → Bool) → Transaction → Files → (Transaction × Files) × Option Error
  unfolding set_state
  commit write removes t files =
      let (t', files', e) = set_state write state_complete t files in (ended removes t' files', e)

  -- `Rollback`, from `committed`.
  unfoldable pub rollback_unless :
      Bool → WriteCalls → (Bytes → Bool) → Transaction → Files → Transaction × Files
  unfolding set_state
  rollback_unless true write removes t files = (t, files)
  rollback_unless false write removes t files =
      let (t', files', _) = set_state write state_failed t files in ended removes t' files'

  abbrev pub rollback : WriteCalls → (Bytes → Bool) → Transaction → Files → Transaction × Files
  rollback write removes t files = rollback_unless t.committed write removes t files

  abbrev pub apply_operation : Operation → Transaction × Files → Transaction × Files
  apply_operation (to_state write s) (t, files) =
      let (t', files', _) = set_state write s t files in (t', files')
  apply_operation (object id) (t, files) = (track_object id t, files)
  apply_operation (ref name commit_hex) (t, files) = (track_ref name commit_hex t, files)

  unfoldable pub run_operations : List Operation → Transaction × Files → Transaction × Files
  run_operations [] s = s
  run_operations (o ∷ os) s = run_operations os (apply_operation o s)
