-- ===== src/Transaction/Tests.antt =====
-- internal/transaction/transaction.go: a transaction on two locks.
use vara.Base.{
  ◌++◌, Option, length, take, drop, arith, ◌≡◌, refl, true, some, none, List, [], ◌∷◌, false, Bytes,
  bytes_eq, codes, lookup, insert, erase, ok,
}
use vara.Fsutil.{Files, WriteCalls, write_file, rename_file, rename_from}
use vara.Locking.{LockCalls, name_refs, name_index, try_lock, acquire_with_timeout}
use vara.Transaction.{
  Journal, Operation, to_state, object, Transaction, Calls, begin, acquire_all, flush_journal,
  new_transaction, commit, set_state, release_all,
}
use vara.Transaction.Ends.{Locked, transaction_locks}
use vara.Recovery.{JournalFile, DirEntry}
use vara.Transaction.Locks.{Held}

abbrev lock_calls : LockCalls
lock_calls = record {
  mkdir = true;
  start = 0;
  fails = λ n. false;
  torn = λ n. none;
  clock = λ n. 0;
  others = λ n files. files;
}

abbrev write_calls : WriteCalls
write_calls = record {
  open_ = true;
  write = none;
  sync = none;
  close = none;
  rename = λ n. true;
  left_over = none;
}

abbrev calls : Calls
calls = record { lock = λ p. lock_calls; mkdir = true; removes = λ p. true; write = write_calls }

-- A codec in place of JSON, without what a scan does not read.
abbrev marshal : Journal → Bytes
marshal j = length j.id ∷ length j.state ∷ j.id ++ (j.state ++ j.command)

abbrev unmarshal : Bytes → Option JournalFile
unmarshal (n ∷ m ∷ rest) =
    some (record { id = take n rest; state = take m (drop n rest); command = drop m (drop n rest) })
unmarshal _ = none

abbrev pid : Bytes
pid = codes "7"

abbrev paths : List Bytes
paths = name_refs ∷ name_index ∷ []

abbrev start : Files
start = (codes "HEAD", codes "main") ∷ []

abbrev made : Transaction
made = new_transaction marshal pid (codes "t") (codes "t.json") (codes "merge") paths

abbrev open_files : Files
open_files =
    (codes "HEAD", codes "main")
    ∷ (name_refs, pid)
    ∷ (name_index, pid)
    ∷ (codes "t.json", marshal made.journal)
    ∷ []

begins :
    begin marshal pid calls (codes "t") (codes "t.json") (codes "merge") paths start
    ≡ some (open_files, ok made)
unfolding begin acquire_all flush_journal write_file rename_file rename_from acquire_with_timeout
    try_lock lookup insert erase bytes_eq
begins = refl

commits :
    (commit marshal pid write_calls calls.removes made open_files).0.1
    ≡ (codes "HEAD", codes "main")
      ∷ (codes "t.json", marshal (record (made.journal) { state = codes "COMPLETED" }))
      ∷ []
unfolding commit set_state release_all flush_journal write_file rename_file rename_from lookup
    insert erase bytes_eq
commits = refl

start-Held : Held pid [] start
unfolding lookup bytes_eq
start-Held q = (λ e. ground arith, λ m. absurd m)

transaction_locks_example :
    Locked marshal pid (codes "t.json") paths calls.removes (open_files, ok made)
transaction_locks_example =
    transaction_locks marshal pid calls (λ p n files q. (λ e. e, λ e. e)) (λ p n. refl) (λ p. refl)
      (codes "t") (codes "t.json") (codes "merge") paths start (open_files, ok made) start-Held
      begins

abbrev steps : List Operation
steps = object (codes "o") ∷ to_state write_calls (codes "COMMIT") ∷ []

abbrev entries : List DirEntry
entries = record { name = codes "t.json"; is_dir = false } ∷ []

abbrev join : Bytes → Bytes → Bytes
join dir name = name
