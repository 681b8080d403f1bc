-- ===== src/Recovery.antt =====
-- pkg/recovery/recovery.go: unfinished transactions, and the change that the next undo reverses.
-- The reflog (pkg/reflog) and the JSON decoder are parameters.
pub mod Scanned
pub mod Undone
mod Tests
use vara.Base.{
  ℕ, zero, suc, ◌+◌, Bool, true, false, not, ◌&&◌, Option, none, some, List, [], ◌∷◌, ◌++◌, ◌==◌,
  ◌-◌, ltb, ◌||◌, if◌then◌else◌, Bytes, bytes_eq, codes, length, take, drop, leb, lookup, erase,
  is_empty,
}
use mathlib.Core.List.{reverse}
use vara.Hash.{BaseId}
use vara.Lines.{has_prefix}
use vara.Object.Store.{Files}
use vara.Diff.Trees.{zero_object}

-- `reflog.Entry`.
pub record LogEntry : Type 0 where
  pub old_id : BaseId
  pub new_id : BaseId
  pub author : Bytes
  pub timestamp : ℕ
  pub message : Bytes

abbrev pub undo_prefix : Bytes
undo_prefix = codes "undo: "

abbrev pub is_undo : LogEntry → Bool
is_undo e = has_prefix e.message undo_prefix

-- `ErrNoHistory` and `ErrFirstCommit`, or the entry.
pub data Target : Type 0 where
  no_history first_commit : Target
  reverses : LogEntry → Target

-- What is returned for the first entry that is not skipped.
abbrev pub target_of : LogEntry → Target
target_of e = if bytes_eq e.old_id zero_object then first_commit else reverses e

-- The loop of `UndoTarget`, newest entry first, for a reflog that is not empty.
unfoldable pub walk_log : ℕ → List LogEntry → Target
walk_log skip [] = first_commit
walk_log skip (e ∷ es) = elim (is_undo e) [
  | true ↦ walk_log (skip + 1) es
  | false ↦ elim (ltb 0 skip) [ true ↦ walk_log (skip - 1) es | false ↦ target_of e ]
]

-- `UndoTarget`, from the entries of the reflog, oldest first.
unfoldable pub undo_target : List LogEntry → Target
undo_target log = if is_empty log then no_history else walk_log 0 (reverse log)

-- `HeadHistory`.
abbrev pub head_history : List LogEntry → List LogEntry
head_history log = reverse log

abbrev pub state_complete : Bytes
state_complete = codes "COMPLETED"

abbrev pub state_failed : Bytes
state_failed = codes "FAILED"

-- `journalFile`; the state may be any text.
pub record JournalFile : Type 0 where
  pub id : Bytes
  pub state : Bytes
  pub command : Bytes

pub record PendingTransaction : Type 0 where
  pub id : Bytes
  pub state : Bytes
  pub command : Bytes
  pub path : Bytes

-- `os.DirEntry`.
pub record DirEntry : Type 0 where
  pub name : Bytes
  pub is_dir : Bool

-- `strings.HasSuffix`.
unfoldable pub has_suffix : Bytes → Bytes → Bool
has_suffix s suffix =
    leb (length suffix) (length s) && bytes_eq (drop (length s - length suffix) s) suffix

abbrev pub is_pending : JournalFile → Bool
is_pending txn = not (bytes_eq txn.state state_complete) && not (bytes_eq txn.state state_failed)

abbrev pub pending_of : Bytes → JournalFile → PendingTransaction
pending_of path txn = record { id = txn.id; state = txn.state; command = txn.command; path = path }

module _ (unmarshal : Bytes → Option JournalFile) (join : Bytes → Bytes → Bytes) where
  abbrev pub parse_entry : Option Bytes → Option JournalFile
  parse_entry none = none
  parse_entry (some bytes) = unmarshal bytes

  abbrev pub keep_pending :
      Bytes → Option JournalFile → List PendingTransaction → List PendingTransaction
  keep_pending path none rest = rest
  keep_pending path (some txn) rest = if is_pending txn then pending_of path txn ∷ rest else rest

  -- The loop of `ScanJournal`. An entry that cannot be read or parsed is passed over.
  unfoldable pub scan_entries : Bytes → List DirEntry → Files → List PendingTransaction
  scan_entries dir [] files = []
  scan_entries dir (e ∷ es) files =
      let rest = scan_entries dir es files in
      let path = join dir e.name in
      if e.is_dir || not (has_suffix e.name (codes ".json"))
      then rest
      else keep_pending path (parse_entry (lookup path files)) rest

-- `MergeInProgress` and `ClearMergeHead`, over the files of `.vara`; `removes` says whether
-- `os.Remove` succeeds on a file that is there.
abbrev pub merge_in_progress : Files → Bool
merge_in_progress vara_dir = elim (lookup (codes "MERGE_HEAD") vara_dir) [
  | none ↦ false
  | some _ ↦ true
]

unfoldable pub clear_merge_head : Bool → Files → Files × Bool
clear_merge_head removes vara_dir =
    if merge_in_progress vara_dir
    then if removes then (erase (codes "MERGE_HEAD") vara_dir, true) else (vara_dir, false)
    else (vara_dir, true)
