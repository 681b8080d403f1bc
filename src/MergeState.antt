-- ===== src/MergeState.antt =====
-- internal/mergestate/mergestate.go: the record of the conflicts of a merge, in `.vara/CONFLICTS`. The
-- JSON codec and what each call of the operating system does are parameters.
pub mod Settled
pub mod Kept
mod Tests
use vara.Base.{
  ℕ, Bool, true, false, not, ◌&&◌, ◌||◌, ◌==◌, Option, none, some, List, [], ◌∷◌, ◌++◌,
  if◌then◌else◌, Bytes, bytes_eq, codes, contains, lookup, insert, erase, Error, Result, ok, err,
  failure,
}
use vara.Fsutil.{Files}
use vara.Merge.{WriteOutcome, complete, unopened, torn}

abbrev pub file_name : Bytes
file_name = codes "CONFLICTS"

abbrev pub current_version : ℕ
current_version = 1

-- `Kind`, a string.
abbrev pub Kind : Type 0
Kind = Bytes

abbrev pub kind_content : Kind
kind_content = codes "content"

abbrev pub kind_modify_delete : Kind
kind_modify_delete = codes "modify_delete"

-- `Side`.
pub record MergeSide : Type 0 where
  pub present : Bool
  pub blob : Bytes

-- `Entry`.
pub record Conflicted : Type 0 where
  pub path : Bytes
  pub kind : Kind
  pub base : MergeSide
  pub ours : MergeSide
  pub theirs : MergeSide
  pub resolved : Bool

pub record State : Type 0 where
  pub version : ℕ
  pub our_label : Bytes
  pub their_label : Bytes
  pub entries : List Conflicted
  pub merge_touched : List Bytes

-- `Paths`.
unfoldable pub paths : List Conflicted → List Bytes
paths [] = []
paths (e ∷ es) = e.path ∷ paths es

-- `UnresolvedPaths`.
unfoldable pub unresolved_paths : List Conflicted → List Bytes
unresolved_paths [] = []
unresolved_paths (e ∷ es) =
    let rest = unresolved_paths es in if e.resolved then rest else e.path ∷ rest

-- `AllResolved`.
unfoldable pub all_resolved : List Conflicted → Bool
all_resolved [] = true
all_resolved (e ∷ es) = let rest = all_resolved es in if e.resolved then rest else false

-- `Lookup`.
unfoldable pub lookup_entry : List Conflicted → Bytes → Option Conflicted
lookup_entry [] p = none
lookup_entry (e ∷ es) p = let rest = lookup_entry es p in if bytes_eq e.path p then some e else rest

abbrev found : Option Conflicted → Bool
found none = false
found (some e) = true

-- `MergeInvolved`.
abbrev pub merge_involved : State → Bytes → Bool
merge_involved s p = contains s.merge_touched p || found (lookup_entry s.entries p)

-- The loop of `SetResolved`, and whether it met the path.
unfoldable pub set_resolved : Bytes → Bool → List Conflicted → List Conflicted × Bool
set_resolved p flag [] = ([], false)
set_resolved p flag (e ∷ es) =
    let (rest, met) = set_resolved p flag es in
    if bytes_eq e.path p then (record e { resolved = flag } ∷ es, true) else (e ∷ rest, met)

-- What the calls of one `Write` do.
pub record StateCalls : Type 0 where
  pub write_file : WriteOutcome
  pub rename : Bool
  pub remove : Bool

abbrev pub tmp_name : Bytes
tmp_name = codes "CONFLICTS.tmp"

-- The version that `Write` fills in.
abbrev pub versioned : State → State
versioned s = record s { version = if s.version == 0 then current_version else s.version }

module _ (marshal : State → Bytes) (unmarshal : Bytes → Option State) where
  -- `Write` from the bytes on.
  unfoldable pub write_data : StateCalls → Bytes → Files → Files × Option Error
  write_data calls content files = elim calls.write_file [
    | unopened ↦ (files, some failure)
    | torn left ↦ (insert tmp_name left files, some failure)
    | complete ↦ if calls.rename then (insert file_name content (erase tmp_name files), none) else (
      if calls.remove then erase tmp_name files else insert tmp_name content files,
      some failure,
    )
  ]

  -- `Write`, which leaves the version in the state.
  abbrev pub write_state : StateCalls → State → Files → State × Files × Option Error
  write_state calls s files =
      let out = write_data calls (marshal (versioned s) ++ 10 ∷ []) files in
      (versioned s, out.0, out.1)

  abbrev pub decoded : Option State → Result (Option State)
  decoded none = err failure
  decoded (some s) = ok (some s)

  -- `Read`; `reads` says whether a file that is there can be read.
  abbrev pub read_content : Bool → Option Bytes → Result (Option State)
  read_content reads none = ok none
  read_content true (some content) = decoded (unmarshal content)
  read_content false (some content) = err failure

  unfoldable pub read_state : Bool → Files → Result (Option State)
  read_state reads files = read_content reads (lookup file_name files)

  -- `Clear`.
  unfoldable pub clear_state : Bool → Files → Files × Option Error
  clear_state removes files = elim (lookup file_name files) [
    | none ↦ (files, none)
    | some _ ↦ elim removes [ true ↦ (erase file_name files, none) | false ↦ (files, some failure) ]
  ]
