-- ===== src/Lib.antt =====
-- VARA, a version control system in Go: a verification library of its core.
--
-- A repository is a store of immutable objects (blobs, trees and commits) named by the hash of
-- their bytes, with references that name commits. A merge finds a common ancestor in the graph of
-- commits, merges the lines of each file, and writes conflict markers that are resolved later.
--
-- The files, and the code that they model:
--   Base        shared: native numbers, lists, maps as association lists, byte strings, machine
--               words, the errors of internal/errors/errors.go and results that carry one
--   Hash        pkg/types/id.go: identifiers and their hexadecimal text
--   Object      pkg/object/{object,blob,tree,commit}.go: the canonical byte format, both ways;
--               Object/Store is pkg/object/store.go
--   Graph       pkg/graph/graph.go: Walker, collectAncestors, MergeBase, Generation
--   Lines       splitLines and equalLines, as pkg/diff and internal/conflict have them
--   Conflict    internal/conflict/{conflict,hunks}.go: Parse, HunkCount, Count, Assemble, Resolve
--   Diff        pkg/diff/{myers,threeway,diff}.go: myersDiff (Diff/Myers), extractChangeBlocks,
--               mergeChangeBlocks, and ThreeWayMerge (Diff/ThreeWay)
--               Diff/Trees is DiffTrees of diff.go, over the trees of two commits, and Diff/Files
--               says which files a tree has
--   Merge       internal/merge/merge.go: Merge and its three-way merge of two trees, over the
--               object store, the index and the files below the root of the repository, in one
--               map with MERGE_HEAD, since a tree may name any path there
--   MergeState  internal/mergestate/mergestate.go: the conflicts of a merge that are left
--   Fsutil      internal/fsutil/fsutil.go: WriteFile and renameFile
--   Refs        pkg/refs/refs.go: FSResolver and ValidateName
--   Index       pkg/index/index.go: the file of the staging area, both ways
--   Tree        pkg/tree/node.go: BuildFromIndex, the tree that a commit makes of the index
--   Transfer    pkg/transfer/enumerate.go: Enumerate, walkCommits, addTreeClosureExcluding
--               Transfer/Pack is pkg/transfer/pack.go, both ways
--   Gc          pkg/gc/gc.go: Collect, gatherRoots, listLooseObjects
--   Throttle    internal/server/throttle.go: failureLimiter
--   Authz       internal/authz: capabilities, policies, their cache and the decision
--   Locking     internal/locking/lock.go: lock files, with the wait for one
--   Transaction internal/transaction/transaction.go: locks and journal of a command
--   Recovery    pkg/recovery/recovery.go: ScanJournal, UndoTarget, HeadHistory, MERGE_HEAD
-- The children of a file hold its proofs, and Tests its runs and examples.
--
-- State is passed explicitly: the files of a directory are an association list from a path to a
-- content, a map of Go is an association list or, for a set, the list of its members. A result is
-- err with an error, or ok. The text of an error is not kept: one made in place is failure.
-- Numbers are the native naturals; a 32-bit or 64-bit field of the format is written with its
-- bytes, and the theorems that need its width say so; the durations of Throttle wrap as int64.
-- A call that can fail has each of its outcomes: Write of the store goes on where Stat fails,
-- Gc reads objects through read_on, where a read may fail, a lock may be taken without its
-- content, and a temporary file holds what the calls on it left. Where Go panics on a slice of
-- the base, the merge loop of Diff gives some none.
--
-- A loop with no bound in the code runs on fuel, and none says that the fuel ran out: the
-- searches of Graph need one more than the commits that can be reached, the merge loop of Diff
-- as many as there are blocks, Enumerate of Transfer one more than the objects, Resolve of
-- Refs two more than there are files, Acquire of Locking 66, one for each attempt in its 30
-- seconds. In Merge one fuel bounds the search for the base, the depth of the trees and the
-- merge loop of each file. The results below say where that is enough and where no fuel is.
-- The loops of the codec and of the parsers run on the length of their input, which each round
-- shortens.
--
-- Parameters: SHA-256 and zstd (pkg/hash and pkg/compression call libraries), filepath.Join,
-- the clock, the JSON encoder and decoder, the reflog, sort.Slice, the order in which Go
-- ranges over a map, what other processes do to lock files, and what each call of the
-- operating system does, which an outcome gives. The hypotheses on them are written at each
-- theorem.
--
-- Not modelled: directories (their creation is an outcome), file modes, Unicode white space,
-- the commands, the HTTP servers and clients, and of the subsystems over the core smart merge,
-- the graph index, the reflog's file format, snapshots and the writing of a built tree to the
-- store (pkg/builder).
pub mod Authz
pub mod Base
pub mod Conflict
pub mod Diff
pub mod Fsutil
pub mod Gc
pub mod Graph
pub mod Hash
pub mod Index
pub mod Lines
pub mod Locking
pub mod Merge
pub mod MergeState
pub mod Object
pub mod Recovery
pub mod Refs
pub mod Throttle
pub mod Transaction
pub mod Transfer
pub mod Tree
