-- ===== src/Recovery/Tests.antt =====
-- pkg/recovery/recovery.go: three changes, of which undo takes one after the other.
use mathlib.Core.List.{reverse}
use vara.Base.{◌≡◌, refl, [], ◌∷◌, ◌++◌, Bytes, bytes_eq, codes, drop}
use vara.Hash.{BaseId}
use vara.Recovery.{LogEntry, reverses, first_commit, undo_target, walk_log}
use vara.Lines.{has_prefix}
use vara.Recovery.Undone.{changes, top, undo_target-undone}

abbrev moved : BaseId → BaseId → Bytes → LogEntry
moved old new message = record {
  old_id = old;
  new_id = new;
  author = codes "ann";
  timestamp = 1;
  message = message;
}

abbrev one : LogEntry
one = moved (1 ∷ []) (2 ∷ []) (codes "commit: b")

abbrev two : LogEntry
two = moved (2 ∷ []) (3 ∷ []) (codes "commit: c")

abbrev undone : LogEntry
undone = moved (3 ∷ []) (2 ∷ []) (codes "undo: commit: c")

after_undo : undo_target (one ∷ two ∷ undone ∷ []) ≡ reverses one
unfolding undo_target walk_log has_prefix bytes_eq
after_undo = refl

after_two : undo_target (one ∷ two ∷ undone ∷ undone ∷ []) ≡ first_commit
unfolding undo_target walk_log has_prefix bytes_eq
after_two = refl

undo_target-undone_example :
    undo_target (one ∷ two ∷ [] ++ undone ∷ []) ≡ top (drop 1 (changes (reverse (one ∷ two ∷ []))))
unfolding has_prefix
undo_target-undone_example = undo_target-undone one (two ∷ []) (undone ∷ []) (refl, tt)
