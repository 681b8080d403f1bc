-- ===== src/MergeState/Tests.antt =====
-- internal/mergestate/mergestate.go: a merge with three conflicts.
use vara.Base.{
  ◌≡◌, refl, Bool, true, false, Option, some, List, [], ◌∷◌, Bytes, bytes_eq, codes, contains,
  is_empty,
}
use vara.Merge.{complete}
use vara.MergeState.{
  MergeSide, Conflicted, State, StateCalls, kind_content, paths, unresolved_paths, all_resolved,
  set_resolved, lookup_entry, merge_involved, versioned, write_state,
}
use vara.MergeState.Settled.{settle_all, remaining, settle_all-remaining}
use vara.MergeState.Kept.{ReadBack, read_state-write_state}

abbrev absent : MergeSide
absent = record { present = false; blob = [] }

abbrev blob_side : Bytes → MergeSide
blob_side b = record { present = true; blob = b }

abbrev conflict_at : Bytes → Bool → Conflicted
conflict_at p done = record {
  path = p;
  kind = kind_content;
  base = absent;
  ours = blob_side (codes "1");
  theirs = blob_side (codes "2");
  resolved = done;
}

abbrev three : List Conflicted
three =
    conflict_at (codes "a") false
    ∷ conflict_at (codes "b") false
    ∷ conflict_at (codes "c") true
    ∷ []

settled_a : unresolved_paths (settle_all (codes "a" ∷ codes "x" ∷ []) three) ≡ codes "b" ∷ []
unfolding settle_all set_resolved unresolved_paths bytes_eq
settled_a = refl

no_path_twice :
    (contains (codes "b" ∷ codes "c" ∷ []) (codes "a") ≡ false)
    × (contains (codes "c" ∷ []) (codes "b") ≡ false)
unfolding contains bytes_eq
no_path_twice = (refl, refl)

settle_all-remaining_example :
    let done = settle_all (codes "a" ∷ codes "x" ∷ []) three in
    (unresolved_paths done ≡ remaining (codes "a" ∷ codes "x" ∷ []) (unresolved_paths three))
    × (all_resolved done
        ≡ is_empty (remaining (codes "a" ∷ codes "x" ∷ []) (unresolved_paths three)))
    × (paths done ≡ paths three)
unfolding paths contains
settle_all-remaining_example =
    settle_all-remaining (codes "a" ∷ codes "x" ∷ []) three
      (no_path_twice.0, (no_path_twice.1, (refl, tt)))

abbrev state : State
state = record {
  version = 0;
  our_label = codes "main";
  their_label = codes "dev";
  entries = three;
  merge_touched = codes "d" ∷ [];
}

involved : merge_involved state (codes "d") ≡ true
unfolding contains bytes_eq
involved = refl

not_involved : merge_involved state (codes "e") ≡ false
unfolding contains lookup_entry bytes_eq
not_involved = refl

-- A codec in place of JSON that knows this state.
abbrev marshal : State → Bytes
marshal s = codes "state"

abbrev unmarshal : Bytes → Option State
unmarshal b = some (versioned state)

abbrev calls : StateCalls
calls = record { write_file = complete; rename = true; remove = true }

read_state-write_state_example :
    ReadBack marshal unmarshal true state [] (write_state marshal unmarshal calls state [])
read_state-write_state_example = read_state-write_state marshal unmarshal true calls state [] refl
