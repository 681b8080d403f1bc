-- ===== src/Diff/ThreeWay.antt =====
-- pkg/diff/diff.go: `ThreeWayMerge`, and `wholeFileConflict` of pkg/diff/threeway.go.
use vara.Base.{
  ℕ, ◌≡◌, ◌⊎◌, ◌≢◌, sym, ap, ◌∙◌, Bool, true, false, Option, none, some, List, [], ◌∷◌, ◌++◌, arith,
  if◌then◌else◌, Bytes, codes, is_empty, Bool-cases, inl, inr,
}
use vara.Lines.{
  join, split_lines, split_from, lines_eq, lines_eq_iff, join-split_lines, ends_with_newline,
}
use vara.Diff.{extract_change_blocks, merge_from}
use vara.Diff.Myers.{myers_diff}

-- `ensureNL`.
abbrev pub ensure_newline : Bytes → Bytes
ensure_newline s = if is_empty s then s else if ends_with_newline s then s else s ++ 10 ∷ []

unfoldable pub whole_file_conflict : List Bytes → List Bytes → Bytes → Bytes → Bytes
whole_file_conflict our_lines their_lines our_label their_label =
    let top = codes "<<<<<<< " ++ (our_label ++ 10 ∷ []) in
    let upper = ensure_newline (top ++ join our_lines) in
    let both = ensure_newline (upper ++ (codes "=======" ++ (10 ∷ join their_lines))) in
    both ++ (codes ">>>>>>> " ++ (their_label ++ 10 ∷ []))

abbrev pub join_merged : Option (Option (List Bytes × Bool)) → Option (Option (Bytes × Bool))
join_merged none = none
join_merged (some none) = some none
join_merged (some (some (lines, conflict))) = some (some (join lines, conflict))

-- The fuel is that of the merge loop. `none`: it ran out. `some none`: the merge panicked.
unfoldable pub three_way_merge :
    ℕ → Bytes → Bytes → Bytes → Bytes → Bytes → Option (Option (Bytes × Bool))
three_way_merge fuel base ours theirs our_label their_label =
    let base_lines = split_lines base in
    let our_lines = split_lines ours in
    let their_lines = split_lines theirs in
    if is_empty base_lines
    then if lines_eq our_lines their_lines
      then some (some (ours, false))
      else some (some (whole_file_conflict our_lines their_lines our_label their_label, true))
    else (let our_blocks = extract_change_blocks (myers_diff base_lines our_lines) in
        let their_blocks = extract_change_blocks (myers_diff base_lines their_lines) in
        join_merged (merge_from base_lines our_label their_label fuel 0 our_blocks their_blocks))

-- With an empty base the merge returns on any fuel: two files with the same bytes give that file
-- without a conflict, and any other two give a conflict.
pub three_way_merge_empty :
    (fuel : ℕ) (ours theirs our_label their_label : Bytes)
    → ((ours ≡ theirs)
        × (three_way_merge fuel [] ours theirs our_label their_label ≡ some (some (ours, false))))
      ⊎ ((ours ≢ theirs)
          × (merged : Bytes) × (three_way_merge fuel [] ours theirs our_label their_label
              ≡ some (some (merged, true))))
unfolding three_way_merge
three_way_merge_empty fuel ours theirs our_label their_label =
    let our_lines = split_lines ours in
    let their_lines = split_lines theirs in
    elim (Bool-cases (lines_eq our_lines their_lines)) [
      | inl same ↦
          let lines = (lines_eq_iff our_lines their_lines).0 same in
          inl (
            sym (join-split_lines ours) ∙ ap join lines ∙ join-split_lines theirs,
            unfold split_lines split_from in ground arith,
          )
      | inr differ ↦ inr (
        λ e. absurd (ground (arith, (lines_eq_iff our_lines their_lines).1 (ap split_lines e))),
        whole_file_conflict our_lines their_lines our_label their_label,
        unfold split_lines split_from in ground arith,
      )
    ]
