-- ===== src/Diff/MyersTests.antt =====
-- pkg/diff: runs of the edit script and of the merge.
use vara.Base.{◌≡◌, refl, false, some, [], ◌∷◌, ◌++◌, codes, bytes_eq}
use vara.Lines.{join, split_lines, split_from, lines_eq}
use vara.Diff.{
  keep, insert, delete, take_region, extract_from, extract_change_blocks, expand_region, apply_more,
  apply_blocks_in_region, resolve_region, merge_from,
}
use vara.Diff.Myers.{
  myers_diff, line_at, entry, set_entry, zeros, extend, round_, keeps, build_edits, search_from,
}
use vara.Diff.ThreeWay.{three_way_merge}

-- The second line of three is replaced, and a line is added.
diff-small :
    myers_diff
      (codes "a" ∷ codes "b" ∷ codes "c" ∷ [])
      (codes "a" ∷ codes "x" ∷ codes "c" ∷ codes "d" ∷ [])
    ≡ record { op = keep; src = codes "a"; dst = codes "a" }
      ∷ record { op = delete; src = codes "b"; dst = [] }
      ∷ record { op = insert; src = []; dst = codes "x" }
      ∷ record { op = keep; src = codes "c"; dst = codes "c" }
      ∷ record { op = insert; src = []; dst = codes "d" }
      ∷ []
unfolding myers_diff line_at entry set_entry zeros extend round_ keeps build_edits search_from
    bytes_eq
diff-small = refl

-- Each side replaces a line of its own, with one line between them.
merge-small :
    three_way_merge 2
      (codes "a" ++ 10 ∷ 10 ∷ codes "b")
      (codes "x" ++ 10 ∷ 10 ∷ codes "b")
      (codes "a" ++ 10 ∷ 10 ∷ codes "y")
      (codes "o")
      (codes "t")
    ≡ some (some (codes "x" ++ 10 ∷ 10 ∷ codes "y", false))
unfolding three_way_merge myers_diff line_at entry set_entry zeros extend round_ keeps build_edits
    search_from bytes_eq take_region extract_from extract_change_blocks expand_region apply_more
    apply_blocks_in_region resolve_region merge_from join split_lines split_from lines_eq
merge-small = refl
