-- ===== src/Diff/Tests.antt =====
-- pkg/diff: the theorems on small texts, and runs of the merge.
use vara.Base.{
  ℕ, Option, ◌≡◌, refl, true, none, some, List, [], ◌∷◌, ◌++◌, arith, Bytes, bytes_eq, codes, Bool,
}
use vara.Lines.{lines_eq}
use vara.Diff.{
  Edit, keep, insert, delete, ChangeBlock, take_region, extract_from, extract_change_blocks,
  expand_region, apply_more, apply_blocks_in_region, resolve_region, merge_from,
}
use vara.Diff.Stuck.{merge_from-stuck}
use vara.Diff.OneSided.{apply_from}
use vara.Diff.Extract.{source_of, target_of, extract_change_blocks_correct}
use vara.Diff.Returns.{merge_from-returns}

abbrev base_lines : List Bytes
base_lines = codes "a" ∷ codes "b" ∷ codes "c" ∷ []

-- "b" is replaced by "x" and "y".
abbrev script : List Edit
script =
    record { op = keep; src = codes "a"; dst = codes "a" }
    ∷ record { op = delete; src = codes "b"; dst = [] }
    ∷ record { op = insert; src = []; dst = codes "x" }
    ∷ record { op = insert; src = []; dst = codes "y" }
    ∷ record { op = keep; src = codes "c"; dst = codes "c" }
    ∷ []

abbrev replace_b : List ChangeBlock
replace_b = record { base_start = 1; base_end = 2; new_lines = codes "x" ∷ codes "y" ∷ [] } ∷ []

abbrev replace_c : List ChangeBlock
replace_c = record { base_start = 1; base_end = 3; new_lines = codes "z" ∷ [] } ∷ []

abbrev six_lines : List Bytes
six_lines = codes "a" ∷ codes "b" ∷ codes "c" ∷ codes "d" ∷ codes "e" ∷ codes "f" ∷ []

abbrev drop_lines : ℕ → ℕ → ChangeBlock
drop_lines i j = record { base_start = i; base_end = j; new_lines = [] }

-- A line inserted behind "a".
abbrev insert_x : ChangeBlock
insert_x = record { base_start = 1; base_end = 1; new_lines = codes "x" ∷ [] }

extract-script : extract_change_blocks script ≡ replace_b
unfolding extract_change_blocks extract_from take_region
extract-script = refl

extract_change_blocks_correct_example :
    apply_from (source_of script) 0 (extract_change_blocks script) ≡ target_of script
extract_change_blocks_correct_example =
    extract_change_blocks_correct script
      ((λ _. refl), ((λ h. cc h), ((λ h. cc h), ((λ h. cc h), ((λ _. refl), tt)))))

merge-conflict :
    merge_from base_lines (codes "o") (codes "t") 2 0 replace_b replace_c
    ≡ some (
        some (
          codes "a"
              ∷ (codes "<<<<<<< o" ++ 10 ∷ [])
              ∷ codes "x"
              ∷ codes "y"
              ∷ codes "c"
              ∷ (codes "=======" ++ 10 ∷ [])
              ∷ codes "z"
              ∷ (codes ">>>>>>> t" ++ 10 ∷ [])
              ∷ [],
          true,
        ))
unfolding merge_from expand_region apply_blocks_in_region apply_more resolve_region lines_eq
    bytes_eq
merge-conflict = refl

-- A second block of ours reaches past a region that ends at a block of theirs: the rest of the
-- region is `base[6:3]`.
merge-panics :
    merge_from six_lines
      (codes "o")
      (codes "t")
      3
      0
      (drop_lines 0 1 ∷ drop_lines 2 6 ∷ [])
      (drop_lines 0 3 ∷ [])
    ≡ some none
unfolding merge_from expand_region apply_blocks_in_region apply_more resolve_region lines_eq
    bytes_eq
merge-panics = refl

merge_from-returns_example :
    (r : Option (List Bytes × Bool)) × (merge_from base_lines
        (codes "o")
        (codes "t")
        2
        0
        replace_b
        replace_c
      ≡ some r)
merge_from-returns_example =
    merge_from-returns base_lines (codes "o") (codes "t") 2 0 replace_b replace_c (omega arith)
      (omega arith) (omega arith)

merge_from-stuck_example :
    merge_from base_lines (codes "o") (codes "t") 1000 0 (insert_x ∷ []) [] ≡ none
merge_from-stuck_example =
    merge_from-stuck base_lines (codes "o") (codes "t") insert_x [] [] (omega arith) tt refl 1000 0
      (omega arith)
