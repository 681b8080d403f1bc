-- ===== src/Diff/OneSided.antt =====
-- pkg/diff/threeway.go: a merge in which one side has no changes.
use mathlib.Core.List.{append-nil}
use vara.Base.{
  ℕ, zero, suc, ◌-◌, ◌≤◌, ◌<◌, ◌≡◌, refl, true, false, some, List, [], ◌∷◌, ◌++◌, arith, Bytes,
  length, drop, slice,
}
use vara.Lines.{lines_eq_iff}
use vara.Diff.{
  Applied, ChangeBlock, expand_region, apply_more, apply_blocks_in_region, region_start, region_end,
  resolve_region, merge_from,
}

-- What the blocks of a side make of the base from `pos` on: its own text.
unfoldable pub apply_from : List Bytes → ℕ → List ChangeBlock → List Bytes
apply_from base pos [] = drop pos base
apply_from base pos (b ∷ bs) =
    slice base pos b.base_start ++ (b.new_lines ++ apply_from base b.base_end bs)

-- Blocks in order, inside the base, each of which replaces at least one line.
abbrev pub IsProper : ℕ → ℕ → List ChangeBlock → Type 0
IsProper n pos [] = pos ≤ n
IsProper n pos (b ∷ bs) =
    (pos ≤ b.base_start) × (b.base_start < b.base_end) × (b.base_end ≤ n) × IsProper n b.base_end bs

pub slice-empty : (base : List Bytes) (i : ℕ) → slice base i i ≡ []
slice-empty base i = let z : i - i ≡ 0 = omega arith in rw z

-- In the region of its first block a side gives the new lines of that block.
first_block :
    (base : List Bytes) (n : ℕ) (b : ChangeBlock) (bs : List ChangeBlock)
    → b.base_start < b.base_end
    → b.base_end ≤ length base
    → IsProper n b.base_end bs
    → apply_blocks_in_region base (b ∷ bs) b.base_start b.base_end
      ≡ record { lines = b.new_lines; left = bs; changed = true; panics = false }
unfolding apply_blocks_in_region apply_more
first_block base n b [] h le p =
    ground
      (arith, slice-empty base b.base_start, slice-empty base b.base_end, append-nil b.new_lines)
first_block base n b (c ∷ bs) h le p =
    ground
      (arith, slice-empty base b.base_start, slice-empty base b.base_end, append-nil b.new_lines)

nothing_left : (base : List Bytes) (rs re : ℕ) → (apply_blocks_in_region base [] rs re).left ≡ []
unfolding apply_blocks_in_region
nothing_left base rs re = refl

not_changed :
    (base : List Bytes) (rs re : ℕ) → (apply_blocks_in_region base [] rs re).changed ≡ false
unfolding apply_blocks_in_region
not_changed base rs re = refl

no_panic :
    (base : List Bytes) (rs re : ℕ)
    → rs ≤ re
    → re ≤ length base
    → (apply_blocks_in_region base [] rs re).panics ≡ false
unfolding apply_blocks_in_region
no_panic base rs re le inside = ground arith

resolve-ours :
    (our_label their_label : Bytes) (o t : Applied)
    → o.changed ≡ true
    → t.changed ≡ false
    → resolve_region our_label their_label o t ≡ (o.lines, false)
unfolding resolve_region
resolve-ours our_label their_label o t ho ht = ground arith

resolve-theirs :
    (our_label their_label : Bytes) (o t : Applied)
    → o.changed ≡ false
    → t.changed ≡ true
    → resolve_region our_label their_label o t ≡ (t.lines, false)
unfolding resolve_region
resolve-theirs our_label their_label o t ho ht = ground (arith, lines_eq_iff o.lines t.lines)

module _ (base : List Bytes) (our_label their_label : Bytes) where
  our_region :
      (pos : ℕ) (b : ChangeBlock) (bs : List ChangeBlock)
      → IsProper (length base) pos (b ∷ bs)
      → (region_start base our_label their_label (b ∷ bs) [] ≡ b.base_start)
        × (region_end base our_label their_label (b ∷ bs) [] ≡ b.base_end)
  unfolding expand_region
  our_region pos b bs p = ground arith

  -- With no block of theirs, proper blocks of ours are merged into the text of ours, with no
  -- conflict, once the fuel is at least the number of our blocks.
  pub merge_from-ours :
      (fuel pos : ℕ) (ours : List ChangeBlock)
      → IsProper (length base) pos ours
      → length ours ≤ fuel
      → merge_from base our_label their_label fuel pos ours []
        ≡ some (some (apply_from base pos ours, false))
  unfolding merge_from apply_from
  merge_from-ours fuel pos [] p le = ground arith
  merge_from-ours zero pos (b ∷ bs) p le = absurd (omega arith)
  merge_from-ours (suc fuel) pos (b ∷ bs) p le =
      let (start, end_) = our_region pos b bs p in
      let theirs = apply_blocks_in_region base [] b.base_start b.base_end in
      let done : Applied = record {
        lines = b.new_lines;
        left = bs;
        changed = true;
        panics = false;
      } in
      ground (
        arith,
        start,
        end_,
        no_panic base b.base_start b.base_end (omega arith) p.2,
        first_block base (length base) b bs p.1 p.2 p.3,
        nothing_left base b.base_start b.base_end,
        resolve-ours our_label their_label done theirs refl
            (not_changed base b.base_start b.base_end),
        merge_from-ours fuel b.base_end bs p.3 (omega arith),
      )

  their_region :
      (pos : ℕ) (b : ChangeBlock) (bs : List ChangeBlock)
      → IsProper (length base) pos (b ∷ bs)
      → (region_start base our_label their_label [] (b ∷ bs) ≡ b.base_start)
        × (region_end base our_label their_label [] (b ∷ bs) ≡ b.base_end)
  unfolding expand_region
  their_region pos b bs p = ground arith

  -- With no block of ours, proper blocks of theirs are merged into the text of theirs, with no
  -- conflict, once the fuel is at least the number of their blocks.
  pub merge_from-theirs :
      (fuel pos : ℕ) (theirs : List ChangeBlock)
      → IsProper (length base) pos theirs
      → length theirs ≤ fuel
      → merge_from base our_label their_label fuel pos [] theirs
        ≡ some (some (apply_from base pos theirs, false))
  unfolding merge_from apply_from
  merge_from-theirs fuel pos [] p le = ground arith
  merge_from-theirs zero pos (b ∷ bs) p le = absurd (omega arith)
  merge_from-theirs (suc fuel) pos (b ∷ bs) p le =
      let (start, end_) = their_region pos b bs p in
      let ours = apply_blocks_in_region base [] b.base_start b.base_end in
      let done : Applied = record {
        lines = b.new_lines;
        left = bs;
        changed = true;
        panics = false;
      } in
      ground (
        arith,
        start,
        end_,
        no_panic base b.base_start b.base_end (omega arith) p.2,
        first_block base (length base) b bs p.1 p.2 p.3,
        nothing_left base b.base_start b.base_end,
        resolve-theirs our_label their_label ours done (not_changed base b.base_start b.base_end)
            refl,
        merge_from-theirs fuel b.base_end bs p.3 (omega arith),
      )
