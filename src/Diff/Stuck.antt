-- ===== src/Diff/Stuck.antt =====
-- pkg/diff/threeway.go: `mergeChangeBlocks` does not get past an insertion.
use vara.Base.{
  ℕ, zero, suc, ◌≤◌, ◌<◌, ◌≡◌, ◌⊎◌, inr, refl, false, none, List, [], ◌∷◌, arith, Bytes, length,
}
use vara.Diff.{
  ChangeBlock, expand_region, apply_blocks_in_region, region_start, region_end, merge_from,
}

-- The next block of the other side starts after `p`, or is an insertion at `p` too.
abbrev pub IsOff : ℕ → List ChangeBlock → Type 0
IsOff p [] = Unit {0}
IsOff p (t ∷ ts) = (p < t.base_start) ⊎ (p ≡ t.base_start) × (p ≡ t.base_end)

-- No block is consumed in an empty region.
left-off :
    (base : List Bytes) (p : ℕ) (bs : List ChangeBlock)
    → IsOff p bs
    → (apply_blocks_in_region base bs p p).left ≡ bs
unfolding apply_blocks_in_region
left-off base p [] off = refl
left-off base p (b ∷ bs) off = ground arith

-- Nothing panics in an empty region.
panics-off :
    (base : List Bytes) (p : ℕ) (bs : List ChangeBlock)
    → p ≤ length base
    → IsOff p bs
    → (apply_blocks_in_region base bs p p).panics ≡ false
unfolding apply_blocks_in_region
panics-off base p [] le off = ground arith
panics-off base p (b ∷ bs) le off = ground arith

module _ (base : List Bytes) (our_label their_label : Bytes) (o : ChangeBlock)
    (os : List ChangeBlock) where
  region_start-insertion :
      (theirs : List ChangeBlock)
      → o.base_start ≤ length base
      → IsOff o.base_start theirs
      → region_start base our_label their_label (o ∷ os) theirs ≡ o.base_start
  region_start-insertion [] le off = ground arith
  region_start-insertion (t ∷ ts) le off = ground arith

  region_end-insertion :
      (theirs : List ChangeBlock)
      → o.base_start ≤ length base
      → IsOff o.base_start theirs
      → o.base_start ≡ o.base_end
      → region_end base our_label their_label (o ∷ os) theirs ≡ o.base_start
  unfolding expand_region
  region_end-insertion [] le off e = ground arith
  region_end-insertion (t ∷ ts) le off e = ground arith

  -- If the next block of ours is an insertion inside the base, and the next one of theirs starts
  -- after it or is an insertion at the same place, `mergeChangeBlocks` never returns from a
  -- position that is not after the insertion: no fuel is enough.
  pub merge_from-stuck :
      (theirs : List ChangeBlock)
      → o.base_start ≤ length base
      → IsOff o.base_start theirs
      → o.base_start ≡ o.base_end
      → (fuel pos : ℕ) → pos ≤ o.base_start
      → merge_from base our_label their_label fuel pos (o ∷ os) theirs ≡ none
  unfolding merge_from
  merge_from-stuck theirs le off e zero pos before = refl
  merge_from-stuck theirs le off e (suc fuel) pos before = ground (
    arith,
    region_start-insertion theirs le off,
    region_end-insertion theirs le off e,
    left-off base o.base_start (o ∷ os) (inr (refl, e)),
    left-off base o.base_start theirs off,
    panics-off base o.base_start (o ∷ os) le (inr (refl, e)),
    panics-off base o.base_start theirs le off,
    merge_from-stuck theirs le off e fuel o.base_start (omega arith),
  )
