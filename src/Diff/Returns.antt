-- ===== src/Diff/Returns.antt =====
-- pkg/diff/threeway.go: the rounds of `mergeChangeBlocks` when no block is an insertion.
use vara.Base.{
  ℕ, zero, suc, ◌+◌, ◌≤◌, ◌<◌, ◌≡◌, Bool, false, Option, some, List, [], ◌∷◌, arith, Bytes, length,
  drop, slice, ◌++◌, ◌||◌, lt→ltb, ltb, leb, not, none, Bool, Bool-cases, inl, inr,
}
use vara.Diff.{
  ChangeBlock, reach, grow, expand_region, apply_more, apply_blocks_in_region, region_start,
  region_end, resolve_region, merge_round, merge_from, in_range,
}

-- Every block replaces at least one of the `n` base lines.
abbrev pub AreWide : ℕ → List ChangeBlock → Type 0
AreWide n [] = Unit {0}
AreWide n (b ∷ bs) = (b.base_start < b.base_end) × (b.base_end ≤ n) × AreWide n bs

le-expand : (fuel : ℕ) (o t : List ChangeBlock) (re : ℕ) → re ≤ expand_region fuel o t re
unfolding expand_region
le-expand zero o t re = omega arith
le-expand (suc fuel) o t re = ground (arith, le-expand fuel o t (grow t (grow o re)))

apply_more-AreWide :
    (base : List Bytes) (n pos re : ℕ) (bs : List ChangeBlock)
    → AreWide n bs
    → AreWide n (apply_more base pos re bs).1 × (length (apply_more base pos re bs).1 ≤ length bs)
unfolding apply_more
apply_more-AreWide base n pos re [] w = (tt, omega arith)
apply_more-AreWide base n pos re (b ∷ bs) w =
    let h = apply_more-AreWide base n b.base_end re bs w.2 in
    elim (Bool-cases (ltb b.base_start re)) [
      | inl inside ↦ rw inside (h.0, omega (arith, h.1))
      | inr after ↦ rw after (w, omega arith)
    ]

record Shrinks (n : ℕ) (bs left : List ChangeBlock) : Type 0 where
  wide : AreWide n left
  le : length left ≤ length bs

left-Shrinks :
    (base : List Bytes) (n rs re : ℕ) (bs : List ChangeBlock)
    → AreWide n bs
    → Shrinks n bs (apply_blocks_in_region base bs rs re).left
unfolding apply_blocks_in_region apply_more
left-Shrinks base n rs re [] w = record { wide = tt; le = omega arith }
left-Shrinks base n rs re (b ∷ bs) w =
    let (wide, le) = apply_more-AreWide base n b.base_end re bs w.2 in
    elim (Bool-cases (ltb b.base_start re)) [
      | inl inside ↦ rw inside (record { wide = wide; le = omega (arith, le) })
      | inr after ↦ rw after (record { wide = w; le = omega arith })
    ]

-- A block that starts inside the region is consumed.
left-lt :
    (base : List Bytes) (n rs re : ℕ) (b : ChangeBlock) (bs : List ChangeBlock)
    → AreWide n bs
    → b.base_start < re
    → length (apply_blocks_in_region base (b ∷ bs) rs re).left < length (b ∷ bs)
unfolding apply_blocks_in_region apply_more
left-lt base n rs re b bs w h =
    rw (lt→ltb _ _ h) (omega (arith, (apply_more-AreWide base n b.base_end re bs w).1))

module _ (base : List Bytes) (our_label their_label : Bytes) where
  abbrev start_of : List ChangeBlock → List ChangeBlock → ℕ
  start_of ours theirs = region_start base our_label their_label ours theirs

  abbrev end_of : List ChangeBlock → List ChangeBlock → ℕ
  end_of ours theirs = region_end base our_label their_label ours theirs

  -- Whether a slice of a round panics.
  abbrev panics_at : ℕ → List ChangeBlock → List ChangeBlock → Bool
  panics_at pos ours theirs =
      let rs = start_of ours theirs in
      let o = apply_blocks_in_region base ours rs (end_of ours theirs) in
      let t = apply_blocks_in_region base theirs rs (end_of ours theirs) in
      not (in_range base pos rs) || (o.panics || t.panics)

  -- The blocks that a round leaves.
  abbrev left_of : List ChangeBlock → List ChangeBlock → List ChangeBlock → List ChangeBlock
  left_of ours theirs bs =
      (apply_blocks_in_region base bs (start_of ours theirs) (end_of ours theirs)).left

  -- Every round consumes a block: the side that starts the region loses its first one.
  progress :
      (ours theirs : List ChangeBlock)
      → AreWide (length base) ours
      → AreWide (length base) theirs
      → 0 < length ours + length theirs
      → length (left_of ours theirs ours) + length (left_of ours theirs theirs)
        < length ours + length theirs
  progress [] [] wo wt h = absurd (omega arith)
  progress [] (t ∷ ts) wo wt h =
      let rs = start_of [] (t ∷ ts) in
      let re = end_of [] (t ∷ ts) in
      ground (
        arith,
        le-expand 3 [] (t ∷ ts) (reach (t ∷ ts) rs),
        left-lt base (length base) rs re t ts wt.2,
        (left-Shrinks base (length base) rs re [] tt).le,
      )
  progress (o ∷ os) [] wo wt h =
      let rs = start_of (o ∷ os) [] in
      let re = end_of (o ∷ os) [] in
      ground (
        arith,
        le-expand 3 (o ∷ os) [] (reach (o ∷ os) rs),
        left-lt base (length base) rs re o os wo.2,
        (left-Shrinks base (length base) rs re [] tt).le,
      )
  progress (o ∷ os) (t ∷ ts) wo wt h =
      let rs = start_of (o ∷ os) (t ∷ ts) in
      let re = end_of (o ∷ os) (t ∷ ts) in
      ground (
        arith,
        le-expand 3 (o ∷ os) (t ∷ ts) (reach (t ∷ ts) (reach (o ∷ os) rs)),
        left-lt base (length base) rs re o os wo.2,
        left-lt base (length base) rs re t ts wt.2,
        (left-Shrinks base (length base) rs re (o ∷ os) wo).le,
        (left-Shrinks base (length base) rs re (t ∷ ts) wt).le,
      )

  wide_left :
      (ours theirs bs : List ChangeBlock)
      → AreWide (length base) bs
      → AreWide (length base) (left_of ours theirs bs)
  wide_left ours theirs bs w =
      (left-Shrinks base (length base) (start_of ours theirs) (end_of ours theirs) bs w).wide

  round_returns :
      (rest : ℕ → List ChangeBlock → List ChangeBlock → Option (Option (List Bytes × Bool)))
      (pos : ℕ) (ours theirs : List ChangeBlock) (r : Option (List Bytes × Bool))
      → rest (end_of ours theirs) (left_of ours theirs ours) (left_of ours theirs theirs) ≡ some r
      → (r' : Option (List Bytes × Bool)) × (merge_round base our_label their_label rest pos ours
            theirs
          ≡ some r')
  round_returns rest pos ours theirs none e = elim (Bool-cases (panics_at pos ours theirs)) [
    | inl panics ↦ (none, rw (panics, merge_round))
    | inr goes_on ↦ (none, rw (goes_on, e, merge_round))
  ]
  round_returns rest pos ours theirs (some (out, more)) e =
      let rs = start_of ours theirs in
      let re = end_of ours theirs in
      let region =
        resolve_region our_label their_label (apply_blocks_in_region base ours rs re)
          (apply_blocks_in_region base theirs rs re) in
      elim (Bool-cases (panics_at pos ours theirs)) [
        | inl panics ↦ (none, rw (panics, merge_round))
        | inr goes_on ↦ (
          some (slice base pos rs ++ (region.0 ++ out), region.1 || more),
          rw (goes_on, e, merge_round),
        )
      ]

  -- If every block of both sides replaces at least one base line, the loop of `mergeChangeBlocks`
  -- ends, with a result or with a slice that panics, once the fuel is at least the number of blocks.
  pub merge_from-returns :
      (fuel pos : ℕ) (ours theirs : List ChangeBlock)
      → AreWide (length base) ours
      → AreWide (length base) theirs
      → length ours + length theirs ≤ fuel
      → (r : Option (List Bytes × Bool)) × (merge_from base our_label their_label fuel pos ours
            theirs
          ≡ some r)
  unfolding merge_from
  merge_from-returns fuel pos [] [] wo wt le = elim (Bool-cases (leb pos (length base))) [
    | inl inside ↦ (some (drop pos base, false), rw inside)
    | inr after ↦ (none, rw after)
  ]
  merge_from-returns zero pos [] (t ∷ ts) wo wt le = absurd (omega arith)
  merge_from-returns zero pos (o ∷ os) theirs wo wt le = absurd (omega arith)
  merge_from-returns (suc fuel) pos [] (t ∷ ts) wo wt le =
      let next = progress [] (t ∷ ts) wo wt (omega arith) in
      let (r, e) =
        merge_from-returns fuel (end_of [] (t ∷ ts)) (left_of [] (t ∷ ts) [])
          (left_of [] (t ∷ ts) (t ∷ ts)) (wide_left [] (t ∷ ts) [] wo)
          (wide_left [] (t ∷ ts) (t ∷ ts) wt) (omega arith) in
      round_returns (merge_from base our_label their_label fuel) pos [] (t ∷ ts) r e
  merge_from-returns (suc fuel) pos (o ∷ os) theirs wo wt le =
      let next = progress (o ∷ os) theirs wo wt (omega arith) in
      let (r, e) =
        merge_from-returns fuel (end_of (o ∷ os) theirs) (left_of (o ∷ os) theirs (o ∷ os))
          (left_of (o ∷ os) theirs theirs) (wide_left (o ∷ os) theirs (o ∷ os) wo)
          (wide_left (o ∷ os) theirs theirs wt) (omega arith) in
      round_returns (merge_from base our_label their_label fuel) pos (o ∷ os) theirs r e
