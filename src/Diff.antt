-- ===== src/Diff.antt =====
-- pkg/diff: edit scripts, change blocks and the three-way merge of lines (myers.go, threeway.go).
pub mod Stuck
pub mod Myers
pub mod ThreeWay
mod Tests
mod MyersTests
mod TreesTests
pub mod Returns
pub mod OneSided
pub mod Extract
pub mod Trees
pub mod Files
pub mod Collected
pub mod Compared
use vara.Base.{
  ℕ, zero, suc, ◌+◌, ◌≡◌, Bool, true, false, not, ◌&&◌, ◌||◌, Option, none, some, List, [], ◌∷◌,
  ◌++◌, ltb, leb, if◌then◌else◌, Bytes, codes, length, drop, slice, is_empty,
}
use vara.Lines.{join, lines_eq, ends_with_newline}

-- `editOp`.
pub data EditOp : Type 0 where
  keep insert delete : EditOp

pub record Edit : Type 0 where
  pub op : EditOp
  pub src : Bytes
  pub dst : Bytes

pub record ChangeBlock : Type 0 where
  pub base_start : ℕ
  pub base_end : ℕ
  pub new_lines : List Bytes

-- The inner loop of `extractChangeBlocks`, from `regionStart` on, with the edits that are left.
unfoldable pub take_region : ℕ → ℕ → List Bytes → List Edit → ChangeBlock × List Edit
take_region start base_idx lines [] =
    (record { base_start = start; base_end = base_idx; new_lines = lines }, [])
take_region start base_idx lines (e ∷ es) = elim e.op [
  | keep ↦ (record { base_start = start; base_end = base_idx; new_lines = lines }, e ∷ es)
  | delete ↦ take_region start (base_idx + 1) lines es
  | insert ↦ take_region start base_idx (lines ++ e.dst ∷ []) es
]

-- The outer loop, with fuel for its rounds: each takes an edit.
unfoldable pub extract_from : ℕ → ℕ → List Edit → List ChangeBlock
extract_from fuel base_idx [] = []
extract_from zero base_idx (e ∷ es) = []
extract_from (suc fuel) base_idx (e ∷ es) = elim e.op [
  | keep ↦ extract_from fuel (base_idx + 1) es
  | delete ↦
      let (b, rest) = take_region base_idx base_idx [] (e ∷ es) in
      b ∷ extract_from fuel b.base_end rest
  | insert ↦
      let (b, rest) = take_region base_idx base_idx [] (e ∷ es) in
      b ∷ extract_from fuel b.base_end rest
]

unfoldable pub extract_change_blocks : List Edit → List ChangeBlock
extract_change_blocks edits = extract_from (length edits) 0 edits

abbrev pub max_int : ℕ → ℕ → ℕ
max_int a b = if ltb b a then a else b

-- The start of the next block of a side, or the end of the base.
abbrev pub next_start : ℕ → List ChangeBlock → ℕ
next_start n [] = n
next_start n (b ∷ bs) = b.base_start

-- `if oi < len(ourBlocks) && ourBlocks[oi].baseStart <= regionEnd`.
abbrev pub reach : List ChangeBlock → ℕ → ℕ
reach [] re = re
reach (b ∷ bs) re = if leb b.base_start re then max_int re b.base_end else re

-- One `if` of the expansion.
abbrev pub grow : List ChangeBlock → ℕ → ℕ
grow [] re = re
grow (b ∷ bs) re = if ltb b.base_start re && ltb re b.base_end then b.base_end else re

-- `for { expanded := false ... }`: the blocks do not move, so each side grows the region once at
-- most, and three rounds are enough.
unfoldable pub expand_region : ℕ → List ChangeBlock → List ChangeBlock → ℕ → ℕ
expand_region zero ours theirs re = re
expand_region (suc fuel) ours theirs re =
    let re' = grow theirs (grow ours re) in
    let again = expand_region fuel ours theirs re' in if ltb re re' then again else re

-- Go's check of `base[i:j]`, for a slice with no room after its end: it panics if this is false.
abbrev pub in_range : List Bytes → ℕ → ℕ → Bool
in_range base i j = leb i j && leb j (length base)

-- What `applyBlocksInRegion` leaves: the lines, the blocks that are left, `*changed`, and whether a
-- slice panicked.
pub record Applied : Type 0 where
  pub lines : List Bytes
  pub left : List ChangeBlock
  pub changed : Bool
  pub panics : Bool

-- Its loop from `pos`, once a block was consumed.
unfoldable pub apply_more :
    List Bytes → ℕ → ℕ → List ChangeBlock → List Bytes × List ChangeBlock × Bool
apply_more base pos re [] = (slice base pos re, [], not (in_range base pos re))
apply_more base pos re (b ∷ bs) =
    let (lines, left, panics) = apply_more base b.base_end re bs in
    if ltb b.base_start re
    then (
      slice base pos b.base_start ++ (b.new_lines ++ lines),
      left,
      not (in_range base pos b.base_start) || panics,
    )
    else (slice base pos re, b ∷ bs, not (in_range base pos re))

unfoldable pub apply_blocks_in_region : List Bytes → List ChangeBlock → ℕ → ℕ → Applied
apply_blocks_in_region base [] rs re = record {
  lines = slice base rs re;
  left = [];
  changed = false;
  panics = not (in_range base rs re);
}
apply_blocks_in_region base (b ∷ bs) rs re =
    let (lines, left, panics) = apply_more base rs re (b ∷ bs) in
    if ltb b.base_start re
    then record { lines = lines; left = left; changed = true; panics = panics }
    else record {
      lines = slice base rs re;
      left = b ∷ bs;
      changed = false;
      panics = not (in_range base rs re);
    }

-- The `switch`: the lines of a region, and whether they are a conflict.
unfoldable pub resolve_region : Bytes → Bytes → Applied → Applied → List Bytes × Bool
resolve_region our_label their_label ours theirs =
    if not ours.changed && not theirs.changed
    then ([], false)
    else if lines_eq ours.lines theirs.lines
    then (ours.lines, false)
    else if not ours.changed
    then (theirs.lines, false)
    else if not theirs.changed
    then (ours.lines, false)
    else (
      (codes "<<<<<<< " ++ (our_label ++ 10 ∷ []))
          ∷ (ours.lines
              ++ (codes "=======" ++ 10 ∷ [])
                ∷ (theirs.lines ++ (codes ">>>>>>> " ++ (their_label ++ 10 ∷ [])) ∷ [])),
      true,
    )

-- The context and the lines of a round in front of what the rest of the loop makes.
abbrev pub after_round :
    List Bytes
    → List Bytes
    → Bool
    → Option (Option (List Bytes × Bool))
    → Option (Option (List Bytes × Bool))
after_round before lines conflict none = none
after_round before lines conflict (some none) = some none
after_round before lines conflict (some (some (out, more))) =
    some (some (before ++ (lines ++ out), conflict || more))

module _ (base : List Bytes) (our_label their_label : Bytes) where
  -- The region of one round of `mergeChangeBlocks`, and its two sides.
  abbrev pub region_start : List ChangeBlock → List ChangeBlock → ℕ
  region_start ours theirs =
      let our_next = next_start (length base) ours in
      let their_next = next_start (length base) theirs in
      if ltb their_next our_next then their_next else our_next

  abbrev pub region_end : List ChangeBlock → List ChangeBlock → ℕ
  region_end ours theirs =
      expand_region 3 ours theirs (reach theirs (reach ours (region_start ours theirs)))

  -- The rest of a round, from a region on, with the rest of the loop as an argument.
  abbrev pub merge_region :
      (ℕ → List ChangeBlock → List ChangeBlock → Option (Option (List Bytes × Bool)))
      → ℕ
      → List ChangeBlock
      → List ChangeBlock
      → ℕ
      → ℕ
      → Option (Option (List Bytes × Bool))
  merge_region rest pos ours theirs rs re =
      let o = apply_blocks_in_region base ours rs re in
      let t = apply_blocks_in_region base theirs rs re in
      let (lines, conflict) = resolve_region our_label their_label o t in
      if not (in_range base pos rs) || (o.panics || t.panics)
      then some none
      else after_round (slice base pos rs) lines conflict (rest re o.left t.left)

  -- One round of the loop.
  abbrev pub merge_round :
      (ℕ → List ChangeBlock → List ChangeBlock → Option (Option (List Bytes × Bool)))
      → ℕ
      → List ChangeBlock
      → List ChangeBlock
      → Option (Option (List Bytes × Bool))
  merge_round rest pos ours theirs =
      merge_region rest pos ours theirs (region_start ours theirs) (region_end ours theirs)

  -- `mergeChangeBlocks` from `basePos`, with the blocks from `oi` and `ti` on. `none`: the fuel
  -- ran out. `some none`: a slice of the base panicked.
  unfoldable pub merge_from :
      ℕ → ℕ → List ChangeBlock → List ChangeBlock → Option (Option (List Bytes × Bool))
  merge_from fuel pos [] [] =
      if leb pos (length base) then some (some (drop pos base, false)) else some none
  merge_from zero pos [] (t ∷ ts) = none
  merge_from zero pos (o ∷ os) theirs = none
  merge_from (suc fuel) pos [] (t ∷ ts) = merge_round (merge_from fuel) pos [] (t ∷ ts)
  merge_from (suc fuel) pos (o ∷ os) theirs = merge_round (merge_from fuel) pos (o ∷ os) theirs
