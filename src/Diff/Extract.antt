-- ===== src/Diff/Extract.antt =====
-- pkg/diff/threeway.go: the change blocks of an edit script, put into the base, give the target.
use mathlib.Core.List.{append_assoc}
use native.Mathlib.Numerals.{add-one}
use vara.Base.{
  ℕ, zero, suc, ◌+◌, ◌-◌, ◌≤◌, ◌≡◌, ◌≢◌, ◌⊎◌, refl, sym, ap, ap₂, ◌∙◌, List, [], ◌∷◌, ◌++◌, arith,
  Bytes, length, drop, slice, inl, inr,
}
use vara.Diff.{
  EditOp, keep, insert, delete, Edit, ChangeBlock, take_region, extract_from, extract_change_blocks,
}
use vara.Diff.OneSided.{apply_from, slice-empty}

-- The two texts of an edit script: the lines that it keeps or deletes, and the lines that it keeps
-- or inserts.
pub source_of : List Edit → List Bytes
source_of [] = []
source_of (e ∷ es) = elim e.op [
  | keep ↦ e.src ∷ source_of es
  | insert ↦ source_of es
  | delete ↦ e.src ∷ source_of es
]

pub target_of : List Edit → List Bytes
target_of [] = []
target_of (e ∷ es) = elim e.op [
  | keep ↦ e.dst ∷ target_of es
  | insert ↦ e.dst ∷ target_of es
  | delete ↦ target_of es
]

-- A kept line is one line of both texts.
abbrev pub IsAligned : List Edit → Type 0
IsAligned [] = Unit {0}
IsAligned (e ∷ es) = (e.op ≡ keep → e.src ≡ e.dst) × IsAligned es

drop-suc :
    (base : List Bytes) (i : ℕ) (x : Bytes) (xs : List Bytes)
    → drop i base ≡ x ∷ xs
    → drop (suc i) base ≡ xs
drop-suc [] zero x xs e = cc e
drop-suc [] (suc i) x xs e = cc e
drop-suc (y ∷ ys) zero x xs e = ground arith
drop-suc (y ∷ ys) (suc i) x xs e = drop-suc ys i x xs e

EditOp-cases : (o : EditOp) → (o ≡ keep) ⊎ (o ≡ insert) ⊎ (o ≡ delete)
EditOp-cases keep = inl refl
EditOp-cases insert = inr (inl refl)
EditOp-cases delete = inr (inr refl)

-- What a region takes from the script: it starts where it was opened, its lines are the inserted
-- ones, and the base position moves past the deleted ones.
record Region (base lines : List Bytes) (es : List Edit) (b : ChangeBlock) (rest : List Edit)
    : Type 0 where
  base_left : drop b.base_end base ≡ source_of rest
  target : b.new_lines ++ target_of rest ≡ lines ++ target_of es
  aligned : IsAligned rest

take_region-Region :
    (base : List Bytes) (start i : ℕ) (lines : List Bytes) (es : List Edit)
    → drop i base ≡ source_of es
    → IsAligned es
    → Region base lines es (take_region start i lines es).0 (take_region start i lines es).1
unfolding take_region source_of target_of
take_region-Region base start i lines [] d a = record { base_left = d; target = refl; aligned = tt }
take_region-Region base start i lines (e ∷ es) d a = elim (EditOp-cases e.op) [
  | inl k ↦ simp k (record { base_left = d; target = refl; aligned = a })
  | inr (inl k) ↦
      let grows : target_of (e ∷ es) ≡ e.dst ∷ target_of es = ground arith in
      let r = take_region-Region base start i (lines ++ e.dst ∷ []) es (ground arith) a.1 in
      simp k (record {
        base_left = r.base_left;
        target =
            r.target
            ∙ append_assoc lines (e.dst ∷ []) (target_of es)
            ∙ ap (λ (x : List Bytes). lines ++ x) (sym grows);
        aligned = r.aligned;
      })
  | inr (inr k) ↦
      let same : target_of (e ∷ es) ≡ target_of es = ground arith in
      let r =
        take_region-Region base start (i + 1) lines es
          (rw add-one (drop-suc base i e.src (source_of es) (ground arith))) a.1 in
      simp k (record {
        base_left = r.base_left;
        target = r.target ∙ ap (λ (x : List Bytes). lines ++ x) (sym same);
        aligned = r.aligned;
      })
]

take_region-start :
    (start i : ℕ) (lines : List Bytes) (es : List Edit)
    → (take_region start i lines es).0.base_start ≡ start
unfolding take_region
take_region-start start i lines [] = refl
take_region-start start i lines (e ∷ es) = ground (
  arith,
  take_region-start start (i + 1) lines es,
  take_region-start start i (lines ++ e.dst ∷ []) es,
)

-- The blocks start at or after the position where the script is read.
abbrev StartsFrom : ℕ → List ChangeBlock → Type 0
StartsFrom i [] = Unit {0}
StartsFrom i (b ∷ bs) = i ≤ b.base_start

extract-StartsFrom : (fuel i : ℕ) (es : List Edit) → StartsFrom i (extract_from fuel i es)
unfolding extract_from
extract-StartsFrom fuel i [] = tt
extract-StartsFrom zero i (e ∷ es) = tt
extract-StartsFrom (suc fuel) i (e ∷ es) = elim (EditOp-cases e.op) [
  | inl k ↦ simp k (later i (extract_from fuel (i + 1) es) (extract-StartsFrom fuel (i + 1) es))
  | inr (inl k) ↦ simp k (omega (arith, take_region-start i i [] (e ∷ es)))
  | inr (inr k) ↦ simp k (omega (arith, take_region-start i i [] (e ∷ es)))
]
  where
    later : (i : ℕ) (bs : List ChangeBlock) → StartsFrom (i + 1) bs → StartsFrom i bs
    later i [] h = tt
    later i (b ∷ bs) h = omega arith

-- A base line before the first block is copied.
apply-copy :
    (base : List Bytes) (i : ℕ) (x : Bytes) (xs : List Bytes) (bs : List ChangeBlock)
    → drop i base ≡ x ∷ xs
    → StartsFrom (i + 1) bs
    → apply_from base i bs ≡ x ∷ apply_from base (i + 1) bs
unfolding apply_from
apply-copy base i x xs [] d s =
    rw add-one (d ∙ ap (λ (l : List Bytes). x ∷ l) (sym (drop-suc base i x xs d)))
apply-copy base i x xs (b ∷ bs) d s =
    let more : b.base_start - i ≡ suc (b.base_start - (i + 1)) = omega arith in
    let next : drop (i + 1) base ≡ xs = rw add-one (drop-suc base i x xs d) in
    rw (more, d) (rw next)

source-keep : (e : Edit) (es : List Edit) → e.op ≡ keep → source_of (e ∷ es) ≡ e.src ∷ source_of es
unfolding source_of
source-keep e es k = ground arith

target-keep : (e : Edit) (es : List Edit) → e.op ≡ keep → target_of (e ∷ es) ≡ e.dst ∷ target_of es
unfolding target_of
target-keep e es k = ground arith

take_region-le :
    (start i : ℕ) (lines : List Bytes) (es : List Edit)
    → length (take_region start i lines es).1 ≤ length es
unfolding take_region
take_region-le start i lines [] = omega arith
take_region-le start i lines (e ∷ es) =
    ground (
      arith,
      take_region-le start (i + 1) lines es,
      take_region-le start i (lines ++ e.dst ∷ []) es,
    )

take_region-lt :
    (start i : ℕ) (lines : List Bytes) (e : Edit) (es : List Edit)
    → e.op ≢ keep
    → length (take_region start i lines (e ∷ es)).1 ≤ length es
unfolding take_region
take_region-lt start i lines e es k =
    ground (
      arith,
      take_region-le start (i + 1) lines es,
      take_region-le start i (lines ++ e.dst ∷ []) es,
    )

-- A block and the text after it are the target from the block on.
apply_block :
    (base : List Bytes) (i : ℕ) (es rest : List Edit) (b : ChangeBlock) (bs : List ChangeBlock)
    → b.base_start ≡ i
    → Region base [] es b rest
    → apply_from base b.base_end bs ≡ target_of rest
    → apply_from base i (b ∷ bs) ≡ target_of es
unfolding apply_from
apply_block base i es rest b bs start r ih =
    ap (λ (x : ℕ). slice base i x ++ (b.new_lines ++ apply_from base b.base_end bs)) start
    ∙ ap (λ (x : List Bytes). x ++ (b.new_lines ++ apply_from base b.base_end bs))
        (slice-empty base i)
    ∙ ap (λ (x : List Bytes). b.new_lines ++ x) ih
    ∙ r.target

apply_from-extract :
    (base : List Bytes) (fuel i : ℕ) (es : List Edit)
    → drop i base ≡ source_of es
    → IsAligned es
    → length es ≤ fuel
    → apply_from base i (extract_from fuel i es) ≡ target_of es
unfolding extract_from
apply_from-extract base fuel i [] d a le = unfold apply_from source_of target_of in d
apply_from-extract base zero i (e ∷ es) d a le = absurd (omega arith)
apply_from-extract base (suc fuel) i (e ∷ es) d a le =
    let region = take_region i i [] (e ∷ es) in
    let r = take_region-Region base i i [] (e ∷ es) d a in
    let block = λ (short : length region.1 ≤ fuel).
      apply_block base i (e ∷ es) region.1 region.0 (extract_from fuel region.0.base_end region.1)
        (take_region-start i i [] (e ∷ es)) r
        (apply_from-extract base fuel region.0.base_end region.1 r.base_left r.aligned short) in
    elim (EditOp-cases e.op) [
      | inl k ↦
          let from = d ∙ source-keep e es k in
          let next : drop (i + 1) base ≡ source_of es =
            rw add-one (drop-suc base i e.src (source_of es) from) in
          simp k (
            apply-copy base i e.src (source_of es) (extract_from fuel (i + 1) es) from
              (extract-StartsFrom fuel (i + 1) es)
            ∙ ap₂ (λ (x : Bytes) (l : List Bytes). x ∷ l) (a.0 k)
                (apply_from-extract base fuel (i + 1) es next a.1 (omega arith))
            ∙ sym (target-keep e es k))
      | inr (inl k) ↦ simp k (block (omega (arith, take_region-lt i i [] e es (ground arith))))
      | inr (inr k) ↦ simp k (block (omega (arith, take_region-lt i i [] e es (ground arith))))
    ]

-- If every kept line of an edit script is one line of both texts, the change blocks that are
-- extracted from it, put into its source text, give its target text.
pub extract_change_blocks_correct :
    (edits : List Edit)
    → IsAligned edits
    → apply_from (source_of edits) 0 (extract_change_blocks edits) ≡ target_of edits
unfolding extract_change_blocks
extract_change_blocks_correct edits a =
    apply_from-extract (source_of edits) (length edits) 0 edits refl a (omega arith)
