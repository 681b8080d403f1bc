-- ===== src/Conflict/Settled.antt =====
-- internal/conflict/conflict.go: what the statistics of `Resolve` count.
use vara.Base.{
  ℕ, zero, suc, ◌+◌, ◌≤◌, ◌<◌, ◌≡◌, ◌⊎◌, refl, Bool, true, false, ◌||◌, List, [], ◌∷◌, ◌++◌, arith,
  Bytes, bytes_eq, length, ◌∙◌, Bool-cases, inl, inr, Result-cases, ok,
}
use vara.Lines.{has_prefix, trim_end, split_lines}
use vara.Conflict.{
  is_begin, is_sep, is_end, count, count_begins, marker_begin, marker_sep, marker_end,
}
use vara.Conflict.Resolve.{
  Strategy, ours, theirs, union, auto, Stats, Side, read_side, read_ours, read_theirs, resolve_hunk,
  add_hunk, resolve_lines, resolve,
}

prefix-sep : (s : Bytes) → has_prefix s marker_begin ≡ true → bytes_eq s marker_sep ≡ false
unfolding has_prefix bytes_eq
prefix-sep [] h = ground arith
prefix-sep (b ∷ s) h = ground arith

prefix-end : (s : Bytes) → has_prefix s marker_begin ≡ true → has_prefix s marker_end ≡ false
unfolding has_prefix
prefix-end [] h = ground arith
prefix-end (b ∷ s) h = ground arith

sep_begin : (l : Bytes) → is_sep l ≡ true → is_begin l ≡ false
unfolding is_sep is_begin
sep_begin l h = ground (arith, prefix-sep (trim_end l))

end_begin : (l : Bytes) → is_end l ≡ true → is_begin l ≡ false
unfolding is_end is_begin
end_begin l h = ground (arith, prefix-end (trim_end l))

-- No line of a side, nor its marker, begins a conflict, and the rest is shorter.
read_side-begins :
    (stops is_bad : Bytes → Bool) (ls : List Bytes) (side : Side)
    → ((l : Bytes) → stops l ≡ true → is_begin l ≡ false)
    → ((l : Bytes) → is_bad l ≡ false → is_begin l ≡ false)
    → read_side stops is_bad ls ≡ ok side
    → (count_begins ls ≡ count_begins side.rest) × (length side.rest < length ls)
unfolding read_side count_begins
read_side-begins stops is_bad [] side hs hb e = cc e
read_side-begins stops is_bad (l ∷ ls) side hs hb e = elim (Bool-cases (stops l)) [
  | inl s ↦ let b = hs l s in let r : side.rest ≡ ls = ground arith in (ground arith, ground arith)
  | inr s ↦ elim (Bool-cases (is_bad l)) [
    | inl bad ↦ absurd (ground arith)
    | inr good ↦ elim (Result-cases (read_side stops is_bad ls)) [
      | inr (x, r) ↦ absurd (ground arith)
      | inl (k, r) ↦
          let b = hb l good in
          let (begins, shorter) = read_side-begins stops is_bad ls k hs hb r in
          let same : side.rest ≡ k.rest = ground arith in (ground arith, ground arith)
    ]
  ]
]

hunk_settled :
    (o t : List Bytes) (strategy : Strategy) (original : List Bytes)
    → (strategy ≡ auto) ⊎ ((resolve_hunk o t strategy original).1 ≡ true)
unfolding resolve_hunk
hunk_settled o t ours original = inr refl
hunk_settled o t theirs original = inr refl
hunk_settled o t union original = inr refl
hunk_settled o t auto original = inl refl

-- The statistics of the loop.
record Settled (strategy : Strategy) (ls : List Bytes) (stats : Stats) : Type 0 where
  total : stats.total ≡ count_begins ls
  parts : stats.total ≡ stats.resolved + stats.remaining
  sure : (strategy ≡ auto) ⊎ (stats.remaining ≡ 0)

Settled-plain :
    (strategy : Strategy) (l : Bytes) (ls : List Bytes) (more stats : Stats)
    → is_begin l ≡ false
    → stats ≡ more
    → Settled strategy ls more
    → Settled strategy (l ∷ ls) stats
unfolding count_begins
Settled-plain strategy l ls more stats b same p = record {
  total = ground (arith, p.total);
  parts = ground (arith, p.parts);
  sure = elim p.sure [ inl a ↦ inl a | inr z ↦ inr (ground arith) ];
}

Settled-hunk :
    (strategy : Strategy) (l : Bytes) (ls rest : List Bytes) (hunk : List Bytes × Bool)
    (out : List Bytes) (more stats : Stats)
    → is_begin l ≡ true
    → count_begins ls ≡ count_begins rest
    → (strategy ≡ auto) ⊎ (hunk.1 ≡ true)
    → stats ≡ (add_hunk hunk (out, more)).1
    → Settled strategy rest more
    → Settled strategy (l ∷ ls) stats
unfolding count_begins
Settled-hunk strategy l ls rest (lines, done) out more stats b begins settled same p = record {
  total = ground (arith, p.total);
  parts = elim (Bool-cases done) [
    | inl d ↦ ground (arith, p.parts)
    | inr d ↦ ground (arith, p.parts)
  ];
  sure = elim settled [
    | inl a ↦ inl a
    | inr d ↦ elim p.sure [ inl a ↦ inl a | inr z ↦ inr (ground arith) ]
  ];
}

read_ours-begins :
    (ls : List Bytes) (side : Side)
    → read_ours ls ≡ ok side
    → (count_begins ls ≡ count_begins side.rest) × (length side.rest < length ls)
read_ours-begins ls side e =
    read_side-begins is_sep (λ l. is_begin l || is_end l) ls side sep_begin (λ l h. ground arith) e

read_theirs-begins :
    (ls : List Bytes) (side : Side)
    → read_theirs ls ≡ ok side
    → (count_begins ls ≡ count_begins side.rest) × (length side.rest < length ls)
read_theirs-begins ls side e =
    read_side-begins is_end (λ l. is_begin l || is_sep l) ls side end_begin (λ l h. ground arith) e

resolve_lines-Settled :
    (fuel : ℕ) (strategy : Strategy) (ls out : List Bytes) (stats : Stats)
    → resolve_lines fuel strategy ls ≡ ok (out, stats)
    → Settled strategy ls stats
unfolding resolve_lines
resolve_lines-Settled fuel strategy [] out stats e = record {
  total = unfold count_begins in ground arith;
  parts = ground arith;
  sure = inr (ground arith);
}
resolve_lines-Settled zero strategy (l ∷ ls) out stats e = cc e
resolve_lines-Settled (suc fuel) strategy (l ∷ ls) out stats e = elim (Bool-cases (is_begin l)) [
  | inr b ↦ elim (Result-cases (resolve_lines fuel strategy ls)) [
    | inr (x, r) ↦ absurd (ground arith)
    | inl ((out', more), r) ↦
        let p = resolve_lines-Settled fuel strategy ls out' more r in
        let same : stats ≡ more = ground arith in Settled-plain strategy l ls more stats b same p
  ]
  | inl b ↦ elim (Result-cases (read_ours ls)) [
    | inr (x, r) ↦ absurd (ground arith)
    | inl (o, ro) ↦ elim (Result-cases (read_theirs o.rest)) [
      | inr (x, r) ↦ absurd (ground arith)
      | inl (t, rt) ↦ elim (Result-cases (resolve_lines fuel strategy t.rest)) [
        | inr (x, r) ↦ absurd (ground arith)
        | inl ((out', more), r) ↦
            let p = resolve_lines-Settled fuel strategy t.rest out' more r in
            let original = l ∷ o.lines ++ (o.marker ∷ t.lines ++ t.marker ∷ []) in
            let hunk = resolve_hunk o.lines t.lines strategy original in
            let same : stats ≡ (add_hunk hunk (out', more)).1 = ground arith in
            Settled-hunk strategy l ls t.rest hunk out' more stats b
              ((read_ours-begins ls o ro).0 ∙ (read_theirs-begins o.rest t rt).0)
              (hunk_settled o.lines t.lines strategy original) same p
      ]
    ]
  ]
]

-- If `Resolve` gives no error, its total is the number of conflicts that `Count` counts, and is the
-- resolved and the remaining ones together; and none remains unless the strategy is `Auto`.
pub resolve-count :
    (content out : Bytes) (strategy : Strategy) (stats : Stats)
    → resolve content strategy ≡ ok (out, stats)
    → (stats.total ≡ count content)
      × (stats.total ≡ stats.resolved + stats.remaining)
      × ((strategy ≡ auto) ⊎ (stats.remaining ≡ 0))
unfolding resolve count
resolve-count content out strategy stats e =
    elim (Result-cases
      (resolve_lines (length (split_lines content)) strategy (split_lines content))) [
        | inr (x, r) ↦ absurd (ground arith)
        | inl ((lines, more), r) ↦
            let p =
              resolve_lines-Settled (length (split_lines content)) strategy (split_lines content)
                lines more r in
            let same : stats ≡ more = ground arith in
            (
              ground (arith, p.total),
              ground (arith, p.parts),
              elim p.sure [ inl a ↦ inl a | inr z ↦ inr (ground arith) ],
            )
      ]

-- The fuel of `Resolve`, the number of lines, is enough: more fuel gives the same.
pub resolve_lines-fuel :
    (f g : ℕ) (strategy : Strategy) (ls : List Bytes)
    → length ls ≤ f
    → length ls ≤ g
    → resolve_lines f strategy ls ≡ resolve_lines g strategy ls
unfolding resolve_lines
resolve_lines-fuel f g strategy [] hf hg = refl
resolve_lines-fuel zero g strategy (l ∷ ls) hf hg = absurd (omega arith)
resolve_lines-fuel (suc f) zero strategy (l ∷ ls) hf hg = absurd (omega arith)
resolve_lines-fuel (suc f) (suc g) strategy (l ∷ ls) hf hg = elim (Bool-cases (is_begin l)) [
  | inr b ↦ ground (arith, resolve_lines-fuel f g strategy ls (omega arith) (omega arith))
  | inl b ↦ elim (Result-cases (read_ours ls)) [
    | inr (x, r) ↦ ground arith
    | inl (o, ro) ↦ elim (Result-cases (read_theirs o.rest)) [
      | inr (x, r) ↦ ground arith
      | inl (t, rt) ↦
          let short : length t.rest < length ls =
            omega (arith, (read_ours-begins ls o ro).1, (read_theirs-begins o.rest t rt).1) in
          ground (arith, resolve_lines-fuel f g strategy t.rest (omega arith) (omega arith))
    ]
  ]
]
