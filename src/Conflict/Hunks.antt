-- ===== src/Conflict/Hunks.antt =====
-- internal/conflict/hunks.go: `Parse` and `Assemble` lose nothing, and `Parse` ends.
use mathlib.Core.List.{append_assoc}
use vara.Base.{
  ℕ, zero, suc, ◌+◌, ◌≤◌, ◌<◌, ◌≡◌, refl, sym, ap, ◌∙◌, true, false, List, [], ◌∷◌, ◌++◌, arith,
  Bytes, length, ok, Result-cases, ok-injective, ap₂, subst, Bool-cases, inl, inr, ◌⊎◌,
}
use vara.Lines.{join, split_lines, join-split_lines}
use vara.Conflict.{
  Hunk, Segment, conflict, Section, in_ours, in_base, in_theirs, Step, malformed, goes_on, finished,
  is_begin, append_line, line_step, take_raw, read_hunk, open_hunk, flush, parse_lines, parse,
  hunk_count, count_begins, count, settle, assemble_lines, assemble,
}

abbrev KeepsRaw : Hunk → Step → Type 0
KeepsRaw h malformed = Unit {0}
KeepsRaw h (goes_on h' section) = h'.raw ≡ h.raw
KeepsRaw h (finished h') = h'.raw ≡ h.raw

line_step-KeepsRaw : (h : Hunk) (section : Section) (l : Bytes) → KeepsRaw h (line_step h section l)
unfolding line_step append_line
line_step-KeepsRaw h in_ours l = ground arith
line_step-KeepsRaw h in_base l = ground arith
line_step-KeepsRaw h in_theirs l = ground arith

Step-cases :
    (s : Step)
    → (s ≡ malformed)
      ⊎ ((h : Hunk) × (section : Section) × (s ≡ goes_on h section))
      ⊎ ((h : Hunk) × (s ≡ finished h))
Step-cases malformed = inl refl
Step-cases (goes_on h section) = inr (inl (h, section, refl))
Step-cases (finished h) = inr (inr (h, refl))

-- A line that is taken is no begin marker.
step-not-begin :
    (h : Hunk) (section : Section) (l : Bytes)
    → is_begin l ≡ true
    → line_step h section l ≡ malformed
unfolding line_step
step-not-begin h section l b = ground arith

-- What a hunk takes: its raw lines are the lines before the rest, and none of them begins a hunk.
record Taken (h h' : Hunk) (ls rest : List Bytes) : Type 0 where
  raw : h'.raw ++ rest ≡ h.raw ++ ls
  begins : count_begins ls ≡ count_begins rest
  shorter : length rest < length ls

read_hunk-Taken :
    (h : Hunk) (section : Section) (ls : List Bytes) (h' : Hunk) (rest : List Bytes)
    → read_hunk h section ls ≡ ok (h', rest)
    → Taken h h' ls rest
unfolding read_hunk count_begins
read_hunk-Taken h section [] h' rest e = cc e
read_hunk-Taken h section (l ∷ ls) h' rest e =
    let keeps = line_step-KeepsRaw h section l in
    elim (Step-cases (line_step h section l)) [
      | inl s ↦ ground arith
      | inr (inl (k, next, s)) ↦
          let t = read_hunk-Taken (take_raw k l) next ls h' rest (ground arith) in
          let same = subst (KeepsRaw h) s keeps in
          record {
            raw =
                t.raw
                ∙ ap (λ (x : List Bytes). (x ++ l ∷ []) ++ ls) same
                ∙ append_assoc h.raw (l ∷ []) ls;
            begins = ground (arith, t.begins, step-not-begin h section l);
            shorter = omega (arith, t.shorter);
          }
      | inr (inr (k, s)) ↦
          let same = subst (KeepsRaw h) s keeps in
          let ends : ok (take_raw k l, ls) ≡ ok (h', rest) = ground arith in
          let pair = ok-injective ends in
          record {
            raw =
                ap₂ (λ (x : Hunk) (y : List Bytes). x.raw ++ y)
                  (ap (λ (q : Hunk × List Bytes). q.0) (sym pair))
                  (ap (λ (q : Hunk × List Bytes). q.1) (sym pair))
                ∙ ap (λ (x : List Bytes). (x ++ l ∷ []) ++ ls) same
                ∙ append_assoc h.raw (l ∷ []) ls;
            begins = ground (arith, step-not-begin h section l, ends);
            shorter = omega (arith, ap (λ (q : Hunk × List Bytes). length q.1) pair);
          }
    ]

lines-flush :
    (text : List Bytes) (segs : List Segment)
    → (assemble_lines (flush text segs) []).0 ≡ text ++ (assemble_lines segs []).0
unfolding flush assemble_lines
lines-flush [] segs = refl
lines-flush (l ∷ text) segs = refl

count-flush :
    (text : List Bytes) (segs : List Segment) → hunk_count (flush text segs) ≡ hunk_count segs
unfolding flush hunk_count
count-flush [] segs = refl
count-flush (l ∷ text) segs = refl

remaining-flush :
    (text : List Bytes) (segs : List Segment)
    → (assemble_lines (flush text segs) []).1 ≡ (assemble_lines segs []).1
unfolding flush assemble_lines
remaining-flush [] segs = refl
remaining-flush (l ∷ text) segs = refl

-- The segments hold the lines they were parsed from, and a hunk for each begin marker.
record Parsed (segs : List Segment) (lines : List Bytes) : Type 0 where
  whole : (assemble_lines segs []).0 ≡ lines
  hunks : hunk_count segs ≡ count_begins lines
  open_hunks : (assemble_lines segs []).1 ≡ hunk_count segs

count_begins-append :
    (ks ls : List Bytes) → count_begins (ks ++ ls) ≡ count_begins ks + count_begins ls
unfolding count_begins
count_begins-append [] ls = omega arith
count_begins-append (k ∷ ks) ls = ground (arith, count_begins-append ks ls)

Parsed-nil : Parsed [] []
unfolding assemble_lines hunk_count count_begins
Parsed-nil = record { whole = refl; hunks = refl; open_hunks = refl }

Parsed-flush :
    (text ls : List Bytes) (segs : List Segment)
    → count_begins text ≡ 0
    → Parsed segs ls
    → Parsed (flush text segs) (text ++ ls)
Parsed-flush text ls segs z p = record {
  whole = lines-flush text segs ∙ ap (λ (x : List Bytes). text ++ x) p.whole;
  hunks = omega (arith, count-flush text segs, p.hunks, count_begins-append text ls);
  open_hunks = omega (arith, remaining-flush text segs, p.open_hunks, count-flush text segs);
}

Parsed-conflict :
    (l : Bytes) (ls rest : List Bytes) (h : Hunk) (segs : List Segment)
    → is_begin l ≡ true
    → Taken (open_hunk l) h ls rest
    → Parsed segs rest
    → Parsed (conflict h ∷ segs) (l ∷ ls)
unfolding assemble_lines hunk_count count_begins settle
Parsed-conflict l ls rest h segs b t p = record {
  whole = ap (λ (x : List Bytes). h.raw ++ x) p.whole ∙ t.raw;
  hunks = ground (arith, p.hunks, t.begins);
  open_hunks = ground (arith, p.open_hunks);
}

add-plain :
    (text : List Bytes) (l : Bytes)
    → count_begins text ≡ 0
    → is_begin l ≡ false
    → count_begins (text ++ l ∷ []) ≡ 0
unfolding count_begins
add-plain text l z b = ground (arith, count_begins-append text (l ∷ []))

parse_lines-Parsed :
    (fuel : ℕ) (text ls : List Bytes) (segs : List Segment)
    → count_begins text ≡ 0
    → parse_lines fuel text ls ≡ ok segs
    → Parsed segs (text ++ ls)
unfolding parse_lines
parse_lines-Parsed fuel text [] segs z e =
    subst (λ (x : List Segment). Parsed x (text ++ [])) (ok-injective e)
      (Parsed-flush text [] [] z Parsed-nil)
parse_lines-Parsed zero text (l ∷ ls) segs z e = cc e
parse_lines-Parsed (suc fuel) text (l ∷ ls) segs z e = elim (Bool-cases (is_begin l)) [
  | inr b ↦
      let p =
        parse_lines-Parsed fuel (text ++ l ∷ []) ls segs (add-plain text l z b) (ground arith) in
      subst (Parsed segs) (append_assoc text (l ∷ []) ls) p
  | inl b ↦ elim (Result-cases (read_hunk (open_hunk l) in_ours ls)) [
    | inr (x, r) ↦ ground arith
    | inl ((h, rest), r) ↦ elim (Result-cases (parse_lines fuel [] rest)) [
      | inr (x, q) ↦ ground arith
      | inl (more, q) ↦
          let p = parse_lines-Parsed fuel [] rest more (unfold count_begins in refl) q in
          let t = read_hunk-Taken (open_hunk l) in_ours ls h rest r in
          let same : ok (flush text (conflict h ∷ more)) ≡ ok segs = ground arith in
          subst (λ (x : List Segment). Parsed x (text ++ l ∷ ls)) (ok-injective same)
            (Parsed-flush text (l ∷ ls) (conflict h ∷ more) z
              (Parsed-conflict l ls rest h more b t p))
    ]
  ]
]

-- If a file parses, assembling it with no decision gives the file back, byte for byte, and counts
-- each of its hunks as unresolved; the hunks are as many as `Count` counts begin markers.
pub assemble-parse :
    (content : Bytes) (segs : List Segment)
    → parse content ≡ ok segs
    → (assemble segs [] ≡ (content, hunk_count segs)) × (hunk_count segs ≡ count content)
unfolding parse assemble count
assemble-parse content segs e =
    let p =
      parse_lines-Parsed (length (split_lines content)) [] (split_lines content) segs
        (unfold count_begins in refl) e in
    (
      ap₂ (λ (x : List Bytes) (n : ℕ). (join x, n)) p.whole p.open_hunks
          ∙ ap (λ (x : Bytes). (x, hunk_count segs)) (join-split_lines content),
      p.hunks,
    )

-- The fuel of `parse`, the number of lines, is enough: more fuel gives the same.
pub parse_lines-fuel :
    (f g : ℕ) (text ls : List Bytes)
    → length ls ≤ f
    → length ls ≤ g
    → parse_lines f text ls ≡ parse_lines g text ls
unfolding parse_lines
parse_lines-fuel f g text [] hf hg = refl
parse_lines-fuel zero g text (l ∷ ls) hf hg = absurd (omega arith)
parse_lines-fuel (suc f) zero text (l ∷ ls) hf hg = absurd (omega arith)
parse_lines-fuel (suc f) (suc g) text (l ∷ ls) hf hg = elim (Bool-cases (is_begin l)) [
  | inr b ↦ ground (arith, parse_lines-fuel f g (text ++ l ∷ []) ls (omega arith) (omega arith))
  | inl b ↦ elim (Result-cases (read_hunk (open_hunk l) in_ours ls)) [
    | inr (x, r) ↦ ground arith
    | inl ((h, rest), r) ↦
        let t = read_hunk-Taken (open_hunk l) in_ours ls h rest r in
        ground (
          arith,
          parse_lines-fuel f g [] rest (omega (arith, t.shorter)) (omega (arith, t.shorter)),
        )
  ]
]
