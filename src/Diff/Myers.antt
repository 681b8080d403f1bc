-- ===== src/Diff/Myers.antt =====
-- pkg/diff/myers.go: the edit script of two texts. The diagonal `k` is the index `k + offset` of `v`;
-- `y = x - k` is at least 0 on every diagonal that a round visits.
use vara.Base.{
  ℕ, zero, suc, ◌+◌, ◌-◌, ◌*◌, Bool, not, ◌&&◌, ◌||◌, Option, none, some, List, [], ◌∷◌, ◌++◌, map,
  ltb, leb, ◌==◌, if◌then◌else◌, Bytes, bytes_eq, length, is_empty,
}
use vara.Diff.{Edit, keep, insert, delete}

unfoldable pub line_at : List Bytes → ℕ → Bytes
line_at [] i = []
line_at (l ∷ ls) zero = l
line_at (l ∷ ls) (suc i) = line_at ls i

-- `v[i]`, and `v[i] = x`.
unfoldable pub entry : List ℕ → ℕ → ℕ
entry [] i = 0
entry (x ∷ v) zero = x
entry (x ∷ v) (suc i) = entry v i

unfoldable pub set_entry : List ℕ → ℕ → ℕ → List ℕ
set_entry [] i y = []
set_entry (x ∷ v) zero y = y ∷ v
set_entry (x ∷ v) (suc i) y = x ∷ set_entry v i y

unfoldable pub zeros : ℕ → List ℕ
zeros zero = []
zeros (suc n) = 0 ∷ zeros n

abbrev pub inserted : Bytes → Edit
inserted l = record { op = insert; src = []; dst = l }

abbrev pub deleted : Bytes → Edit
deleted l = record { op = delete; src = l; dst = [] }

-- Whether the step to the diagonal of index `j` is an insertion.
abbrev pub is_down : List ℕ → ℕ → ℕ → ℕ → Bool
is_down v offset d j =
    j + d == offset || (not (j == offset + d) && ltb (entry v (j - 1)) (entry v (j + 1)))

module _ (src dst : List Bytes) where
  -- The snake from `(x, y)`; the fuel bounds its lines.
  unfoldable pub extend : ℕ → ℕ → ℕ → ℕ
  extend zero x y = x
  extend (suc fuel) x y =
      let more = extend fuel (x + 1) (y + 1) in
      if ltb x (length src) && (ltb y (length dst) && bytes_eq (line_at src x) (line_at dst y))
      then more
      else x

  abbrev pub reach_on : List ℕ → ℕ → ℕ → ℕ → ℕ
  reach_on v offset d j =
      let x = if is_down v offset d j then entry v (j + 1) else entry v (j - 1) + 1 in
      extend (length src) x (x + offset - j)

  -- The loop over the diagonals, with the number that is left: the new `v`, or `none` at the end of
  -- both texts.
  unfoldable pub round_ : ℕ → ℕ → ℕ → ℕ → List ℕ → Option (List ℕ)
  round_ zero offset d j v = some v
  round_ (suc left) offset d j v =
      let x = reach_on v offset d j in
      let more = round_ left offset d (j + 2) (set_entry v j x) in
      if leb (length src) x && leb (length dst) (x + offset - j) then none else more

  -- The snake of `buildEdits`, backward from `(x, y)` while both are above the bounds.
  unfoldable pub keeps : ℕ → ℕ → ℕ → ℕ → List Edit → List Edit
  keeps low_x low_y zero y edits = edits
  keeps low_x low_y (suc x) zero edits = edits
  keeps low_x low_y (suc x) (suc y) edits =
      let more =
        keeps low_x low_y x y
          (record { op = keep; src = line_at src x; dst = line_at dst y } ∷ edits) in
      if ltb low_x (suc x) && ltb low_y (suc y) then more else edits

  -- `buildEdits` with the traces from the d-th one down; the script is built from its end.
  unfoldable pub build_edits : ℕ → ℕ → List (List ℕ) → ℕ → ℕ → List Edit → List Edit
  build_edits offset zero traces x y edits = keeps 0 0 x y edits
  build_edits offset (suc d) [] x y edits = edits
  build_edits offset (suc d) (v ∷ traces) x y edits =
      let j = x + offset - y in
      if is_down v offset (suc d) j
      then (let px = entry v (j + 1) in
          let py = px + offset - (j + 1) in
          build_edits offset d traces px py
            (inserted (line_at dst py) ∷ keeps px (py + 1) x y edits))
      else (let px = entry v (j - 1) in
          let py = px + offset - (j - 1) in
          build_edits offset d traces px py
            (deleted (line_at src px) ∷ keeps (px + 1) py x y edits))

  -- The rounds from `d` on, with the number that is left.
  unfoldable pub search_from : ℕ → ℕ → ℕ → List ℕ → List (List ℕ) → List Edit
  search_from zero offset d v traces = map deleted src ++ map inserted dst
  search_from (suc left) offset d v traces = elim (round_ (d + 1) offset d (offset - d) v) [
    | none ↦ build_edits offset d (v ∷ traces) (length src) (length dst) []
    | some v' ↦ search_from left offset (d + 1) v' (v ∷ traces)
  ]

  unfoldable pub myers_diff : List Edit
  myers_diff =
      if is_empty src
      then map inserted dst
      else if is_empty dst
      then map deleted src
      else (let max = length src + length dst in
          search_from (max + 1) max 0 (zeros (2 * max + 1)) [])
