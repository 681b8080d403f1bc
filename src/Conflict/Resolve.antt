-- ===== src/Conflict/Resolve.antt =====
-- internal/conflict/conflict.go: `Resolve`, which settles every conflict of a file by one strategy.
use vara.Base.{
  ℕ, zero, suc, Bool, true, false, ◌||◌, List, [], ◌∷◌, ◌++◌, if◌then◌else◌, Bytes, length,
  is_empty, Result, ok, err, failure,
}
use vara.Lines.{join, split_lines, lines_eq}
use vara.Conflict.{is_begin, is_sep, is_end, map_ok}

-- `Strategy`; the function is only called with one that `ParseStrategy` gives.
pub data Strategy : Type 0 where
  ours theirs union auto : Strategy

pub record Stats : Type 0 where
  pub total : ℕ
  pub resolved : ℕ
  pub remaining : ℕ

-- The lines of one side.
pub record Side : Type 0 where
  pub lines : List Bytes
  pub marker : Bytes
  pub rest : List Bytes

abbrev pub add_line : Bytes → Side → Side
add_line l side = record side { lines = l ∷ side.lines }

-- The loops over the lines of a side, up to its marker.
unfoldable pub read_side : (Bytes → Bool) → (Bytes → Bool) → List Bytes → Result Side
read_side stops is_bad [] = err failure
read_side stops is_bad (l ∷ ls) =
    let more = map_ok (add_line l) (read_side stops is_bad ls) in
    if stops l
    then ok (record { lines = []; marker = l; rest = ls })
    else if is_bad l
    then err failure
    else more

abbrev pub read_ours : List Bytes → Result Side
read_ours ls = read_side is_sep (λ l. is_begin l || is_end l) ls

abbrev pub read_theirs : List Bytes → Result Side
read_theirs ls = read_side is_end (λ l. is_begin l || is_sep l) ls

unfoldable pub resolve_hunk : List Bytes → List Bytes → Strategy → List Bytes → List Bytes × Bool
resolve_hunk our_lines their_lines ours original = (our_lines, true)
resolve_hunk our_lines their_lines theirs original = (their_lines, true)
resolve_hunk our_lines their_lines union original = (our_lines ++ their_lines, true)
resolve_hunk our_lines their_lines auto original =
    if lines_eq our_lines their_lines
    then (our_lines, true)
    else if is_empty our_lines
    then (their_lines, true)
    else if is_empty their_lines
    then (our_lines, true)
    else (original, false)

abbrev pub add_hunk : List Bytes × Bool → List Bytes × Stats → List Bytes × Stats
add_hunk (lines, done) (out, stats) = (
  lines ++ out,
  record {
    total = suc stats.total;
    resolved = if done then suc stats.resolved else stats.resolved;
    remaining = if done then stats.remaining else suc stats.remaining;
  },
)

abbrev pub add_plain : Bytes → List Bytes × Stats → List Bytes × Stats
add_plain l (out, stats) = (l ∷ out, stats)

-- The loop of `Resolve`, on fuel for its rounds, each of which takes a line.
unfoldable pub resolve_lines : ℕ → Strategy → List Bytes → Result (List Bytes × Stats)
resolve_lines fuel strategy [] = ok ([], record { total = 0; resolved = 0; remaining = 0 })
resolve_lines zero strategy (l ∷ ls) = err failure
resolve_lines (suc fuel) strategy (l ∷ ls) = elim (is_begin l) [
  | false ↦ map_ok (add_plain l) (resolve_lines fuel strategy ls)
  | true ↦ elim (read_ours ls) [
    | err e ↦ err e
    | ok o ↦ elim (read_theirs o.rest) [
      | err e ↦ err e
      | ok t ↦
          let original = l ∷ o.lines ++ (o.marker ∷ t.lines ++ t.marker ∷ []) in
          map_ok (add_hunk (resolve_hunk o.lines t.lines strategy original))
            (resolve_lines fuel strategy t.rest)
    ]
  ]
]

abbrev pub join_out : List Bytes × Stats → Bytes × Stats
join_out (out, stats) = (join out, stats)

unfoldable pub resolve : Bytes → Strategy → Result (Bytes × Stats)
resolve content strategy =
    let lines = split_lines content in map_ok join_out (resolve_lines (length lines) strategy lines)
