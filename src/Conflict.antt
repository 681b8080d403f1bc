-- ===== src/Conflict.antt =====
-- internal/conflict: the conflict markers of a file and their resolution (conflict.go, hunks.go).
pub mod Hunks
pub mod Resolve
pub mod Settled
mod Tests
mod ResolveTests
use vara.Base.{
  ℕ, zero, suc, ◌+◌, ◌≡◌, Bool, true, false, not, ◌&&◌, ◌||◌, Option, none, some, List, [], ◌∷◌,
  ◌++◌, ltb, ◌==◌, if◌then◌else◌, Bytes, bytes_eq, codes, length, take, is_empty, Result, ok, err,
  failure,
}
use vara.Lines.{join, split_lines, has_prefix, trim_end, trim_space, trim_prefix, ends_with_newline}

abbrev pub marker_begin : Bytes
marker_begin = codes "<<<<<<<"

abbrev pub marker_sep : Bytes
marker_sep = codes "======="

abbrev pub marker_end : Bytes
marker_end = codes ">>>>>>>"

abbrev pub marker_base : Bytes
marker_base = codes "|||||||"

unfoldable pub is_begin : Bytes → Bool
is_begin line = has_prefix (trim_end line) marker_begin

unfoldable pub is_end : Bytes → Bool
is_end line = has_prefix (trim_end line) marker_end

unfoldable pub is_sep : Bytes → Bool
is_sep line = bytes_eq (trim_end line) marker_sep

unfoldable pub is_base_marker : Bytes → Bool
is_base_marker line = has_prefix (trim_end line) marker_base

unfoldable pub label : Bytes → Bytes → Bytes
label line marker = trim_space (trim_prefix (trim_end line) marker)

pub record Hunk : Type 0 where
  pub our_label : Bytes
  pub their_label : Bytes
  pub ours : List Bytes
  pub base : List Bytes
  pub theirs : List Bytes
  pub has_base : Bool
  pub raw : List Bytes

-- The struct `Segment` has one of its two fields set.
pub data Segment : Type 0 where
  plain : List Bytes → Segment
  conflict : Hunk → Segment

-- What `section` points to.
pub data Section : Type 0 where
  in_ours in_base in_theirs : Section

pub data Step : Type 0 where
  malformed : Step
  goes_on : Hunk → Section → Step
  finished : Hunk → Step

unfoldable pub append_line : Hunk → Section → Bytes → Hunk
append_line h in_ours l = record h { ours = h.ours ++ l ∷ [] }
append_line h in_base l = record h { base = h.base ++ l ∷ [] }
append_line h in_theirs l = record h { theirs = h.theirs ++ l ∷ [] }

abbrev pub at_ours : Section → Bool
at_ours in_ours = true
at_ours _ = false

abbrev pub at_base : Section → Bool
at_base in_base = true
at_base _ = false

abbrev pub at_theirs : Section → Bool
at_theirs in_theirs = true
at_theirs _ = false

-- The `switch` of the inner loop of `Parse`.
unfoldable pub line_step : Hunk → Section → Bytes → Step
line_step h section l =
    if is_begin l
    then malformed
    else if is_base_marker l && (not h.has_base && at_ours section)
    then goes_on (record h { has_base = true }) in_base
    else if is_base_marker l && (h.has_base && at_base section)
    then malformed
    else if is_sep l && not (at_theirs section)
    then goes_on h in_theirs
    else if is_end l && at_theirs section
    then finished (record h { their_label = label l marker_end })
    else if is_end l
    then malformed
    else goes_on (append_line h section l) section

-- `h.Raw` is `lines[start:j+1]`: each line that the hunk takes is added.
abbrev pub take_raw : Hunk → Bytes → Hunk
take_raw h l = record h { raw = h.raw ++ l ∷ [] }

-- The inner loop, from the line after the begin marker. With the hunk come the lines after it.
unfoldable pub read_hunk : Hunk → Section → List Bytes → Result (Hunk × List Bytes)
read_hunk h section [] = err failure
read_hunk h section (l ∷ ls) = elim (line_step h section l) [
  | malformed ↦ err failure
  | goes_on h' section' ↦ read_hunk (take_raw h' l) section' ls
  | finished h' ↦ ok (take_raw h' l, ls)
]

abbrev pub open_hunk : Bytes → Hunk
open_hunk l = record {
  our_label = label l marker_begin;
  their_label = [];
  ours = [];
  base = [];
  theirs = [];
  has_base = false;
  raw = l ∷ [];
}

unfoldable pub flush : List Bytes → List Segment → List Segment
flush text segs = if is_empty text then segs else plain text ∷ segs

abbrev pub map_ok {ℓ κ} : {A : Type ℓ} {B : Type κ} → (A → B) → Result A → Result B
map_ok f (err e) = err e
map_ok f (ok a) = ok (f a)

-- The outer loop of `Parse`: `text` holds the plain lines that are not flushed yet. The fuel
-- bounds the rounds, each of which takes a line.
unfoldable pub parse_lines : ℕ → List Bytes → List Bytes → Result (List Segment)
parse_lines fuel text [] = ok (flush text [])
parse_lines zero text (l ∷ ls) = err failure
parse_lines (suc fuel) text (l ∷ ls) = elim (is_begin l) [
  | false ↦ parse_lines fuel (text ++ l ∷ []) ls
  | true ↦ elim (read_hunk (open_hunk l) in_ours ls) [
    | err e ↦ err e
    | ok (h, rest) ↦ map_ok (λ segs. flush text (conflict h ∷ segs)) (parse_lines fuel [] rest)
  ]
]

unfoldable pub parse : Bytes → Result (List Segment)
parse content = let lines = split_lines content in parse_lines (length lines) [] lines

unfoldable pub hunk_count : List Segment → ℕ
hunk_count [] = 0
hunk_count (plain _ ∷ segs) = hunk_count segs
hunk_count (conflict _ ∷ segs) = suc (hunk_count segs)

unfoldable pub count_begins : List Bytes → ℕ
count_begins [] = 0
count_begins (l ∷ ls) = if is_begin l then suc (count_begins ls) else count_begins ls

-- `Count`.
unfoldable pub count : Bytes → ℕ
count content = count_begins (split_lines content)

-- A `Decision`: its pick, with the lines of a custom one.
pub data Decision : Type 0 where
  pick_skip pick_ours pick_theirs pick_both pick_both_theirs_first : Decision
  pick_custom : List Bytes → Decision

-- `out[n-1] += "\n"` where the last line lacks it.
unfoldable pub close_last : List Bytes → List Bytes
close_last [] = []
close_last (l ∷ []) = (if ends_with_newline l then l else l ++ 10 ∷ []) ∷ []
close_last (l ∷ k ∷ ls) = l ∷ close_last (k ∷ ls)

unfoldable pub join_lines : List Bytes → List Bytes → List Bytes
join_lines a b = if is_empty b then a ++ b else close_last a ++ b

-- The lines that a decision gives for a hunk, and whether the hunk is still open.
unfoldable pub settle : Hunk → Decision → List Bytes × Bool
settle h pick_ours = (h.ours, false)
settle h pick_theirs = (h.theirs, false)
settle h pick_both = (join_lines h.ours h.theirs, false)
settle h pick_both_theirs_first = (join_lines h.theirs h.ours, false)
settle h (pick_custom lines) = (lines, false)
settle h pick_skip = (h.raw, true)

-- `decisions[k]`, or the zero decision.
abbrev pub first_decision : List Decision → Decision
first_decision [] = pick_skip
first_decision (d ∷ ds) = d

abbrev pub later_decisions : List Decision → List Decision
later_decisions [] = []
later_decisions (d ∷ ds) = ds

unfoldable pub assemble_lines : List Segment → List Decision → List Bytes × ℕ
assemble_lines [] ds = ([], 0)
assemble_lines (plain text ∷ segs) ds =
    let (out, remaining) = assemble_lines segs ds in (text ++ out, remaining)
assemble_lines (conflict h ∷ segs) ds =
    let (lines, open_) = settle h (first_decision ds) in
    let (out, remaining) = assemble_lines segs (later_decisions ds) in
    (lines ++ out, if open_ then suc remaining else remaining)

unfoldable pub assemble : List Segment → List Decision → Bytes × ℕ
assemble segs ds = let (out, remaining) = assemble_lines segs ds in (join out, remaining)
