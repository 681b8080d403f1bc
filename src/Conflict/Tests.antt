-- ===== src/Conflict/Tests.antt =====
-- internal/conflict: the theorems on a small file, and runs of the parser.
use vara.Base.{◌≡◌, refl, false, List, [], ◌∷◌, ◌++◌, Bytes, bytes_eq, codes, ok, err, failure}
use vara.Lines.{
  join, split_lines, split_from, has_prefix, trim_end, trim_space, trim_left, trim_right,
  trim_prefix, ends_with_newline,
}
use vara.Conflict.{
  Hunk, Segment, plain, conflict, pick_ours, pick_both, is_begin, is_end, is_sep, is_base_marker,
  label, append_line, line_step, read_hunk, flush, parse_lines, parse, hunk_count, count, settle,
  join_lines, close_last, assemble_lines, assemble,
}
use vara.Conflict.Hunks.{assemble-parse}

abbrev line : Bytes → Bytes
line s = s ++ 10 ∷ []

abbrev conflicted : Bytes
conflicted =
    codes "a"
    ++ 10
      ∷ (line (codes "<<<<<<< me")
          ++ (line (codes "b")
              ++ (line (codes "=======") ++ (line (codes "c") ++ line (codes ">>>>>>> you")))))

abbrev conflicted_hunk : Hunk
conflicted_hunk = record {
  our_label = codes "me";
  their_label = codes "you";
  ours = line (codes "b") ∷ [];
  base = [];
  theirs = line (codes "c") ∷ [];
  has_base = false;
  raw =
      line (codes "<<<<<<< me")
      ∷ line (codes "b")
      ∷ line (codes "=======")
      ∷ line (codes "c")
      ∷ line (codes ">>>>>>> you")
      ∷ [];
}

abbrev segments : List Segment
segments = plain (line (codes "a") ∷ []) ∷ conflict conflicted_hunk ∷ []

parse-conflicted : parse conflicted ≡ ok segments
unfolding parse parse_lines read_hunk line_step append_line flush is_begin is_end is_sep
    is_base_marker label split_lines split_from has_prefix trim_end trim_space trim_left trim_right
    trim_prefix bytes_eq
parse-conflicted = refl

parse-unterminated : parse (line (codes "<<<<<<< me")) ≡ err failure
unfolding parse parse_lines read_hunk is_begin split_lines split_from has_prefix trim_end
parse-unterminated = refl

assemble-ours : assemble segments (pick_ours ∷ []) ≡ (codes "a" ++ 10 ∷ line (codes "b"), 0)
unfolding assemble assemble_lines settle join
assemble-ours = refl

assemble-both :
    assemble segments (pick_both ∷ [])
    ≡ (codes "a" ++ 10 ∷ (line (codes "b") ++ line (codes "c")), 0)
unfolding assemble assemble_lines settle join join_lines close_last ends_with_newline
assemble-both = refl

assemble-parse_example :
    (assemble segments [] ≡ (conflicted, hunk_count segments))
    × (hunk_count segments ≡ count conflicted)
assemble-parse_example = assemble-parse conflicted segments parse-conflicted
