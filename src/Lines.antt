-- ===== src/Lines.antt =====
-- Lines of a file with their newlines, as pkg/diff/diff.go and internal/conflict/conflict.go split
-- them, and the tests on the ends of a text.
use mathlib.Core.List.{append_assoc}
use vara.Base.{
  ℕ, ◌≡◌, refl, Bool, true, false, ◌&&◌, ◌||◌, List, [], ◌∷◌, ◌++◌, arith, ◌==◌, leb, ◌↔◌,
  bytes_eq_iff, if◌then◌else◌, Bytes, bytes_eq, is_empty, Bool-cases, inl, inr, length, drop,
}

-- `strings.Join(lines, "")`, and the loops that append each line to the output.
unfoldable pub join : List Bytes → Bytes
join [] = []
join (l ∷ ls) = l ++ join ls

-- The loop of `splitLines`, where `line` is `data[start:i]`.
unfoldable pub split_from : Bytes → Bytes → List Bytes
split_from line [] = if is_empty line then [] else line ∷ []
split_from line (b ∷ rest) = elim (b == 10) [
  | true ↦ (line ++ b ∷ []) ∷ split_from [] rest
  | false ↦ split_from (line ++ b ∷ []) rest
]

unfoldable pub split_lines : Bytes → List Bytes
split_lines content = split_from [] content

unfoldable pub lines_eq : List Bytes → List Bytes → Bool
lines_eq [] [] = true
lines_eq [] (l ∷ ls) = false
lines_eq (k ∷ ks) [] = false
lines_eq (k ∷ ks) (l ∷ ls) = bytes_eq k l && lines_eq ks ls

-- `strings.HasSuffix(s, "\n")`.
unfoldable pub ends_with_newline : Bytes → Bool
ends_with_newline [] = false
ends_with_newline (b ∷ []) = b == 10
ends_with_newline (b ∷ c ∷ s) = ends_with_newline (c ∷ s)

unfoldable pub has_prefix : Bytes → Bytes → Bool
has_prefix s [] = true
has_prefix [] (p ∷ ps) = false
has_prefix (b ∷ s) (p ∷ ps) = b == p && has_prefix s ps

-- `strings.TrimRight(line, "\r\n")`.
unfoldable pub trim_end : Bytes → Bytes
trim_end [] = []
trim_end (b ∷ s) =
    let rest = trim_end s in if is_empty rest && (b == 13 || b == 10) then [] else b ∷ rest

-- White space, of the ASCII characters.
abbrev pub is_space : ℕ → Bool
is_space b = b == 32 || leb 9 b && leb b 13

unfoldable pub trim_left : Bytes → Bytes
trim_left [] = []
trim_left (b ∷ s) = let rest = trim_left s in if is_space b then rest else b ∷ s

unfoldable pub trim_right : Bytes → Bytes
trim_right [] = []
trim_right (b ∷ s) = let rest = trim_right s in if is_empty rest && is_space b then [] else b ∷ rest

unfoldable pub trim_space : Bytes → Bytes
trim_space s = trim_right (trim_left s)

unfoldable pub trim_prefix : Bytes → Bytes → Bytes
trim_prefix s p = if has_prefix s p then drop (length p) s else s

join-split_from : (line rest : Bytes) → join (split_from line rest) ≡ line ++ rest
unfolding join split_from
join-split_from [] [] = refl
join-split_from (x ∷ line) [] = refl
join-split_from line (b ∷ rest) = elim (Bool-cases (b == 10)) [
  | inl newline ↦ ground (arith, join-split_from [] rest, append_assoc line (b ∷ []) rest)
  | inr more ↦
      ground (arith, join-split_from (line ++ b ∷ []) rest, append_assoc line (b ∷ []) rest)
]

-- Splitting loses nothing.
pub join-split_lines : (content : Bytes) → join (split_lines content) ≡ content
unfolding split_lines
join-split_lines content = join-split_from [] content

pub join-append : (ks ls : List Bytes) → join (ks ++ ls) ≡ join ks ++ join ls
unfolding join
join-append [] ls = refl
join-append (k ∷ ks) ls = ground (arith, join-append ks ls, append_assoc k (join ks) (join ls))

pub lines_eq_iff : (ks ls : List Bytes) → (lines_eq ks ls ≡ true) ↔ (ks ≡ ls)
unfolding lines_eq
lines_eq_iff [] [] = (λ _. refl, λ _. refl)
lines_eq_iff [] (l ∷ ls) = ground arith
lines_eq_iff (k ∷ ks) [] = ground arith
lines_eq_iff (k ∷ ks) (l ∷ ls) = ground (arith, bytes_eq_iff k l, lines_eq_iff ks ls)
