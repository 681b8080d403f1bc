-- ===== src/Base/Unseen.antt =====
-- A map used as a set, such as `visited`: the members of a finite universe that it lacks. They bound
-- the rounds of the loops that add to it.
use mathlib.Core.Path.{◌≡◌}
use mathlib.Core.Bool.{false}
use mathlib.Core.List.{List, [], ◌∷◌}
use native.Mathlib.Omega.{arith}
use Prim.Native.Nat.{ℕ, suc, ◌≤◌}
use vara.Base.Tests.{if◌then◌else◌}
use vara.Base.Lists.{Bytes, Member, contains, length, bytes_eq_iff}

-- The byte strings of a universe without their flag.
abbrev pub unseen : List Bytes → List Bytes → ℕ
unseen [] visited = 0
unseen (x ∷ xs) visited = if contains visited x then unseen xs visited else suc (unseen xs visited)

pub unseen-cons :
    (ids visited : List Bytes) (p : Bytes) → unseen ids (p ∷ visited) ≤ unseen ids visited
unfolding contains
unseen-cons [] visited p = omega arith
unseen-cons (x ∷ xs) visited p = ground (arith, unseen-cons xs visited p)

pub unseen-visit :
    (ids visited : List Bytes) (p : Bytes)
    → Member p ids
    → contains visited p ≡ false
    → suc (unseen ids (p ∷ visited)) ≤ unseen ids visited
unfolding contains
unseen-visit [] visited p m h = absurd m
unseen-visit (x ∷ xs) visited p m h =
    ground (arith, unseen-visit xs visited p, unseen-cons xs visited p, bytes_eq_iff p x)

pub unseen-le : (ids visited : List Bytes) → unseen ids visited ≤ length ids
unseen-le [] visited = omega arith
unseen-le (x ∷ xs) visited = ground (arith, unseen-le xs visited)
