-- ===== src/Graph/Queue.antt =====
-- pkg/graph/graph.go: what queueing the parents of a commit does to the queue and the flags.
use mathlib.Core.List.{append-nil, append_assoc}
use vara.Base.{
  sym, ◌+◌, ◌≤◌, ◌≡◌, ◌↔◌, ◌⊎◌, inl, inr, true, false, List, [], ◌∷◌, ◌++◌, arith, bytes_eq_iff,
  unseen, unseen-visit, Member, Member-append, contains, length, length-append, Bool-cases,
}
use vara.Hash.{BaseId}
use vara.Graph.{Frontier, visit, visit_all}

pub visited-visit_all :
    (ps : List BaseId) (s : Frontier) (w : BaseId)
    → (contains (visit_all ps s).visited w ≡ true) ↔ ((contains s.visited w ≡ true) ⊎ Member w ps)
unfolding visit_all visit contains
visited-visit_all [] s w = ground arith
visited-visit_all (p ∷ ps) s w =
    ground (arith, visited-visit_all ps (visit p s) w, bytes_eq_iff p w)

pub queue-visit_all :
    (ps : List BaseId) (s : Frontier) (w : BaseId)
    → Member w (visit_all ps s).queue ↔ (
        Member w s.queue
        ⊎ (contains (visit_all ps s).visited w ≡ true) × (contains s.visited w ≡ false))
unfolding visit_all visit contains
queue-visit_all [] s w = ground arith
queue-visit_all (p ∷ ps) s w = ground (
  arith,
  queue-visit_all ps (visit p s) w,
  visited-visit_all ps (visit p s) w,
  bytes_eq_iff p w,
  Member-append w s.queue (p ∷ []),
)

abbrev pub AllIn : List BaseId → List BaseId → Type 0
AllIn ids [] = Unit {0}
AllIn ids (p ∷ ps) = Member p ids × AllIn ids ps

-- Queueing never adds more work than the flags it sets take away.
pub work-visit_all :
    (ids ps : List BaseId) (s : Frontier)
    → AllIn ids ps
    → unseen ids (visit_all ps s).visited + length (visit_all ps s).queue
      ≤ unseen ids s.visited + length s.queue
unfolding visit_all visit contains
work-visit_all ids [] s h = omega arith
work-visit_all ids (p ∷ ps) s h = ground (
  arith,
  work-visit_all ids ps (visit p s) h.1,
  unseen-visit ids s.visited p h.0,
  length-append s.queue (p ∷ []),
)

AllIn-append :
    (ids xs : List BaseId) (p : BaseId) → AllIn ids xs → Member p ids → AllIn ids (xs ++ p ∷ [])
AllIn-append ids [] p h m = (m, tt)
AllIn-append ids (x ∷ xs) p h m = (h.0, AllIn-append ids xs p h.1 m)

pub AllIn-visit_all :
    (ids ps : List BaseId) (s : Frontier)
    → AllIn ids s.queue
    → AllIn ids ps
    → AllIn ids (visit_all ps s).queue
unfolding visit_all visit
AllIn-visit_all ids [] s h k = h
AllIn-visit_all ids (p ∷ ps) s h k = elim (Bool-cases (contains s.visited p)) [
  | inl old ↦ AllIn-visit_all ids ps (visit p s) (rw (old, visit) h) k.1
  | inr new ↦
      AllIn-visit_all ids ps (visit p s) (rw (new, visit) (AllIn-append ids s.queue p h k.0)) k.1
]

-- Queueing only adds at the end.
pub queue-prefix :
    (ps : List BaseId) (s : Frontier)
    → (rest : List BaseId) × ((visit_all ps s).queue ≡ s.queue ++ rest)
unfolding visit_all visit
queue-prefix [] s = ([], sym (append-nil s.queue))
queue-prefix (p ∷ ps) s = elim (Bool-cases (contains s.visited p)) [
  | inl old ↦ let (rest, e) = queue-prefix ps (visit p s) in (rest, ground arith)
  | inr new ↦
      let (rest, e) = queue-prefix ps (visit p s) in
      (p ∷ rest, ground (arith, append_assoc s.queue (p ∷ []) rest))
]
