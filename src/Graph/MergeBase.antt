-- ===== src/Graph/MergeBase.antt =====
-- pkg/graph/graph.go: `MergeBase` against the ancestors of its two commits.
use vara.Base.{
  ℕ, zero, suc, ◌+◌, ◌≤◌, ◌≡◌, ◌≢◌, ◌⊎◌, inl, inr, refl, ap, sym, ◌∙◌, subst, true, false, some,
  List, [], ◌∷◌, arith, bytes_eq, bytes_eq_iff, unseen, unseen-le, bytes_eq-false, Member, contains,
  length, Result, ok, err, Error, ref_not_found, Bool-cases, Option-cases, Result-cases, List-cases,
  ok-injective, not-true,
}
use vara.Hash.{BaseId}
use vara.Object.{Object, Commit}
use vara.Graph.{
  Frontier, start_at, visit, visit_all, read_commit, expand, collect_ancestors, find_base,
  with_ancestors, merge_base, Ancestor, here,
}
use vara.Graph.Queue.{queue-visit_all, queue-prefix, AllIn}
use vara.Graph.Collect.{
  Inv, Inv-start, Inv-expand, complete, collect_ancestors_correct, IsClosed, expand_inside,
  collect_error, expand_work, collect_ancestors_returns,
}

module _ (read : BaseId → Result Object) (ancestors : List BaseId) where
  find-empty :
      (fuel : ℕ) (s : Frontier)
      → s.queue ≡ []
      → find_base read fuel ancestors s ≡ some (err ref_not_found)
  unfolding find_base
  find-empty zero s q = ground arith
  find-empty (suc fuel) s q = ground arith

  module _ (fuel : ℕ) (s : Frontier) (u : BaseId) (rest : List BaseId)
      (q : s.queue ≡ u ∷ rest) where
    find-hit : contains ancestors u ≡ true → find_base read (suc fuel) ancestors s ≡ some (ok u)
    unfolding find_base
    find-hit m = ground arith

    find-step :
        (c : Commit)
        → contains ancestors u ≡ false
        → read_commit read u ≡ ok c
        → find_base read (suc fuel) ancestors s
          ≡ find_base read fuel ancestors (expand read c rest s.visited)
    unfolding find_base
    find-step c m r = ground arith

    find-fault :
        (x : Error)
        → contains ancestors u ≡ false
        → read_commit read u ≡ err x
        → find_base read (suc fuel) ancestors s ≡ some (err x)
    unfolding find_base
    find-fault x m r = ground arith

  -- A commit that left the queue is no ancestor of the other side.
  abbrev IsClear : Frontier → Type 0
  IsClear s =
      (v : BaseId) → contains s.visited v ≡ true → Member v s.queue ⊎ (contains ancestors v ≡ false)

  IsClear-start : (b : BaseId) → IsClear (start_at b)
  unfolding contains
  IsClear-start b v m = ground (arith, bytes_eq_iff b v)

  IsClear-expand :
      (u : BaseId) (c : Commit) (rest : List BaseId) (s : Frontier)
      → s.queue ≡ u ∷ rest
      → contains ancestors u ≡ false
      → IsClear s
      → IsClear (expand read c rest s.visited)
  unfolding expand
  IsClear-expand u c rest s q m clear v seen =
      let queue = queue-visit_all c.parents (record s { queue = rest }) v in
      elim (Bool-cases (contains s.visited v)) [
        | inr new ↦ inl (queue.1 (inr (seen, new)))
        | inl old ↦ elim (clear v old) [
          | inr off ↦ inr off
          | inl waits ↦ elim (subst (Member v) q waits) [
            | inl same ↦ inr (subst (λ (x : BaseId). contains ancestors x ≡ false) (sym same) m)
            | inr more ↦ inl (queue.1 (inl more))
          ]
        ]
      ]

  find_sound :
      (b : BaseId) (fuel : ℕ) (s : Frontier) (r : BaseId)
      → Inv read b s
      → find_base read fuel ancestors s ≡ some (ok r)
      → (contains ancestors r ≡ true) × Ancestor read b r
  find_sound b zero s r inv e = elim (List-cases s.queue) [
    | inl q ↦ cc (find-empty zero s q)
    | inr (u, rest, q) ↦ unfold find_base in ground arith
  ]
  find_sound b (suc fuel) s r inv e = elim (List-cases s.queue) [
    | inl q ↦ cc (find-empty (suc fuel) s q)
    | inr (u, rest, q) ↦
        let first = inv.sound u (inv.queued u (subst (Member u) (sym q) (inl refl))) in
        elim (Bool-cases (contains ancestors u)) [
          | inl m ↦
              let same : u ≡ r = cc (find-hit fuel s u rest q m) in
              subst (λ (x : BaseId). (contains ancestors x ≡ true) × Ancestor read b x) same
                (m, first)
          | inr m ↦ elim (Result-cases (read_commit read u)) [
            | inr (x, f) ↦ cc (find-fault fuel s u rest q x m f)
            | inl (c, f) ↦
                find_sound b fuel (expand read c rest s.visited) r
                  (Inv-expand read b u c rest s q f inv) (sym (find-step fuel s u rest q c m f) ∙ e)
          ]
        ]
  ]

  drained :
      (b : BaseId) (s : Frontier)
      → Inv read b s
      → IsClear s
      → s.queue ≡ []
      → {v : BaseId} → Ancestor read b v
      → contains ancestors v ≡ false
  drained b s inv clear q {v} a = elim (clear v (complete read b s inv q a)) [
    | inr off ↦ off
    | inl waits ↦ absurd (subst (Member v) q waits)
  ]

  find_complete :
      (b : BaseId) (fuel : ℕ) (s : Frontier)
      → ((u : BaseId) → read_commit read u ≢ err ref_not_found)
      → Inv read b s
      → IsClear s
      → find_base read fuel ancestors s ≡ some (err ref_not_found)
      → (v : BaseId) → Ancestor read b v
      → contains ancestors v ≡ false
  find_complete b zero s faults inv clear e v a = elim (List-cases s.queue) [
    | inl q ↦ drained b s inv clear q a
    | inr (u, rest, q) ↦ unfold find_base in ground arith
  ]
  find_complete b (suc fuel) s faults inv clear e v a = elim (List-cases s.queue) [
    | inl q ↦ drained b s inv clear q a
    | inr (u, rest, q) ↦ elim (Bool-cases (contains ancestors u)) [
      | inl m ↦ cc (find-hit fuel s u rest q m)
      | inr m ↦ elim (Result-cases (read_commit read u)) [
        | inr (x, f) ↦
            let same : x ≡ ref_not_found = cc (find-fault fuel s u rest q x m f) in
            absurd (faults u (f ∙ ap err same))
        | inl (c, f) ↦
            find_complete b fuel (expand read c rest s.visited) faults
              (Inv-expand read b u c rest s q f inv) (IsClear-expand u c rest s q m clear)
              (sym (find-step fuel s u rest q c m f) ∙ e) v a
      ]
    ]
  ]

  find_ends :
      (ids : List BaseId) (fuel : ℕ) (s : Frontier)
      → IsClosed read ids
      → AllIn ids s.queue
      → unseen ids s.visited + length s.queue ≤ fuel
      → (r : Result BaseId) × (find_base read fuel ancestors s ≡ some r)
  find_ends ids zero s closed inside le = elim (List-cases s.queue) [
    | inl q ↦ (err ref_not_found, find-empty zero s q)
    | inr (u, rest, q) ↦ absurd (omega (arith, ap length q))
  ]
  find_ends ids (suc fuel) s closed inside le = elim (List-cases s.queue) [
    | inl q ↦ (err ref_not_found, find-empty (suc fuel) s q)
    | inr (u, rest, q) ↦
        let (first, others) = subst (AllIn ids) q inside in
        elim (Bool-cases (contains ancestors u)) [
          | inl m ↦ (ok u, find-hit fuel s u rest q m)
          | inr m ↦ elim (Result-cases (read_commit read u)) [
            | inr (x, f) ↦ (err x, find-fault fuel s u rest q x m f)
            | inl (c, f) ↦
                let (a, done) =
                  find_ends ids fuel (expand read c rest s.visited) closed
                    (expand_inside read ids u c rest s.visited closed first others f)
                    (expand_work read ids u c rest s q closed first f fuel le) in
                (a, find-step fuel s u rest q c m f ∙ done)
          ]
        ]
  ]

module _ (read : BaseId → Result Object) (fuel : ℕ) (a b : BaseId) where
  -- The three ways in which `MergeBase` ends with a result.
  merge-cases :
      (r : Result BaseId)
      → merge_base read fuel a b ≡ some r
      → (a ≡ b) × (r ≡ ok a)
        ⊎ ((x : Error) × (collect_ancestors read fuel (start_at a) ≡ some (err x)) × (r ≡ err x))
        ⊎ ((seen : List BaseId) × (collect_ancestors read fuel (start_at a) ≡ some (ok seen))
            × (find_base read fuel seen (start_at b) ≡ some r))
  unfolding merge_base with_ancestors
  merge-cases r e = elim (Bool-cases (bytes_eq a b)) [
    | inl same ↦ inl ((bytes_eq_iff a b).0 same, ground arith)
    | inr differ ↦ elim (Option-cases (collect_ancestors read fuel (start_at a))) [
      | inl n ↦ ground arith
      | inr (s, k) ↦ elim (Result-cases s) [
        | inr (x, q) ↦ inr (inl (x, k ∙ ap some q, ground arith))
        | inl (seen, q) ↦ inr (inr (seen, k ∙ ap some q, ground arith))
      ]
    ]
  ]

  -- If `MergeBase` returns a commit, it is an ancestor of both.
  pub merge_base_common :
      (r : BaseId) → merge_base read fuel a b ≡ some (ok r) → Ancestor read a r × Ancestor read b r
  merge_base_common r e = elim (merge-cases (ok r) e) [
    | inl (same, q) ↦
        let at_a : r ≡ a = ok-injective q in
        (subst (Ancestor read a) (sym at_a) here, subst (Ancestor read b) (sym (at_a ∙ same)) here)
    | inr (inl (x, _, q)) ↦ cc q
    | inr (inr (seen, c, f)) ↦
        let (m, down) = find_sound read seen b fuel (start_at b) r (Inv-start read b) f in
        ((collect_ancestors_correct read a fuel seen r c).0 m, down)
  ]

  -- If `MergeBase` returns `ErrRefNotFound`, and no read does, the commits have no common ancestor.
  pub merge_base_none :
      ((u : BaseId) → read_commit read u ≢ err ref_not_found)
      → merge_base read fuel a b ≡ some (err ref_not_found)
      → (v : BaseId) → Ancestor read a v
      → ¬ Ancestor read b v
  merge_base_none faults e v up down = elim (merge-cases (err ref_not_found) e) [
    | inl (_, q) ↦ cc q
    | inr (inl (x, k, q)) ↦
        let (u, r) = collect_error read fuel (start_at a) x k in
        let same : x ≡ ref_not_found = cc q in absurd (faults u (r ∙ ap err same))
    | inr (inr (seen, k, f)) ↦
        let off =
          find_complete read seen b fuel (start_at b) faults (Inv-start read b)
            (IsClear-start read seen b) f v down in
        cc (off, (collect_ancestors_correct read a fuel seen v k).1 up)
  ]

  -- With fuel for every commit that the two can reach, `MergeBase` returns.
  pub merge_base_returns :
      (ids : List BaseId)
      → IsClosed read ids
      → Member a ids
      → Member b ids
      → suc (length ids) ≤ fuel
      → (r : Result BaseId) × (merge_base read fuel a b ≡ some r)
  unfolding merge_base with_ancestors
  merge_base_returns ids closed ma mb le = elim (Bool-cases (bytes_eq a b)) [
    | inl same ↦ (ok a, ground arith)
    | inr differ ↦
        let (s, k) = collect_ancestors_returns read ids a fuel closed ma le in
        elim (Result-cases s) [
          | inr (x, q) ↦ (err x, ground arith)
          | inl (seen, q) ↦
              let (r, f) =
                find_ends read seen ids fuel (start_at b) closed (mb, tt)
                  (omega (arith, unseen-le ids (b ∷ []))) in
              (r, ground arith)
        ]
  ]

module _ (read : BaseId → Result Object) (fuel : ℕ) (a b x : BaseId) (c : Commit)
    (ps : List BaseId) where
  second_queue :
      b ≢ x
      → c.parents ≡ x ∷ ps
      → (rest : List BaseId) × ((expand read c [] (b ∷ [])).queue ≡ x ∷ rest)
  unfolding expand visit_all visit contains
  second_queue differ e =
      let s : Frontier = record { queue = x ∷ []; visited = x ∷ b ∷ [] } in
      let (rest, q) = queue-prefix ps s in (rest, ground (arith, q, bytes_eq-false b x differ))

  -- `MergeBase` stops at the first parent of `b` if that is an ancestor of `a`, and does not look
  -- for a common ancestor of a higher generation: also where `a` itself is an ancestor of `b`.
  pub merge_base_first_parent :
      (seen : List BaseId)
      → a ≢ b
      → collect_ancestors read (suc (suc fuel)) (start_at a) ≡ some (ok seen)
      → ¬ Ancestor read a b
      → read_commit read b ≡ ok c
      → c.parents ≡ x ∷ ps
      → Ancestor read a x
      → merge_base read (suc (suc fuel)) a b ≡ some (ok x)
  unfolding merge_base with_ancestors
  merge_base_first_parent seen differ k off r e up =
      let outside = λ (v : BaseId). collect_ancestors_correct read a (suc (suc fuel)) seen v k in
      let (rest, q) = second_queue differ_from_b e in
      let to_x =
        find-step read seen (suc fuel) (start_at b) b [] refl c
          (not-true (λ m. off ((outside b).0 m))) r
        ∙ find-hit read seen fuel (expand read c [] (b ∷ [])) x rest q ((outside x).1 up) in
      ground (arith, bytes_eq-false a b differ, k, to_x)
    where
      differ_from_b : b ≢ x
      differ_from_b same = off (subst (Ancestor read a) (sym same) up)
