-- ===== src/Graph/Collect.antt =====
-- pkg/graph/graph.go: `collectAncestors` finds the ancestors, and ends.
use vara.Base.{
  ℕ, zero, suc, ◌+◌, ◌≤◌, ◌≡◌, ◌↔◌, ◌⊎◌, inl, inr, refl, ap, true, some, List, [], ◌∷◌, arith,
  bytes_eq_iff, unseen, unseen-le, Member, contains, length, Result, ok, err, Error, Result-cases,
  List-cases, subst, sym, ◌∙◌, Bool-cases, ok-injective,
}
use vara.Hash.{BaseId}
use vara.Object.{Object, Commit}
use vara.Graph.{Frontier, start_at, read_commit, expand, collect_ancestors, Ancestor, here, parent}
use vara.Graph.Queue.{visited-visit_all, queue-visit_all, AllIn, work-visit_all, AllIn-visit_all}

module _ (read : BaseId → Result Object) where
  pub record Inv (start : BaseId) (s : Frontier) : Type 0 where
    pub source : contains s.visited start ≡ true
    pub queued : (v : BaseId) → Member v s.queue → contains s.visited v ≡ true
    pub sound : (v : BaseId) → contains s.visited v ≡ true → Ancestor read start v
    pub closed :
        (u p : BaseId) (c : Commit)
        → contains s.visited u ≡ true
        → read_commit read u ≡ ok c
        → Member p c.parents
        → Member u s.queue ⊎ (contains s.visited p ≡ true)

  pub Inv-start : (start : BaseId) → Inv start (start_at start)
  unfolding contains
  Inv-start start = record {
    source = ground (arith, bytes_eq_iff start start);
    queued = λ v q. ground (arith, bytes_eq_iff start v);
    sound =
        λ v m. subst (Ancestor read start) {x = start} (ground (arith, bytes_eq_iff start v)) here;
    closed = λ u p c m _ _. ground (arith, bytes_eq_iff start u);
  }

  -- A commit that was closed before the dequeuing of `u` still is, or is `u`.
  closed_step {ℓ} :
      {Q V : Type ℓ} (x p u : BaseId) (d c : Commit) (rest : List BaseId) (s : Frontier)
      → s.queue ≡ u ∷ rest
      → Member x s.queue ⊎ (contains s.visited p ≡ true)
      → (x ≡ u → V)
      → (Member x rest → Q)
      → (contains s.visited p ≡ true → V)
      → Q ⊎ V
  closed_step x p u d c rest s e (inl q) f g k = elim (subst (Member x) e q) [
    | inl eq ↦ inr (f eq)
    | inr more ↦ inl (g more)
  ]
  closed_step x p u d c rest s e (inr v) f g k = inr (k v)

  pub Inv-expand :
      (start u : BaseId) (c : Commit) (rest : List BaseId) (s : Frontier)
      → s.queue ≡ u ∷ rest
      → read_commit read u ≡ ok c
      → Inv start s
      → Inv start (expand read c rest s.visited)
  unfolding expand
  Inv-expand start u c rest s e r h =
      let s' = record s { queue = rest } in
      let flags = λ (w : BaseId). visited-visit_all c.parents s' w in
      let queue = λ (w : BaseId). queue-visit_all c.parents s' w in
      let at_u = λ (x : BaseId) (d : Commit) (eq : x ≡ u) (rx : read_commit read x ≡ ok d).
        ok-injective (sym rx ∙ ap (read_commit read) eq ∙ r) in
      let before =
        λ (x p : BaseId) (d : Commit) (old : contains s.visited x ≡ true)
            (rx : read_commit read x ≡ ok d) (mp : Member p d.parents).
          closed_step x p u d c rest s e (h.closed x p d old rx mp)
            (λ eq.
              (flags p).1 (inr (subst (λ (k : Commit). Member p k.parents) (at_u x d eq rx) mp)))
            (λ q. (queue x).1 (inl q)) (λ v. (flags p).1 (inl v)) in
      let first = h.queued u (subst (Member u) (sym e) (inl refl)) in
      record {
        source = ground (arith, flags start, h.source);
        queued = λ v q. ground (arith, flags v, queue v, h.queued v, ap (Member v) e);
        sound = λ v m. elim ((flags v).0 m) [
          | inl old ↦ h.sound v old
          | inr new ↦ parent (h.sound u first) r new
        ];
        closed = λ x p d m rx mp. elim (Bool-cases (contains s.visited x)) [
          | inl old ↦ before x p d old rx mp
          | inr new ↦ inl ((queue x).1 (inr (m, new)))
        ];
      }

  -- One round of the loop, with a commit at the head of the queue.
  collect-step :
      (fuel : ℕ) (s : Frontier) (u : BaseId) (rest : List BaseId) (c : Commit)
      → s.queue ≡ u ∷ rest
      → read_commit read u ≡ ok c
      → collect_ancestors read (suc fuel) s
        ≡ collect_ancestors read fuel (expand read c rest s.visited)
  unfolding collect_ancestors
  collect-step fuel s u rest c q r = ground arith

  collect-empty :
      (fuel : ℕ) (s : Frontier) → s.queue ≡ [] → collect_ancestors read fuel s ≡ some (ok s.visited)
  unfolding collect_ancestors
  collect-empty zero s q = ground arith
  collect-empty (suc fuel) s q = ground arith

  collect-fault :
      (fuel : ℕ) (s : Frontier) (u : BaseId) (rest : List BaseId) (x : Error)
      → s.queue ≡ u ∷ rest
      → read_commit read u ≡ err x
      → collect_ancestors read (suc fuel) s ≡ some (err x)
  unfolding collect_ancestors
  collect-fault fuel s u rest x q r = ground arith

  collect_rule :
      (start : BaseId) (fuel : ℕ) (s : Frontier) (seen : List BaseId)
      → Inv start s
      → collect_ancestors read fuel s ≡ some (ok seen)
      → (t : Frontier) × Inv start t × (t.queue ≡ []) × (t.visited ≡ seen)
  collect_rule start zero s seen h e = elim (List-cases s.queue) [
    | inl empty ↦ (s, h, empty, cc (collect-empty zero s empty))
    | inr (u, rest, q) ↦ unfold collect_ancestors in ground arith
  ]
  collect_rule start (suc fuel) s seen h e = elim (List-cases s.queue) [
    | inl empty ↦ (s, h, empty, cc (collect-empty (suc fuel) s empty))
    | inr (u, rest, q) ↦ elim (Result-cases (read_commit read u)) [
      | inl (c, r) ↦
          collect_rule start fuel (expand read c rest s.visited) seen
            (Inv-expand start u c rest s q r h) (sym (collect-step fuel s u rest c q r) ∙ e)
      | inr (x, r) ↦ cc (collect-fault fuel s u rest x q r)
    ]
  ]

  -- With an empty queue the flags are closed under parents.
  pub complete :
      (start : BaseId) (t : Frontier)
      → Inv start t
      → t.queue ≡ []
      → {v : BaseId} → Ancestor read start v
      → contains t.visited v ≡ true
  complete start t h e here = h.source
  complete start t h e (parent {u} {p} {c} a r m) =
      elim (h.closed u p c (complete start t h e a) r m) [
        | inl waiting ↦ absurd (subst (Member u) e waiting)
        | inr v ↦ v
      ]

  -- When `collectAncestors` returns without an error, the flags are those of the ancestors of the
  -- start, itself included.
  pub collect_ancestors_correct :
      (start : BaseId) (fuel : ℕ) (seen : List BaseId) (v : BaseId)
      → collect_ancestors read fuel (start_at start) ≡ some (ok seen)
      → (contains seen v ≡ true) ↔ Ancestor read start v
  collect_ancestors_correct start fuel seen v e =
      let (t, inv, empty, same) =
        collect_rule start fuel (start_at start) seen (Inv-start start) e in
      (
        λ m. inv.sound v (subst (λ (l : List BaseId). contains l v ≡ true) (sym same) m),
        λ a. subst (λ (l : List BaseId). contains l v ≡ true) same (complete start t inv empty a),
      )

  -- A finite set of identifiers that the parents of its commits do not leave.
  abbrev pub IsClosed : List BaseId → Type 0
  IsClosed ids =
      (u : BaseId) (c : Commit) → Member u ids → read_commit read u ≡ ok c → AllIn ids c.parents

  pub expand_inside :
      (ids : List BaseId) (u : BaseId) (c : Commit) (rest visited : List BaseId)
      → IsClosed ids
      → Member u ids
      → AllIn ids rest
      → read_commit read u ≡ ok c
      → AllIn ids (expand read c rest visited).queue
  unfolding expand
  expand_inside ids u c rest visited closed first others r =
      AllIn-visit_all ids c.parents (record { queue = rest; visited = visited }) others
        (closed u c first r)

  pub expand_work :
      (ids : List BaseId) (u : BaseId) (c : Commit) (rest : List BaseId) (s : Frontier)
      → s.queue ≡ u ∷ rest
      → IsClosed ids
      → Member u ids
      → read_commit read u ≡ ok c
      → (fuel : ℕ) → unseen ids s.visited + length s.queue ≤ suc fuel
      → unseen ids (expand read c rest s.visited).visited
          + length (expand read c rest s.visited).queue
        ≤ fuel
  unfolding expand
  expand_work ids u c rest s q closed first r fuel le = omega (
    arith,
    ap length q,
    work-visit_all ids c.parents (record { queue = rest; visited = s.visited })
        (closed u c first r),
  )

  collect_ends :
      (ids : List BaseId) (fuel : ℕ) (s : Frontier)
      → IsClosed ids
      → AllIn ids s.queue
      → unseen ids s.visited + length s.queue ≤ fuel
      → (r : Result (List BaseId)) × (collect_ancestors read fuel s ≡ some r)
  collect_ends ids zero s closed inside le = elim (List-cases s.queue) [
    | inl empty ↦ (ok s.visited, collect-empty zero s empty)
    | inr (u, rest, q) ↦ absurd (omega (arith, ap length q))
  ]
  collect_ends ids (suc fuel) s closed inside le = elim (List-cases s.queue) [
    | inl empty ↦ (ok s.visited, collect-empty (suc fuel) s empty)
    | inr (u, rest, q) ↦
        let (first, others) = subst (AllIn ids) q inside in
        elim (Result-cases (read_commit read u)) [
          | inr (x, r) ↦ (err x, collect-fault fuel s u rest x q r)
          | inl (c, r) ↦
              let (a, done) =
                collect_ends ids fuel (expand read c rest s.visited) closed
                  (expand_inside ids u c rest s.visited closed first others r)
                  (expand_work ids u c rest s q closed first r fuel le) in
              (a, collect-step fuel s u rest c q r ∙ done)
        ]
  ]

  -- `collectAncestors` ends after at most one round more than there are identifiers to reach.
  pub collect_ancestors_returns :
      (ids : List BaseId) (start : BaseId) (fuel : ℕ)
      → IsClosed ids
      → Member start ids
      → suc (length ids) ≤ fuel
      → (r : Result (List BaseId)) × (collect_ancestors read fuel (start_at start) ≡ some r)
  collect_ancestors_returns ids start fuel closed m le =
      collect_ends ids fuel (start_at start) closed (m, tt)
        (omega (arith, unseen-le ids (start ∷ [])))

  -- An error of the walk is the error of a read.
  pub collect_error :
      (fuel : ℕ) (s : Frontier) (x : Error)
      → collect_ancestors read fuel s ≡ some (err x)
      → (u : BaseId) × (read_commit read u ≡ err x)
  collect_error zero s x e = elim (List-cases s.queue) [
    | inl q ↦ cc (collect-empty zero s q)
    | inr (u, rest, q) ↦ unfold collect_ancestors in ground arith
  ]
  collect_error (suc fuel) s x e = elim (List-cases s.queue) [
    | inl q ↦ cc (collect-empty (suc fuel) s q)
    | inr (u, rest, q) ↦ elim (Result-cases (read_commit read u)) [
      | inr (y, r) ↦
          let same : y ≡ x = cc (collect-fault fuel s u rest y q r) in (u, r ∙ ap err same)
      | inl (c, r) ↦
          collect_error fuel (expand read c rest s.visited) x
            (sym (collect-step fuel s u rest c q r) ∙ e)
    ]
  ]
