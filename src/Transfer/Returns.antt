-- ===== src/Transfer/Returns.antt =====
-- pkg/transfer/enumerate.go: `Enumerate` ends, on finitely many objects.
use vara.Base.{
  ℕ, zero, suc, ◌+◌, ◌-◌, ◌≤◌, ◌<◌, ◌≡◌, inl, inr, refl, false, ◌||◌, Option, none, some, List, [],
  ◌∷◌, ◌++◌, arith, ◌==◌, Member, contains, length, length-append, unseen, unseen-cons,
  unseen-visit, unseen-le, Bool-cases, Option-cases, Result-cases, Result, ok, err, failure,
  if◌then◌else◌,
}
use vara.Hash.{BaseId}
use vara.Object.{Object, Commit, TreeEntry}
use vara.Transfer.{
  Marked, mark, mode_subtree, Holds, commit_at, tree_at, push_parents, walk_queue, walk_commits,
  add_entries, add_tree, add_have_tree, add_haves, add_wants, add_commits, enumerate,
}

unseen-mark : (ids set : List BaseId) (p : BaseId) → unseen ids (mark set p) ≤ unseen ids set
unseen-mark ids set p = ground (arith, unseen-cons ids set p)

module _ (read : BaseId → Result Object) (ids : List BaseId) where
  -- The identifiers hold what a commit or a tree among all objects refers to.
  pub record AreAll : Type 0 where
    pub parents :
        (u p : BaseId) (c : Commit) → commit_at read u ≡ some c → Member p c.parents → Member p ids
    pub trees : (u : BaseId) (c : Commit) → commit_at read u ≡ some c → Member c.tree_hash ids
    pub entries :
        (t y : BaseId) (es : List TreeEntry) → tree_at read t ≡ some es → Holds es y → Member y ids

  push-work :
      (stop ps queue seen : List BaseId)
      → ((p : BaseId) → Member p ps → Member p ids)
      → unseen ids (push_parents stop ps queue seen).1 + length (push_parents stop ps queue seen).0
        ≤ unseen ids seen + length queue
  unfolding push_parents
  push-work stop [] queue seen all = omega arith
  push-work stop (p ∷ ps) queue seen all =
      let more = λ (q : BaseId) (m : Member q ps). all q (inr m) in
      elim (Bool-cases (contains stop p || contains seen p)) [
        | inl old ↦ ground (arith, push-work stop ps queue seen more)
        | inr new ↦ ground (
          arith,
          push-work stop ps (queue ++ p ∷ []) (p ∷ seen) more,
          unseen-visit ids seen p (all p (inl refl)),
          length-append queue (p ∷ []),
        )
      ]

  walk_queue-returns :
      AreAll
      → (fuel : ℕ) (stop queue seen : List BaseId) → unseen ids seen + length queue ≤ fuel
      → (out : Marked) × (walk_queue read fuel stop queue seen ≡ some out)
  unfolding walk_queue
  walk_queue-returns a fuel stop [] seen le = ((seen, none), refl)
  walk_queue-returns a zero stop (cur ∷ queue) seen le = absurd (omega arith)
  walk_queue-returns a (suc fuel) stop (cur ∷ queue) seen le =
      elim (Option-cases (commit_at read cur)) [
        | inl k ↦ ((seen, some failure), ground arith)
        | inr (c, k) ↦
            let work = push-work stop c.parents queue seen (λ p m. a.parents cur p c k m) in
            let (out, e) =
              walk_queue-returns a fuel stop (push_parents stop c.parents queue seen).0
                (push_parents stop c.parents queue seen).1 (omega arith) in
            (out, ground arith)
      ]

  walk_commits-returns :
      AreAll
      → (fuel : ℕ) (stop : List BaseId) (start : BaseId) (seen : List BaseId) → Member start ids
      → length ids < fuel
      → (out : Marked) × (walk_commits read fuel stop start seen ≡ some out)
  unfolding walk_commits
  walk_commits-returns a fuel stop start seen m lt =
      elim (Bool-cases (contains stop start || contains seen start)) [
        | inl old ↦ ((seen, none), ground arith)
        | inr new ↦
            let (out, e) =
              walk_queue-returns a fuel stop (start ∷ []) (start ∷ seen)
                (omega (arith, unseen-le ids (start ∷ seen))) in
            (out, ground arith)
      ]

  -- A result whose marks leave no more unseen.
  abbrev Ends : Option Marked → List BaseId → Type 0
  Ends r objs = (out : Marked) × (r ≡ some out) × (unseen ids out.0 ≤ unseen ids objs)

  add_entries-returns :
      (n : ℕ) (sub : BaseId → List BaseId → Option Marked)
      → ((id : BaseId) (objs : List BaseId)
          → Member id ids
          → unseen ids objs ≤ n
          → Ends (sub id objs) objs)
      → (exclude : List BaseId) (es : List TreeEntry) (objs : List BaseId)
      → ((y : BaseId) → Holds es y → Member y ids)
      → unseen ids objs ≤ n
      → Ends (add_entries sub exclude es objs) objs
  unfolding add_entries
  add_entries-returns n sub ih exclude [] objs all le = ((objs, none), refl, omega arith)
  add_entries-returns n sub ih exclude (e ∷ es) objs all le =
      let more = λ (y : BaseId) (h : Holds es y). all y (inr h) in
      elim (Bool-cases (e.mode == mode_subtree)) [
        | inr file ↦
            let middle = if contains exclude e.hash then objs else mark objs e.hash in
            let less : unseen ids middle ≤ unseen ids objs =
              ground (arith, unseen-mark ids objs e.hash) in
            let (out, r, le') = add_entries-returns n sub ih exclude es middle more (omega arith) in
            (out, ground arith, omega arith)
        | inl subtree ↦
            let ((middle, x), s, le₁) = ih e.hash objs (all e.hash (inl refl)) le in
            elim (Option-cases x) [
              | inr (y, f) ↦ ((middle, some y), ground arith, omega arith)
              | inl f ↦
                  let (out, r, le₂) =
                    add_entries-returns n sub ih exclude es middle more (omega arith) in
                  (out, ground arith, omega arith)
            ]
      ]

  add_tree-returns :
      AreAll
      → (fuel : ℕ) (exclude : List BaseId) (id : BaseId) (objs : List BaseId) → Member id ids
      → unseen ids objs < fuel
      → Ends (add_tree read fuel exclude id objs) objs
  unfolding add_tree
  add_tree-returns a zero exclude id objs m lt = absurd (omega arith)
  add_tree-returns a (suc fuel) exclude id objs m lt =
      elim (Bool-cases (contains exclude id || contains objs id)) [
        | inl old ↦ ((objs, none), ground arith, omega arith)
        | inr new ↦
            let fresh : contains objs id ≡ false = ground arith in
            let less = unseen-visit ids objs id m fresh in
            elim (Option-cases (tree_at read id)) [
              | inl t ↦ ((id ∷ objs, some failure), ground arith, omega arith)
              | inr (es, t) ↦
                  let (out, r, le) =
                    add_entries-returns (fuel - 1) (add_tree read fuel exclude)
                      (λ i o q k. add_tree-returns a fuel exclude i o q (omega arith)) exclude es
                      (id ∷ objs) (λ y h. a.entries id y es t h) (omega arith) in
                  (out, ground arith, omega arith)
            ]
      ]

  have_tree-returns :
      AreAll
      → (fuel : ℕ) (h : BaseId) (objs : List BaseId) → length ids < fuel
      → (objs' : List BaseId) × (add_have_tree read fuel h objs ≡ some objs')
  unfolding add_have_tree
  have_tree-returns a fuel h objs lt = elim (Option-cases (commit_at read h)) [
    | inl c ↦ (objs, ground arith)
    | inr (k, c) ↦
        let ((objs', x), t, _) =
          add_tree-returns a fuel [] k.tree_hash objs (a.trees h k c)
            (omega (arith, unseen-le ids objs)) in
        (objs', ground arith)
  ]

  haves-returns :
      AreAll
      → (fuel : ℕ) (hs boundary objs : List BaseId) → ((h : BaseId) → Member h hs → Member h ids)
      → length ids < fuel
      → (r : List BaseId × List BaseId) × (add_haves read fuel hs boundary objs ≡ some r)
  unfolding add_haves
  haves-returns a fuel [] boundary objs all lt = ((boundary, objs), refl)
  haves-returns a fuel (h ∷ hs) boundary objs all lt =
      let more = λ (x : BaseId) (m : Member x hs). all x (inr m) in
      let ((walked, x), w) = walk_commits-returns a fuel [] h boundary (all h (inl refl)) lt in
      elim (Option-cases x) [
        | inr (y, f) ↦ let (r, e) = haves-returns a fuel hs walked objs more lt in (r, ground arith)
        | inl f ↦
            let (marked, t) = have_tree-returns a fuel h objs lt in
            let (r, e) = haves-returns a fuel hs walked marked more lt in (r, ground arith)
      ]

  wants-returns :
      AreAll
      → (fuel : ℕ) (boundary ws send : List BaseId) → ((w : BaseId) → Member w ws → Member w ids)
      → length ids < fuel
      → (r : Result (List BaseId)) × (add_wants read fuel boundary ws send ≡ some r)
  unfolding add_wants
  wants-returns a fuel boundary [] send all lt = (ok send, refl)
  wants-returns a fuel boundary (w ∷ ws) send all lt =
      let more = λ (x : BaseId) (m : Member x ws). all x (inr m) in
      let ((walked, x), k) = walk_commits-returns a fuel boundary w send (all w (inl refl)) lt in
      elim (Option-cases x) [
        | inr (y, f) ↦ (err y, ground arith)
        | inl f ↦ let (r, e) = wants-returns a fuel boundary ws walked more lt in (r, ground arith)
      ]

  commits-returns :
      AreAll
      → (fuel : ℕ) (exclude cs objs : List BaseId) → length ids < fuel
      → (r : Result (List BaseId)) × (add_commits read fuel exclude cs objs ≡ some r)
  unfolding add_commits
  commits-returns a fuel exclude [] objs lt = (ok objs, refl)
  commits-returns a fuel exclude (c ∷ cs) objs lt = elim (Option-cases (commit_at read c)) [
    | inl k ↦ (err failure, ground arith)
    | inr (k, at) ↦
        let ((middle, x), t, _) =
          add_tree-returns a fuel exclude k.tree_hash (mark objs c) (a.trees c k at)
            (omega (arith, unseen-le ids (mark objs c))) in
        elim (Option-cases x) [
          | inr (y, f) ↦ (err y, ground arith)
          | inl f ↦ let (r, e) = commits-returns a fuel exclude cs middle lt in (r, ground arith)
        ]
  ]

  -- If the wants, the haves, and what any commit or tree refers to are among finitely many
  -- identifiers, `Enumerate` returns a result once the fuel is above their number.
  pub enumerate_returns :
      AreAll
      → (sort order : List BaseId → List BaseId) (fuel : ℕ) (wants haves : List BaseId)
      → ((w : BaseId) → Member w wants → Member w ids)
      → ((h : BaseId) → Member h haves → Member h ids)
      → length ids < fuel
      → (r : Result (List BaseId)) × (enumerate read sort order fuel wants haves ≡ some r)
  unfolding enumerate
  enumerate_returns a sort order fuel wants haves all_wants all_haves lt =
      let ((boundary, exclude), h) = haves-returns a fuel haves [] [] all_haves lt in
      let (r, w) = wants-returns a fuel boundary wants [] all_wants lt in
      elim (Result-cases r) [
        | inr (x, q) ↦ (err x, ground arith)
        | inl (send, q) ↦
            let (r', k) = commits-returns a fuel exclude (order send) [] lt in
            elim (Result-cases r') [
              | inr (x, q') ↦ (err x, ground arith)
              | inl (objs, q') ↦ (ok (sort objs), ground arith)
            ]
      ]
