-- ===== src/Merge/Turns.antt =====
-- internal/merge/merge.go: what the loop of `threeWay` leaves, path by path.
use vara.Base.{
  ◌≢◌, bytes_eq, bytes_eq_iff, Bool-cases, ℕ, ◌≡◌, ◌↔◌, ◌⊎◌, inl, inr, refl, sym, subst, Bool, true,
  false, Option, none, some, List, [], ◌∷◌, ◌++◌, arith, Bytes, bytes_eq-false, Member,
  Member-append, lookup, Result, ok, err,
}
use vara.Hash.{BaseId, IsId}
use vara.Object.Store.{Codec, object_path}
use vara.Object.Store.Laws.{IsCodec}
use vara.Diff.Trees.{ChangeType, added, deleted, modified}
use vara.Merge.{
  FileChange, Repo, OsCalls, PathCase, apply, content, structural, both_modified, decide,
}
use vara.Merge.Run.{Inputs, merge_as, merge_paths}
use vara.Merge.Paths.{SameAt, SameAt-trans}
use vara.Merge.Settled.{Settled, Settled-moves, merge_as-StepAt, merge_as-Settled}

-- No path twice, as the keys of a map.
abbrev pub NoDup : List Bytes → Type 0
NoDup [] = Unit {0}
NoDup (p ∷ ps) = (¬ Member p ps) × NoDup ps

-- What the two sides changed at a path, and the case of the `switch` for it.
abbrev pub CaseOf : Option FileChange → Option FileChange → PathCase → Type 0
CaseOf none none d = Unit {0}
CaseOf (some oc) none d = d ≡ apply oc
CaseOf none (some tc) d = d ≡ apply tc
CaseOf (some oc) (some tc) d =
    ((oc.blob_id ≡ tc.blob_id) × (d ≡ apply oc))
    ⊎ ((oc.blob_id ≢ tc.blob_id)
        × (oc.change_type ≡ modified)
        × (tc.change_type ≡ modified)
        × (d ≡ content oc.blob_id tc.blob_id))
    ⊎ ((oc.blob_id ≢ tc.blob_id)
        × (¬ ((oc.change_type ≡ modified) × (tc.change_type ≡ modified)))
        × (d ≡ structural))

both_modified-cases :
    (a b : ChangeType)
    → ((both_modified a b ≡ true) × (a ≡ modified) × (b ≡ modified))
      ⊎ ((both_modified a b ≡ false) × (¬ ((a ≡ modified) × (b ≡ modified))))
both_modified-cases modified modified = inl (refl, refl, refl)
both_modified-cases modified added = inr (refl, λ (_, e). cc e)
both_modified-cases modified deleted = inr (refl, λ (_, e). cc e)
both_modified-cases added b = inr (refl, λ (e, _). cc e)
both_modified-cases deleted b = inr (refl, λ (e, _). cc e)

decide-CaseOf : (oc tc : Option FileChange) → CaseOf oc tc (decide oc tc)
decide-CaseOf none none = tt
decide-CaseOf (some oc) none = refl
decide-CaseOf none (some tc) = refl
decide-CaseOf (some oc) (some tc) = elim (Bool-cases (bytes_eq oc.blob_id tc.blob_id)) [
  | inl same ↦ rw same (inl ((bytes_eq_iff oc.blob_id tc.blob_id).0 same, refl))
  | inr other ↦
      let apart : oc.blob_id ≢ tc.blob_id =
        λ e. cc ((bytes_eq_iff oc.blob_id tc.blob_id).1 e, other) in
      elim (both_modified-cases oc.change_type tc.change_type) [
        | inl (both, a, b) ↦ rw (other, both) (inr (inl (apart, a, b, refl)))
        | inr (one, not_both) ↦ rw (other, one) (inr (inr (apart, not_both, refl)))
      ]
]

-- The conflicts after the turn of a path.
abbrev note : List Bytes → Bytes → Bool → List Bytes
note acc p true = acc ++ p ∷ []
note acc p false = acc

Member-note :
    (q p : Bytes) (acc : List Bytes) (c : Bool)
    → Member q (note acc p c) ↔ (((c ≡ true) × (q ≡ p)) ⊎ Member q acc)
Member-note q p acc true = ground (arith, Member-append q acc (p ∷ []))
Member-note q p acc false = ground arith

module _ (codec : Codec) (calls : OsCalls) (fuel : ℕ) (inputs : Inputs) (base_tree : BaseId)
    (ours theirs : List (Bytes × FileChange)) where
  abbrev decision : Bytes → PathCase
  decision p = decide (lookup p ours) (lookup p theirs)

  merge_paths_inv :
      (p : Bytes) (ps : List Bytes) (r s : Repo) (acc conflicts : List Bytes)
      → merge_paths codec calls fuel inputs base_tree ours theirs (p ∷ ps) r acc
        ≡ some (s, ok conflicts)
      → (m : Repo) × (c : Bool) × (merge_as codec calls fuel inputs base_tree p (decision p) r
          ≡ some (m, ok c))
        × (merge_paths codec calls fuel inputs base_tree ours theirs ps m (note acc p c)
            ≡ some (s, ok conflicts))
  unfolding merge_paths
  merge_paths_inv p ps r s acc conflicts h =
      go (merge_as codec calls fuel inputs base_tree p (decision p) r) refl
    where
      go :
          (out : Option (Repo × Result Bool))
          → merge_as codec calls fuel inputs base_tree p (decision p) r ≡ out
          → (m : Repo) × (c : Bool) × (merge_as codec calls fuel inputs base_tree p (decision p) r
              ≡ some (m, ok c))
            × (merge_paths codec calls fuel inputs base_tree ours theirs ps m (note acc p c)
                ≡ some (s, ok conflicts))
      go none e = absurd (cc (rw (e, merge_paths) at h))
      go (some (m, err x)) e = absurd (cc (rw (e, merge_paths) at h))
      go (some (m, ok true)) e = (m, true, e, rw (e, merge_paths) at h)
      go (some (m, ok false)) e = (m, false, e, rw (e, merge_paths) at h)

  module _ (coded : IsCodec codec) (seen : (path : Bytes) → (calls.store path).stat ≡ true) where
    -- A path that is not met.
    merge_paths_others :
        (ps : List Bytes) (r s : Repo) (acc conflicts : List Bytes) (q : Bytes)
        → ¬ Member q ps
        → merge_paths codec calls fuel inputs base_tree ours theirs ps r acc
          ≡ some (s, ok conflicts)
        → SameAt q r s × (Member q conflicts ↔ Member q acc)
    unfolding merge_paths
    merge_paths_others [] r s acc conflicts q out h =
        let e : r ≡ s = ground arith in
        let e' : acc ≡ conflicts = ground arith in
        (
          subst (SameAt q r) e (record { index = refl; worktree = refl }),
          subst (λ (l : List Bytes). Member q l ↔ Member q acc) e' (λ m. m, λ m. m),
        )
    merge_paths_others (p ∷ ps) r s acc conflicts q out h =
        let (m, c, step, rest) = merge_paths_inv p ps r s acc conflicts h in
        let at =
          merge_as-StepAt codec calls fuel inputs coded seen base_tree p (decision p) r m (ok c)
            step in
        let (same, listed) =
          merge_paths_others ps m s (note acc p c) conflicts q (λ k. out (inr k)) rest in
        let other = bytes_eq-false p q (λ e. out (inl (sym e))) in
        (
          SameAt-trans (at.others q other) same,
          ground (arith, listed, Member-note q p acc c, λ (e : q ≡ p). out (inl e)),
        )

    -- A path at its turn, from the repository that the turn begins with.
    abbrev pub Turn : Repo → Repo → List Bytes → List Bytes → Bytes → Type 0
    Turn r s acc conflicts q =
        (before : Repo) × (c : Bool) × (d : PathCase) × CaseOf (lookup q ours) (lookup q theirs) d
        × SameAt q r before
        × ((j : BaseId) (bytes : Bytes)
            → IsId j
            → lookup (object_path j) r.files ≡ some bytes
            → lookup (object_path j) before.files ≡ some bytes)
        × Settled codec calls fuel inputs base_tree q d c before s
        × (Member q conflicts ↔ ((c ≡ true) ⊎ Member q acc))

    Turn-first :
        (p : Bytes) (ps : List Bytes) (r m s : Repo) (acc conflicts : List Bytes) (c : Bool)
        → ¬ Member p ps
        → merge_as codec calls fuel inputs base_tree p (decision p) r ≡ some (m, ok c)
        → merge_paths codec calls fuel inputs base_tree ours theirs ps m (note acc p c)
          ≡ some (s, ok conflicts)
        → Turn r s acc conflicts p
    Turn-first p ps r m s acc conflicts c new step rest =
        let (same, listed) = merge_paths_others ps m s (note acc p c) conflicts p new rest in
        (
          r,
          c,
          decision p,
          decide-CaseOf (lookup p ours) (lookup p theirs),
          record { index = refl; worktree = refl },
          λ j bytes hj l. l,
          Settled-moves codec calls fuel inputs base_tree p (decision p) c r m s same (
              merge_as-Settled codec calls fuel inputs coded seen base_tree p (decision p) r m c
                step),
          ground (arith, listed, Member-note p p acc c),
        )

    Turn-later :
        (p q : Bytes) (r m s : Repo) (acc conflicts : List Bytes) (c : Bool)
        → ¬ (q ≡ p)
        → merge_as codec calls fuel inputs base_tree p (decision p) r ≡ some (m, ok c)
        → Turn m s (note acc p c) conflicts q
        → Turn r s acc conflicts q
    Turn-later p q r m s acc conflicts c ne step
          (before, d, case, which, same, kept, settled, listed) =
        let at =
          merge_as-StepAt codec calls fuel inputs coded seen base_tree p (decision p) r m (ok c)
            step in
        (
          before,
          d,
          case,
          which,
          SameAt-trans (at.others q (bytes_eq-false p q (λ e. ne (sym e)))) same,
          λ j bytes hj l. kept j bytes hj (at.kept j bytes hj l),
          settled,
          ground (arith, listed, Member-note q p acc c, ne),
        )

    merge_paths-Turn :
        (ps : List Bytes) (r s : Repo) (acc conflicts : List Bytes) (q : Bytes)
        → NoDup ps
        → merge_paths codec calls fuel inputs base_tree ours theirs ps r acc
          ≡ some (s, ok conflicts)
        → Member q ps
        → Turn r s acc conflicts q
    merge_paths-Turn [] r s acc conflicts q u h k = absurd k
    merge_paths-Turn (p ∷ ps) r s acc conflicts q (new, u) h (inl e) =
        let (m, c, step, rest) = merge_paths_inv p ps r s acc conflicts h in
        subst (Turn r s acc conflicts) (sym e) (Turn-first p ps r m s acc conflicts c new step rest)
    merge_paths-Turn (p ∷ ps) r s acc conflicts q (new, u) h (inr k) =
        let (m, c, step, rest) = merge_paths_inv p ps r s acc conflicts h in
        Turn-later p q r m s acc conflicts c (λ e. new (subst (λ (x : Bytes). Member x ps) e k))
          step (merge_paths-Turn ps m s (note acc p c) conflicts q u rest k)

    -- If the loop over the paths, none of them twice, returns without an error, no `Stat` fails on an
    -- object file that is there, and the compression gives back what it was given, each path had one turn: from a repository that has the same
    -- under the path, and every object file of the first one, the case of the `switch` for its two
    -- changes left what the index and the working tree hold in the end (a deleted file is gone but
    -- where `Remove` fails), and it is listed exactly if that case gave a conflict. Under any other
    -- path both are as they were. The object files are apart from the working tree: no path is
    -- below `.vara`.
    pub merge_paths_settled :
        (ps : List Bytes) (r s : Repo) (conflicts : List Bytes) (q : Bytes)
        → NoDup ps
        → merge_paths codec calls fuel inputs base_tree ours theirs ps r [] ≡ some (s, ok conflicts)
        → ((¬ Member q ps) → SameAt q r s × (Member q conflicts ↔ ⊥))
          × (Member q ps → Turn r s [] conflicts q)
    merge_paths_settled ps r s conflicts q u h = (
      λ out. merge_paths_others ps r s [] conflicts q out h,
      merge_paths-Turn ps r s [] conflicts q u h,
    )
