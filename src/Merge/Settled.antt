-- ===== src/Merge/Settled.antt =====
-- internal/merge/merge.go: what each case of the `switch` in `threeWay` leaves under its path.
use vara.Base.{
  lookup-erase, if◌then◌else◌, ℕ, ◌≡◌, inl, inr, refl, sym, ap, ◌∙◌, subst, Bool, true, false,
  Option, none, some, arith, Bytes, bytes_eq_iff, lookup, Option-cases, Error, Result, ok,
}
use vara.Hash.{BaseId}
use vara.Object.{blob, serialize}
use vara.Object.Store.{Codec, read}
use vara.Object.Store.Laws.{IsCodec}
use vara.Diff.ThreeWay.{three_way_merge}
use vara.Diff.Trees.{ChangeType, added, deleted, modified}
use vara.Merge.{
  Repo, OsCalls, PathCase, apply, content, structural, read_blob_data, find_blob_in_tree,
  apply_deleted, apply_as, store_merged,
}
use vara.Merge.Run.{Inputs, no_conflict, merge_file_content, merge_as}
use vara.Merge.Staged.{staged, staged-remove_from_index}
use vara.Merge.Paths.{
  SameAt, SameAt-trans, StepAt, StepAt-refl, write_change_done, apply_as-StepAt,
  store_merged-StepAt, store_merged_done,
}

some_inj : {x y : Repo × Result Bool} → some x ≡ some y → x ≡ y
some_inj h = cc h

some_pair :
    {p : Repo × Result Bool} {s : Repo} {out : Result Bool}
    → some p ≡ some (s, out)
    → (p.0 ≡ s) × (p.1 ≡ out)
some_pair h = (
  ap (λ (x : Repo × Result Bool). x.0) (some_inj h),
  ap (λ (x : Repo × Result Bool). x.1) (some_inj h),
)

no_conflict-0 : (p : Repo × Option Error) → (no_conflict p).0 ≡ p.0
no_conflict-0 (r, none) = refl
no_conflict-0 (r, some x) = refl

no_conflict-1 :
    (p : Repo × Option Error) (c : Bool) → (no_conflict p).1 ≡ ok c → (p.1 ≡ none) × (c ≡ false)
no_conflict-1 (r, none) c h = (refl, cc h)
no_conflict-1 (r, some x) c h = cc h

module _ (codec : Codec) (calls : OsCalls) (fuel : ℕ) (inputs : Inputs) where
  -- A path after its one-sided change, from the repository before it.
  abbrev pub Changed : Bytes → ChangeType → BaseId → Repo → Repo → Type 0
  Changed path deleted id before after =
      (staged path after.index ≡ none)
      × (lookup path after.worktree
          ≡ (if calls.remove path then none else lookup path before.worktree))
  Changed path _ id before after =
      (staged path after.index ≡ some id)
      × (lookup path after.worktree ≡ some (read_blob_data (read codec before.files) id))

  -- A path once it is merged: which flag for a conflict it has, and what the index and the working
  -- tree hold under it.
  abbrev pub Settled : BaseId → Bytes → PathCase → Bool → Repo → Repo → Type 0
  Settled base_tree path (apply fc) conflict before after =
      (conflict ≡ false) × Changed path fc.change_type fc.blob_id before after
  Settled base_tree path (content ours theirs) conflict before after =
      (base : BaseId) × (merged : Bytes) × (find_blob_in_tree (read codec before.files) fuel
          base_tree path
        ≡ some base)
      × (three_way_merge fuel (read_blob_data (read codec before.files) base)
            (read_blob_data (read codec before.files) ours)
            (read_blob_data (read codec before.files) theirs) inputs.our_label inputs.their_label
          ≡ some (some (merged, conflict)))
      × (staged path after.index ≡ some (codec.hash (serialize (blob merged))))
      × (lookup path after.worktree ≡ some merged)
  Settled base_tree path structural conflict before after =
      (conflict ≡ true) × SameAt path before after

  Changed-moves :
      (path : Bytes) (t : ChangeType) (id : BaseId) (r s u : Repo)
      → SameAt path s u
      → Changed path t id r s
      → Changed path t id r u
  Changed-moves path deleted id r s u h (a, b) = (h.index ∙ a, h.worktree ∙ b)
  Changed-moves path added id r s u h (a, b) = (h.index ∙ a, h.worktree ∙ b)
  Changed-moves path modified id r s u h (a, b) = (h.index ∙ a, h.worktree ∙ b)

  pub Settled-moves :
      (base_tree : BaseId) (path : Bytes) (d : PathCase) (c : Bool) (r s u : Repo)
      → SameAt path s u
      → Settled base_tree path d c r s
      → Settled base_tree path d c r u
  Settled-moves base_tree path (apply fc) c r s u h (f, a) =
      (f, Changed-moves path fc.change_type fc.blob_id r s u h a)
  Settled-moves base_tree path (content o t) c r s u h (b, m, f, g, x, y) =
      (b, m, f, g, h.index ∙ x, h.worktree ∙ y)
  Settled-moves base_tree path structural c r s u h (f, a) = (f, SameAt-trans a h)

  merge_file_content_inv :
      (base_tree : BaseId) (path : Bytes) (ours theirs : BaseId) (r s : Repo) (out : Result Bool)
      → merge_file_content codec calls fuel inputs base_tree path ours theirs r ≡ some (s, out)
      → (base : BaseId) × (merged : Bytes) × (conflict : Bool) × (find_blob_in_tree
            (read codec r.files)
            fuel
            base_tree
            path
          ≡ some base)
        × (three_way_merge fuel
              (read_blob_data (read codec r.files) base)
              (read_blob_data (read codec r.files) ours)
              (read_blob_data (read codec r.files) theirs)
              inputs.our_label
              inputs.their_label
            ≡ some (some (merged, conflict)))
        × (store_merged codec calls path merged conflict r ≡ (s, out))
  unfolding merge_file_content
  merge_file_content_inv base_tree path ours theirs r s out h =
      let data_of = read_blob_data (read codec r.files) in
      elim (Option-cases (find_blob_in_tree (read codec r.files) fuel base_tree path)) [
        | inl e ↦ absurd (cc (rw (e, merge_file_content) at h))
        | inr (base, e) ↦
            elim (Option-cases (
              three_way_merge fuel (data_of base) (data_of ours) (data_of theirs) inputs.our_label
                inputs.their_label)) [
                  | inl f ↦ absurd (cc (rw (e, f, merge_file_content) at h))
                  | inr (none, f) ↦ absurd (cc (rw (e, f, merge_file_content) at h))
                  | inr (some m, f) ↦
                      (base, m.0, m.1, e, f, some_inj (rw (e, f, merge_file_content) at h))
                ]
      ]

  module _ (coded : IsCodec codec) (seen : (path : Bytes) → (calls.store path).stat ≡ true) where
    apply_as_done :
        (path : Bytes) (t : ChangeType) (id : BaseId) (r : Repo)
        → (apply_as codec calls path t id r).1 ≡ none
        → Changed path t id r (apply_as codec calls path t id r).0
    unfolding apply_as apply_deleted
    apply_as_done path deleted id r h = (
      ground (arith, staged-remove_from_index path path r.index, bytes_eq_iff path path),
      ground (arith, lookup-erase path path r.worktree, bytes_eq_iff path path),
    )
    apply_as_done path added id r h = write_change_done codec coded calls seen path id r h
    apply_as_done path modified id r h = write_change_done codec coded calls seen path id r h

    pub merge_as-StepAt :
        (base_tree : BaseId) (path : Bytes) (d : PathCase) (r s : Repo) (out : Result Bool)
        → merge_as codec calls fuel inputs base_tree path d r ≡ some (s, out)
        → StepAt path r s
    unfolding merge_as
    merge_as-StepAt base_tree path (apply fc) r s out h =
        let done = apply_as codec calls path fc.change_type fc.blob_id r in
        subst (StepAt path r) (sym (no_conflict-0 done) ∙ (some_pair h).0)
          (apply_as-StepAt codec coded calls seen path fc.change_type fc.blob_id r)
    merge_as-StepAt base_tree path (content ours theirs) r s out h =
        let (base, merged, conflict, f, g, e) =
          merge_file_content_inv base_tree path ours theirs r s out h in
        subst (StepAt path r) (ap (λ (x : Repo × Result Bool). x.0) e)
          (store_merged-StepAt codec coded calls seen path merged conflict r)
    merge_as-StepAt base_tree path structural r s out h =
        subst (StepAt path r) (some_pair h).0 (StepAt-refl path r)

    pub merge_as-Settled :
        (base_tree : BaseId) (path : Bytes) (d : PathCase) (r s : Repo) (c : Bool)
        → merge_as codec calls fuel inputs base_tree path d r ≡ some (s, ok c)
        → Settled base_tree path d c r s
    unfolding merge_as
    merge_as-Settled base_tree path (apply fc) r s c h =
        let done = apply_as codec calls path fc.change_type fc.blob_id r in
        let (fine, clean) = no_conflict-1 done c (some_pair h).1 in
        (
          clean,
          subst (Changed path fc.change_type fc.blob_id r)
              (sym (no_conflict-0 done) ∙ (some_pair h).0)
              (apply_as_done path fc.change_type fc.blob_id r fine),
        )
    merge_as-Settled base_tree path (content ours theirs) r s c h =
        let (base, merged, conflict, f, g, e) =
          merge_file_content_inv base_tree path ours theirs r s (ok c) h in
        let (same, x, y) =
          store_merged_done codec coded calls seen path merged conflict c r
            (ap (λ (p : Repo × Result Bool). p.1) e) in
        (base, merged, f, rw same g, ground (arith, x), ground (arith, y))
    merge_as-Settled base_tree path structural r s c h = ground (arith, some_pair h)
