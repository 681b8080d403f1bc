-- ===== src/Merge/Paths.antt =====
-- internal/merge/merge.go: what a step for one path changes, and what it leaves alone.
use vara.Base.{
  true, ◌≡◌, inl, inr, refl, Bool, false, none, some, arith, Bytes, bytes_eq, bytes_eq_iff, lookup,
  insert, lookup-insert, lookup-erase, Bool-cases, Option-cases, ok,
}
use vara.Hash.{BaseId, IsId}
use vara.Object.{Object, blob, serialize}
use vara.Object.Store.{Files, Calls, Codec, object_path, read, write}
use vara.Object.Store.Laws.{IsCodec, write_keeps_seen}
use vara.Diff.Trees.{ChangeType, added, deleted, modified}
use vara.Merge.{
  Repo, OsCalls, WriteOutcome, complete, unopened, torn, write_bytes, stage, read_blob_data,
  write_change, apply_deleted, apply_as, store_merged,
}
use vara.Merge.Staged.{staged, staged-update_index, staged-remove_from_index}

-- The index and the working tree have the same under a path.
pub record SameAt (path : Bytes) (r s : Repo) : Type 0 where
  pub index : staged path s.index ≡ staged path r.index
  pub worktree : lookup path s.worktree ≡ lookup path r.worktree

pub SameAt-trans :
    {path : Bytes} {r s t : Repo} → SameAt path r s → SameAt path s t → SameAt path r t
SameAt-trans h k = ground arith

-- What a step for one path leaves alone.
pub record StepAt (path : Bytes) (r s : Repo) : Type 0 where
  pub others : (q : Bytes) → bytes_eq path q ≡ false → SameAt q r s
  pub kept :
      (j : BaseId) (content : Bytes)
      → IsId j
      → lookup (object_path j) r.files ≡ some content
      → lookup (object_path j) s.files ≡ some content

pub StepAt-refl : (path : Bytes) (r : Repo) → StepAt path r r
StepAt-refl path r = record {
  others = λ q h. record { index = refl; worktree = refl };
  kept = λ j content hj h. h;
}

pub write_bytes-StepAt :
    (w : WriteOutcome) (path bytes : Bytes) (r : Repo)
    → StepAt path r (write_bytes w path bytes r).0
unfolding write_bytes
write_bytes-StepAt complete path bytes r = record {
  others = λ q h. ground (arith, lookup-insert path q bytes r.worktree);
  kept = λ j content hj h. h;
}
write_bytes-StepAt unopened path bytes r = StepAt-refl path r
write_bytes-StepAt (torn left) path bytes r = record {
  others = λ q h. ground (arith, lookup-insert path q left r.worktree);
  kept = λ j content hj h. h;
}

write_bytes-none :
    (w : WriteOutcome) (path bytes : Bytes) (r : Repo)
    → (write_bytes w path bytes r).1 ≡ none
    → (write_bytes w path bytes r).0 ≡ record r { worktree = insert path bytes r.worktree }
unfolding write_bytes
write_bytes-none complete path bytes r h = refl
write_bytes-none unopened path bytes r h = cc
write_bytes-none (torn left) path bytes r h = cc

stage-StepAt :
    (path : Bytes) (id : BaseId) (r s : Repo) → StepAt path r s → StepAt path r (stage path id s)
stage-StepAt path id r s h = record {
  others = λ q e. ground (arith, h.others q e, staged-update_index path q id s.index);
  kept = h.kept;
}

module _ (codec : Codec) (coded : IsCodec codec) (calls : OsCalls)
    (seen : (path : Bytes) → (calls.store path).stat ≡ true) where
  write_change-StepAt :
      (path : Bytes) (id : BaseId) (r : Repo) → StepAt path r (write_change codec calls path id r).0
  unfolding write_change
  write_change-StepAt path id r =
      let bytes = read_blob_data (read codec r.files) id in
      let w = write_bytes (calls.write_file path) path bytes r in
      let base = write_bytes-StepAt (calls.write_file path) path bytes r in
      elim (Bool-cases (calls.mkdir path)) [
        | inr no_dir ↦ rw no_dir (StepAt-refl path r)
        | inl dir ↦ elim (Option-cases w.1) [
          | inl e ↦ rw (dir, e) (stage-StepAt path id r w.0 base)
          | inr (x, e) ↦ rw (dir, e) base
        ]
      ]

  -- A change that gives no error.
  pub write_change_done :
      (path : Bytes) (id : BaseId) (r : Repo)
      → (write_change codec calls path id r).1 ≡ none
      → (staged path (write_change codec calls path id r).0.index ≡ some id)
        × (lookup path (write_change codec calls path id r).0.worktree
            ≡ some (read_blob_data (read codec r.files) id))
  unfolding write_change
  write_change_done path id r h =
      let bytes = read_blob_data (read codec r.files) id in
      let w = write_bytes (calls.write_file path) path bytes r in
      elim (Bool-cases (calls.mkdir path)) [
        | inr no_dir ↦ absurd (cc (rw no_dir at h))
        | inl dir ↦ elim (Option-cases w.1) [
          | inr (x, e) ↦ absurd (cc (rw (dir, e) at h))
          | inl e ↦
              rw (dir, e)
                (ground (
                  arith,
                  write_bytes-none (calls.write_file path) path bytes r e,
                  bytes_eq_iff path path,
                  staged-update_index path path id r.index,
                  lookup-insert path path bytes r.worktree,
                ))
        ]
      ]

  apply_deleted-StepAt : (path : Bytes) (r : Repo) → StepAt path r (apply_deleted calls path r)
  unfolding apply_deleted
  apply_deleted-StepAt path r = record {
    others = λ q h.
        ground (arith, staged-remove_from_index path q r.index, lookup-erase path q r.worktree);
    kept = λ j content hj h. h;
  }

  pub apply_as-StepAt :
      (path : Bytes) (t : ChangeType) (id : BaseId) (r : Repo)
      → StepAt path r (apply_as codec calls path t id r).0
  unfolding apply_as
  apply_as-StepAt path deleted id r = apply_deleted-StepAt path r
  apply_as-StepAt path added id r = write_change-StepAt path id r
  apply_as-StepAt path modified id r = write_change-StepAt path id r

  pub store_merged-StepAt :
      (path merged : Bytes) (conflict : Bool) (r : Repo)
      → StepAt path r (store_merged codec calls path merged conflict r).0
  unfolding store_merged
  store_merged-StepAt path merged conflict r =
      let w = write_bytes (calls.write_file path) path merged r in
      let base = write_bytes-StepAt (calls.write_file path) path merged r in
      let stored = write codec (calls.store path) (blob merged) w.0.files in
      let kept_on : StepAt path r (record w.0 { files = stored.0 }) = record {
        others = λ q h. ground (arith, base.others q h);
        kept = λ j content hj h.
            write_keeps_seen codec coded (calls.store path) (blob merged) w.0.files j content
              (seen path) hj (base.kept j content hj h);
      } in
      elim (Bool-cases (calls.mkdir path)) [
        | inr no_dir ↦ rw no_dir (StepAt-refl path r)
        | inl dir ↦ elim (Option-cases w.1) [
          | inr (x, e) ↦ rw (dir, e) base
          | inl e ↦ elim (Option-cases stored.2) [
            | inl e' ↦ rw (dir, e, e') (stage-StepAt path stored.1 r _ kept_on)
            | inr (x, e') ↦ rw (dir, e, e') kept_on
          ]
        ]
      ]

  write-id :
      (store_calls : Calls) (o : Object) (files : Files)
      → (write codec store_calls o files).1 ≡ codec.hash (serialize o)
  unfolding write
  write-id store_calls o files = ground arith

  pub store_merged_done :
      (path merged : Bytes) (conflict c : Bool) (r : Repo)
      → (store_merged codec calls path merged conflict r).1 ≡ ok c
      → (c ≡ conflict)
        × (staged path (store_merged codec calls path merged conflict r).0.index
            ≡ some (codec.hash (serialize (blob merged))))
        × (lookup path (store_merged codec calls path merged conflict r).0.worktree ≡ some merged)
  unfolding store_merged
  store_merged_done path merged conflict c r h =
      let w = write_bytes (calls.write_file path) path merged r in
      let stored = write codec (calls.store path) (blob merged) w.0.files in
      elim (Bool-cases (calls.mkdir path)) [
        | inr no_dir ↦ absurd (cc (rw no_dir at h))
        | inl dir ↦ elim (Option-cases w.1) [
          | inr (x, e) ↦ absurd (cc (rw (dir, e) at h))
          | inl e ↦ elim (Option-cases stored.2) [
            | inr (x, e') ↦ absurd (cc (rw (dir, e, e') at h))
            | inl e' ↦
                let same : ok conflict ≡ ok c = rw (dir, e, e') at h in
                rw (dir, e, e')
                  (
                    cc same,
                    ground (
                      arith,
                      staged-update_index path path stored.1 w.0.index,
                      bytes_eq_iff path path,
                      write-id (calls.store path) (blob merged) w.0.files,
                    ),
                    ground (
                      arith,
                      write_bytes-none (calls.write_file path) path merged r e,
                      bytes_eq_iff path path,
                      lookup-insert path path merged r.worktree,
                    ),
                  )
          ]
        ]
      ]
