-- ===== src/Merge/Finished.antt =====
-- internal/merge/merge.go: when `Merge` records a merge that is to be finished.
use vara.Base.{
  ◌⊎◌, ◌∙◌, bytes_eq_refl, ℕ, ◌≡◌, refl, Bool, true, false, not, Option, none, some, List, [], ◌∷◌,
  ◌++◌, arith, Bytes, bytes_eq, codes, is_empty, lookup, Bool-cases, Error, Result, ok, err, inl,
  inr, subst,
}
use vara.Hash.{BaseId, to_string}
use vara.Object.Store.{Codec, read}
use vara.Fsutil.{WriteCalls, write_file_atomic, tmp_off}
use vara.Graph.{merge_base}
use vara.Diff.Trees.{FileDiff, diff_trees}
use vara.Merge.{Repo, OsCalls}
use vara.Merge.Checkout.{checkout_commit}
use vara.Merge.Run.{
  commit_trees, merge_diffs, and_then, concluded, MergeResult, conflict, Output, Inputs, suspend,
  conclude, merge_head, three_way, fast_forwarded, merge_with, merge,
}

abbrev is_conflict : MergeResult → Bool
is_conflict conflict = true
is_conflict _ = false

-- The merge returns without an error, to be finished by hand.
abbrev pub is_suspended : Result Output → Bool
is_suspended (err x) = false
is_suspended (ok out) = is_conflict out.result

abbrev pub lists_conflicts : Result Output → Bool
lists_conflicts (err x) = false
lists_conflicts (ok out) = not (is_empty out.conflicts)

module _ (codec : Codec) (calls : OsCalls) (fuel : ℕ) (inputs : Inputs) where
  abbrev pub their_line : Bytes
  their_line = to_string inputs.their_commit ++ 10 ∷ []

  -- The files below the root after a run that gives `out`.
  abbrev pub Recorded : Repo → Result Output → Type 0
  Recorded s out = (is_suspended out ≡ false) ⊎ (lookup merge_head s.worktree ≡ some their_line)

  abbrev Finished : Repo → Result Output → Type 0
  Finished s out = Recorded s out × (lists_conflicts out ≡ is_suspended out)

  suspend-Finished :
      (head_calls : WriteCalls) (r : Repo) (p : Bytes) (ps : List Bytes)
      → Finished
          (suspend codec calls fuel inputs head_calls r (p ∷ ps)).0
          (suspend codec calls fuel inputs head_calls r (p ∷ ps)).1
  unfolding suspend
  suspend-Finished head_calls r p ps =
      let tmp = merge_head ++ codes ".tmp" in
      elim (write_file_atomic 20 head_calls tmp merge_head their_line merge_head r.worktree
        (tmp_off merge_head)) [
          | inl (e, written) ↦
              rw (e, suspend) (inr (written ∙ ground (arith, bytes_eq_refl merge_head)), refl)
          | inr (e, kept) ↦ rw (e, suspend) (inl refl, refl)
        ]

  -- What `Finished` says of each outcome.
  abbrev Records : Option (Repo × Result Output) → Type 0
  Records result = (s : Repo) (out : Result Output) → result ≡ some (s, out) → Finished s out

  some-Records : (r : Repo) (o : Result Output) → Finished r o → Records (some (r, o))
  some-Records r o f s out e =
      let same : (r, o) ≡ (s, out) = cc e in
      subst (λ (w : Repo × Result Output). Finished w.0 w.1) same f

  and_then-Records :
      {A : Type 0} (r : Repo) (first : Option (Result A)) (rest : A → Option (Repo × Result Output))
      → ((a : A) → Records (rest a))
      → Records (and_then r first rest)
  and_then-Records r none rest h s out e = cc e
  and_then-Records r (some (err x)) rest h s out e = ground arith
  and_then-Records r (some (ok a)) rest h s out e = h a s out e

  concluded-Records :
      (head_calls : WriteCalls) (merged : Option (Repo × Result (List Bytes)))
      → Records (concluded codec calls fuel inputs head_calls merged)
  unfolding conclude
  concluded-Records head_calls none s out e = cc e
  concluded-Records head_calls (some (m, err x)) s out e =
      some-Records m (err x) (inl refl, refl) s out e
  concluded-Records head_calls (some (m, ok [])) s out e = some-Records m _ (inl refl, refl) s out e
  concluded-Records head_calls (some (m, ok (p ∷ ps))) s out e =
      let c = suspend codec calls fuel inputs head_calls m (p ∷ ps) in
      some-Records c.0 c.1 (suspend-Finished head_calls m p ps) s out e

  merge_diffs-Records :
      (order : List Bytes → List Bytes) (head_calls : WriteCalls) (base_tree : BaseId)
      (diff_ours diff_theirs : List FileDiff) (r : Repo)
      → Records
          (merge_diffs codec calls fuel inputs order head_calls base_tree diff_ours diff_theirs r)
  unfolding merge_diffs
  merge_diffs-Records order head_calls base_tree diff_ours diff_theirs r =
      concluded-Records head_calls _

  three_way-Records :
      (sort : List FileDiff → List FileDiff) (order : List Bytes → List Bytes)
      (head_calls : WriteCalls) (base : BaseId) (r : Repo)
      → Records (three_way codec calls fuel inputs sort order head_calls base r)
  unfolding three_way
  three_way-Records sort order head_calls base r =
      let step = λ (t : BaseId × BaseId × BaseId) (diff_ours diff_theirs : List FileDiff).
        merge_diffs codec calls fuel inputs order head_calls t.0 diff_ours diff_theirs r in
      let diffs = λ (old new : BaseId). diff_trees (read codec r.files) sort fuel old new in
      and_then-Records r (some (commit_trees codec calls fuel inputs base r))
        (λ t. and_then r (diffs t.0 t.1) (λ o. and_then r (diffs t.0 t.2) (λ d. step t o d)))
        (λ t.
          and_then-Records r (diffs t.0 t.1) (λ o. and_then r (diffs t.0 t.2) (λ d. step t o d))
            (λ o.
              and_then-Records r (diffs t.0 t.2) (λ d. step t o d)
                (λ d. merge_diffs-Records order head_calls t.0 o d r)))

  fast_forwarded-Records :
      (w : Option (Repo × Option Error)) → Records (fast_forwarded codec calls fuel inputs w)
  fast_forwarded-Records none s out e = cc e
  fast_forwarded-Records (some (m, some x)) s out e =
      some-Records m (err x) (inl refl, refl) s out e
  fast_forwarded-Records (some (m, none)) s out e = some-Records m _ (inl refl, refl) s out e

  merge_with-Records :
      (sort : List FileDiff → List FileDiff) (order : List Bytes → List Bytes)
      (head_calls : WriteCalls) (base : BaseId) (r : Repo)
      → Records (merge_with codec calls fuel inputs sort order head_calls base r)
  unfolding merge_with
  merge_with-Records sort order head_calls base r s out h =
      elim (Bool-cases (bytes_eq base inputs.our_commit)) [
        | inl ours ↦
            fast_forwarded-Records (checkout_commit codec calls fuel inputs.their_commit r) s out
              (rw (ours, merge_with) at h)
        | inr other ↦ elim (Bool-cases (bytes_eq base inputs.their_commit)) [
          | inl theirs ↦
              some-Records r _ (inl refl, refl) s out (rw (other, theirs, merge_with) at h)
          | inr neither ↦
              three_way-Records sort order head_calls base r s out
                (rw (other, neither, merge_with) at h)
        ]
      ]

  -- Whatever the calls of the operating system do, a `Merge` that returns `Conflict` has written the
  -- identifier of their commit to `.vara/MERGE_HEAD`, also where the trees have that path; and any
  -- result lists paths exactly if it is `Conflict`.
  pub merge_recorded :
      (sort : List FileDiff → List FileDiff) (order : List Bytes → List Bytes)
      (head_calls : WriteCalls) (r s : Repo) (out : Result Output)
      → merge codec calls fuel inputs sort order head_calls r ≡ some (s, out)
      → ((is_suspended out ≡ false) ⊎ (lookup merge_head s.worktree ≡ some their_line))
        × (lists_conflicts out ≡ is_suspended out)
  unfolding merge
  merge_recorded sort order head_calls r =
      and_then-Records r
        (merge_base (read codec r.files) fuel inputs.our_commit inputs.their_commit)
        (λ base. merge_with codec calls fuel inputs sort order head_calls base r)
        (λ base. merge_with-Records sort order head_calls base r)
