-- ===== src/Merge/Checkout.antt =====
-- internal/merge/merge.go: `fastForward` and `checkoutTreeEntries`. The outcome of a `MkdirAll` is
-- dropped there; the fuel bounds the depth of the tree.
use vara.Base.{
  ℕ, zero, suc, ◌==◌, Option, none, some, List, [], ◌∷◌, ◌++◌, if◌then◌else◌, Bytes, Error, Result,
  ok, err, failure,
}
use vara.Hash.{BaseId}
use vara.Object.{Object, blob, TreeEntry}
use vara.Object.Store.{Codec, read}
use vara.Graph.{read_commit}
use vara.Diff.Trees.{tree_entries}
use vara.Merge.{Repo, OsCalls, stage, write_worktree, written}

-- `readBlobObj`.
abbrev pub blob_of : Result Object → Result Bytes
blob_of (ok (blob bytes)) = ok bytes
blob_of (ok _) = err failure
blob_of (err e) = err e

-- `if err != nil { return err }`, and the rest of the loop.
abbrev pub after :
    Option (Repo × Option Error)
    → (Repo → Option (Repo × Option Error))
    → Option (Repo × Option Error)
after none rest = none
after (some (repo, some x)) rest = some (repo, some x)
after (some (repo, none)) rest = rest repo

module _ (codec : Codec) (calls : OsCalls) where
  -- A file of the tree, once its blob is read.
  abbrev pub checkout_blob : Bytes → BaseId → Repo → Result Bytes → Repo × Option Error
  checkout_blob path id repo (err x) = (repo, some x)
  checkout_blob path id repo (ok bytes) =
      written (λ x. some x) (λ r. (stage path id r, none)) (write_worktree calls path bytes repo)

  -- One entry, where `checkout_sub` is the recursive call.
  unfoldable pub checkout_entry :
      (BaseId → Bytes → Repo → Option (Repo × Option Error))
      → Bytes
      → TreeEntry
      → Repo
      → Option (Repo × Option Error)
  checkout_entry checkout_sub prefix entry repo =
      let path = prefix ++ entry.name in
      if entry.mode == 0x4000
      then checkout_sub entry.hash (path ++ b'/' ∷ []) repo
      else some (checkout_blob path entry.hash repo (blob_of (read codec repo.files entry.hash)))

  unfoldable pub checkout_entries :
      (BaseId → Bytes → Repo → Option (Repo × Option Error))
      → Bytes
      → List TreeEntry
      → Repo
      → Option (Repo × Option Error)
  checkout_entries checkout_sub prefix [] repo = some (repo, none)
  checkout_entries checkout_sub prefix (entry ∷ es) repo =
      after (checkout_entry checkout_sub prefix entry repo)
        (λ r. checkout_entries checkout_sub prefix es r)

  -- `checkoutTreeEntries`.
  unfoldable pub checkout_tree : ℕ → BaseId → Bytes → Repo → Option (Repo × Option Error)
  checkout_tree zero id prefix repo = none
  checkout_tree (suc fuel) id prefix repo = elim (tree_entries (read codec repo.files id)) [
    | err x ↦ some (repo, some x)
    | ok es ↦ checkout_entries (checkout_tree fuel) prefix es repo
  ]

  -- `fastForward`.
  unfoldable pub checkout_commit : ℕ → BaseId → Repo → Option (Repo × Option Error)
  checkout_commit fuel id repo = elim (read_commit (read codec repo.files) id) [
    | err x ↦ some (repo, some x)
    | ok c ↦ checkout_tree fuel c.tree_hash [] repo
  ]
