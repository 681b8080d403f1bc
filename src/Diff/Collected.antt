-- ===== src/Diff/Collected.antt =====
-- pkg/diff/diff.go: the files that `collectFiles` finds are those that the tree has.
use mathlib.Core.List.{append_assoc}
use vara.Base.{
  ℕ, zero, suc, ◌≡◌, inl, inr, sym, ◌∙◌, false, some, [], ◌∷◌, ◌++◌, arith, Bytes, bytes_eq, lookup,
  Bool-cases, Result-cases, Result, ok, subst,
}
use vara.Hash.{BaseId}
use vara.Object.{Object}
use vara.Diff.Trees.{FileMap, zero_object, tree_entries, collect_files, files_of}
use vara.Diff.Files.{
  InTree, file, within, Has, Adds, entries_of, collect_entries-Add, collect_entries-reaches,
}

module _ (read : BaseId → Result Object) where
  collect_files-Adds :
      (fuel : ℕ) (id : BaseId) (prefix : Bytes) (m m' : FileMap)
      → collect_files read fuel id prefix m ≡ some (ok m')
      → Adds read id prefix m m'
  unfolding collect_files
  collect_files-Adds zero id prefix m m' run = absurd (cc run)
  collect_files-Adds (suc fuel) id prefix m m' run = elim (Result-cases (tree_entries (read id))) [
    | inr (x, q) ↦ absurd (ground arith)
    | inl (es, q) ↦
        let is_tree = entries_of (read id) es q in
        let (grows, from) =
          collect_entries-Add read (collect_files read fuel) (collect_files-Adds fuel) prefix es m
            m' (ground arith) in
        (
          grows,
          λ p b at. elim (from p b at) [
            | inl before ↦ inl before
            | inr (e, member, inl (no_dir, path, blob)) ↦ inr (
              e.name,
              path,
              subst (InTree read id e.name) (sym blob) (file es e is_tree member no_dir),
            )
            | inr (e, member, inr (dir, q', path, there)) ↦ inr (
              e.name ++ b'/' ∷ q',
              path
                  ∙ append_assoc (prefix ++ e.name) (b'/' ∷ []) q'
                  ∙ append_assoc prefix e.name (b'/' ∷ q'),
              within es e is_tree member dir there,
            )
          ],
        )
  ]

  collect_files-reaches :
      {id b : BaseId} {q : Bytes}
      → InTree read id q b
      → (fuel : ℕ) (prefix : Bytes) (m m' : FileMap)
      → collect_files read fuel id prefix m ≡ some (ok m')
      → Has (prefix ++ q) m'
  unfolding collect_files
  collect_files-reaches t zero prefix m m' run = absurd (cc run)
  collect_files-reaches (file es e is_tree member no_dir) (suc fuel) prefix m m' run =
      elim (collect_entries-reaches read (collect_files read fuel) (collect_files-Adds fuel) prefix
        es e m m' member (rw (is_tree, collect_files) at run)) [
          | inl (_, has) ↦ has
          | inr (_, _, _, dir, _) ↦ absurd (cc (dir, no_dir))
        ]
  collect_files-reaches (within {p = p} es e is_tree member dir t) (suc fuel) prefix m m' run =
      elim (collect_entries-reaches read (collect_files read fuel) (collect_files-Adds fuel) prefix
        es e m m' member (rw (is_tree, collect_files) at run)) [
          | inl (no_dir, _) ↦ absurd (cc (dir, no_dir))
          | inr (m₁, m₂, call, _, grows) ↦
              let has = collect_files-reaches t fuel ((prefix ++ e.name) ++ b'/' ∷ []) m₁ m₂ call in
              subst (λ x. Has x m')
                (append_assoc (prefix ++ e.name) (b'/' ∷ []) p
                  ∙ append_assoc prefix e.name (b'/' ∷ p))
                (grows _ has)
        ]

  -- The map has exactly the paths of the files of the tree, none for the zero identifier, each with
  -- a blob that the tree has there.
  abbrev pub IsFilesOf : BaseId → FileMap → Type 0
  IsFilesOf id files =
      ((p : Bytes) (b : BaseId)
        → lookup p files ≡ some b
        → (bytes_eq id zero_object ≡ false) × InTree read id p b)
      × ((p : Bytes) (b : BaseId)
          → bytes_eq id zero_object ≡ false
          → InTree read id p b
          → (c : BaseId) × (lookup p files ≡ some c))

  pub files_of-IsFilesOf :
      (fuel : ℕ) (id : BaseId) (m : FileMap) → files_of read fuel id ≡ some (ok m) → IsFilesOf id m
  unfolding files_of lookup
  files_of-IsFilesOf fuel id m run = elim (Bool-cases (bytes_eq id zero_object)) [
    | inl z ↦
        let same : [] ≡ m = ground arith in
        subst (IsFilesOf id) same ((λ p b at. absurd (cc at)), (λ p b no t. absurd (cc (z, no))))
    | inr n ↦
        let call : collect_files read fuel id [] [] ≡ some (ok m) = ground arith in
        (
          λ p b at. elim ((collect_files-Adds fuel id [] [] m call).1 p b at) [
            | inl before ↦ absurd (cc before)
            | inr (q, path, there) ↦ (n, subst (λ (x : Bytes). InTree read id x b) (sym path) there)
          ],
          λ p b no t. collect_files-reaches t fuel [] [] m call,
        )
  ]
