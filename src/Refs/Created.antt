-- ===== src/Refs/Created.antt =====
-- pkg/refs/refs.go: `Create`, and `Delete` after it.
use vara.Base.{
  ℕ, suc, ◌≡◌, true, none, some, [], ◌∷◌, ◌++◌, arith, Bytes, lookup, lookup-erase, bytes_eq_refl,
  contains, Option-cases, inl, inr, ok, err, failure, ref_not_found,
}
use vara.Hash.{BaseId, IsId, to_string, parse_hex-to_string}
use vara.Fsutil.{Files}
use vara.Refs.{Calls, direct, read_ref, resolve_from, resolve, store_ref, create, delete}
use vara.Refs.Chain.{stored, lock_off, content-to_string}

module _ (ref_path : Bytes → Bytes) where
  resolve-missing :
      (files : Files) (name : Bytes) (n : ℕ)
      → lookup (ref_path name) files ≡ none
      → resolve ref_path files (suc n) name ≡ some (err ref_not_found)
  unfolding resolve resolve_from read_ref contains
  resolve-missing files name n e = ground arith

  resolve-direct :
      (files : Files) (name : Bytes) (id : BaseId) (n : ℕ)
      → IsId id
      → lookup (ref_path name) files ≡ some (to_string id ++ 10 ∷ [])
      → resolve ref_path files (suc n) name ≡ some (ok id)
  unfolding resolve resolve_from contains
  resolve-direct files name id n is_id e =
      let here : read_ref ref_path files name ≡ direct (to_string id) =
        unfold read_ref in ground (arith, content-to_string ref_path id is_id) in
      ground (arith, parse_hex-to_string id is_id)

  created :
      (calls : Calls) (files files' : Files) (name : Bytes) (id : BaseId)
      → create ref_path calls name id files ≡ (files', none)
      → lookup (ref_path name) files' ≡ some (to_string id ++ 10 ∷ [])
  unfolding create
  created calls files files' name id e = elim (Option-cases (lookup (ref_path name) files)) [
    | inr (x, there) ↦ absurd (ground arith)
    | inl new ↦
        let content = to_string id ++ 10 ∷ [] in
        let s : store_ref ref_path calls name content files ≡ (files', none) = ground arith in
        let at =
          stored ref_path calls files files' name content (ref_path name) s
            (lock_off ref_path (ref_path name)) in
        ground (arith, bytes_eq_refl (ref_path name))
  ]

  -- After a `Create` without an error, `Resolve` of the name gives the identifier, another `Create`
  -- of it fails and changes nothing, and after a `Delete` that removes the file `Resolve` gives
  -- `ErrRefNotFound`.
  pub create_once :
      (calls again : Calls) (files files' : Files) (name : Bytes) (id other : BaseId) (n : ℕ)
      → IsId id
      → create ref_path calls name id files ≡ (files', none)
      → (resolve ref_path files' (suc n) name ≡ some (ok id))
        × (create ref_path again name other files' ≡ (files', some failure))
        × (resolve ref_path (delete ref_path true name files').0 (suc n) name
            ≡ some (err ref_not_found))
  create_once calls again files files' name id other n is_id e =
      let here = created calls files files' name id e in
      (
        resolve-direct files' name id n is_id here,
        unfold create in ground arith,
        resolve-missing (delete ref_path true name files').0 name n (
            unfold delete in
            ground (
              arith,
              lookup-erase (ref_path name) (ref_path name) files',
              bytes_eq_refl (ref_path name),
            )),
      )
