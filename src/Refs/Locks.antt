-- ===== src/Refs/Locks.antt =====
-- pkg/refs/refs.go: the lock file of a reference is at the path of a reference with ".lock".
use vara.Base.{
  suc, ℕ, ◌≡◌, ap, none, some, ◌∷◌, [], ◌++◌, arith, Bytes, codes, contains, lookup, bytes_eq-false,
  Bool-cases, inl, inr, err, ref_not_found, length, length-append,
}
use vara.Hash.{BaseId, to_string}
use vara.Fsutil.{Files, write_file-tmp}
use vara.Refs.{Calls, read_ref, resolve_from, resolve, follow, store_ref, update}

module _ (ref_path : Bytes → Bytes) where
  store_ref-tmp :
      (calls : Calls) (files files' : Files) (name content : Bytes)
      → store_ref ref_path calls name content files ≡ (files', none)
      → lookup (ref_path name ++ codes ".lock") files' ≡ none
  unfolding store_ref
  store_ref-tmp calls files files' name content e =
      let off =
        bytes_eq-false (ref_path name) (ref_path name ++ codes ".lock")
          (λ x. omega (arith, ap length x, length-append (ref_path name) (codes ".lock"))) in
      let gone =
        write_file-tmp calls.retries calls.writing (ref_path name ++ codes ".lock") (ref_path name)
          content files off in
      elim (Bool-cases calls.mkdir) [ inr m ↦ absurd (ground arith) | inl m ↦ ground arith ]

  -- If the path of a name is that of the reference which `Update` writes with ".lock" behind it,
  -- then after an `Update` without an error `Resolve` of that name gives `ErrRefNotFound`,
  -- whatever it gave before.
  pub update_removes_lock :
      (calls : Calls) (files files' : Files) (fuel n : ℕ) (name current other : Bytes) (id : BaseId)
      → follow ref_path files fuel name ≡ some current
      → ref_path other ≡ ref_path current ++ codes ".lock"
      → update ref_path calls fuel name id files ≡ some (files', none)
      → resolve ref_path files' (suc n) other ≡ some (err ref_not_found)
  unfolding resolve resolve_from read_ref update contains
  update_removes_lock calls files files' fuel n name current other id f path u =
      let e : store_ref ref_path calls current (to_string id ++ 10 ∷ []) files ≡ (files', none) =
        ground arith in
      let gone = store_ref-tmp calls files files' current (to_string id ++ 10 ∷ []) e in
      let none_left : lookup (ref_path other) files' ≡ none = cc (path, gone) in ground arith
