-- ===== src/Refs/Returns.antt =====
-- pkg/refs/refs.go: `Resolve` ends on any files, and `Update` does not on a reference that leads to
-- itself.
use vara.Base.{
  ℕ, zero, suc, ◌+◌, ◌≤◌, ◌≡◌, ◌⊎◌, inl, inr, refl, none, some, List, [], ◌∷◌, arith, Bytes, length,
  contains, lookup, Member, unseen, unseen-visit, unseen-le, bytes_eq, Bool-cases, Result, err, ok,
  failure, ref_not_found, Result-cases,
}
use vara.Hash.{BaseId, parse_hex}
use vara.Fsutil.{Files}
use vara.Refs.{
  Content, missing, symbolic, direct, content_of, read_ref, resolve_from, resolve, follow, update,
  Calls,
}

-- `n` symbolic references lead from the first name to the second.
abbrev pub Leads : (Bytes → Bytes) → Files → ℕ → Bytes → Bytes → Type 0
Leads ref_path files zero name last = name ≡ last
Leads ref_path files (suc n) name last =
    (target : Bytes) × (read_ref ref_path files name ≡ symbolic target)
    × Leads ref_path files n target last

pub Content-cases :
    (c : Content)
    → ((t : Bytes) × (c ≡ symbolic t)) ⊎ (c ≡ missing) ⊎ ((s : Bytes) × (c ≡ direct s))
Content-cases missing = inr (inl refl)
Content-cases (symbolic t) = inl (t, refl)
Content-cases (direct s) = inr (inr (s, refl))

module _ (ref_path : Bytes → Bytes) where
  abbrev cons_target : Content → List Bytes → List Bytes
  cons_target missing ts = ts
  cons_target (symbolic t) ts = t ∷ ts
  cons_target (direct s) ts = ts

  -- The targets that the files name.
  abbrev targets : Files → List Bytes
  targets [] = []
  targets ((p, bytes) ∷ files) = cons_target (content_of ref_path (some bytes)) (targets files)

  length-targets : (files : Files) → length (targets files) ≤ length files
  length-targets [] = omega arith
  length-targets ((p, bytes) ∷ files) = elim (Content-cases (content_of ref_path (some bytes))) [
    | inl (t, e) ↦ ground (arith, length-targets files)
    | inr (inl e) ↦ ground (arith, length-targets files)
    | inr (inr (s, e)) ↦ ground (arith, length-targets files)
  ]

  lookup-target :
      (files : Files) (path target : Bytes)
      → content_of ref_path (lookup path files) ≡ symbolic target
      → Member target (targets files)
  unfolding lookup
  lookup-target [] path target e = cc e
  lookup-target ((p, bytes) ∷ files) path target e =
      let more = lookup-target files path target in
      elim (Bool-cases (bytes_eq p path)) [
        | inl here ↦
            let c : content_of ref_path (some bytes) ≡ symbolic target = ground arith in
            rw c (inl refl)
        | inr away ↦ elim (Content-cases (content_of ref_path (some bytes))) [
          | inl (t, c) ↦ rw c (inr (more (ground arith)))
          | inr (inl c) ↦ rw c (more (ground arith))
          | inr (inr (t, c)) ↦ rw c (more (ground arith))
        ]
      ]

  read_ref-target :
      (files : Files) (name target : Bytes)
      → read_ref ref_path files name ≡ symbolic target
      → Member target (targets files)
  unfolding read_ref
  read_ref-target files name target e = lookup-target files (ref_path name) target e

  resolve_from_returns :
      (files : Files) (ids : List Bytes)
      → ((t : Bytes) → Member t (targets files) → Member t ids)
      → (fuel : ℕ) (visited : List Bytes) (current : Bytes) → Member current ids
      → unseen ids visited + 1 ≤ fuel
      → (r : Result BaseId) × (resolve_from ref_path files fuel visited current ≡ some r)
  unfolding resolve_from
  resolve_from_returns files ids closed zero visited current m le = absurd (omega arith)
  resolve_from_returns files ids closed (suc fuel) visited current m le =
      elim (Bool-cases (contains visited current)) [
        | inl seen ↦ (err failure, ground arith)
        | inr fresh ↦ elim (Content-cases (read_ref ref_path files current)) [
          | inl (t, c) ↦
              let (r, e) =
                resolve_from_returns files ids closed fuel (current ∷ visited) t
                  (closed t (read_ref-target files current t c))
                  (omega (arith, unseen-visit ids visited current m fresh)) in
              (r, ground arith)
          | inr (inl c) ↦ (err ref_not_found, ground arith)
          | inr (inr (s, c)) ↦ elim (Result-cases (parse_hex s)) [
            | inl (id, p) ↦ (ok id, ground arith)
            | inr (x, p) ↦ (err failure, ground arith)
          ]
        ]
      ]

  -- `Resolve` returns once the fuel is two more than the number of files: it stops at a reference
  -- that it has seen.
  pub resolve_returns :
      (files : Files) (fuel : ℕ) (name : Bytes)
      → length files + 2 ≤ fuel
      → (r : Result BaseId) × (resolve ref_path files fuel name ≡ some r)
  unfolding resolve
  resolve_returns files fuel name le =
      resolve_from_returns files (name ∷ targets files) (λ t m. inr m) fuel [] name (inl refl)
        (omega (arith, unseen-le (name ∷ targets files) [], length-targets files))

  follow_loops :
      (files : Files) (n : ℕ) (name : Bytes)
      → Leads ref_path files (suc n) name name
      → (fuel m : ℕ) (current : Bytes) → Leads ref_path files m current name
      → follow ref_path files fuel current ≡ none
  unfolding follow
  follow_loops files n name loop zero m current l = refl
  follow_loops files n name loop (suc fuel) zero current l =
      let (t, e, rest) = loop in
      let next = follow_loops files n name loop fuel n t rest in ground arith
  follow_loops files n name loop (suc fuel) (suc m) current (t, e, rest) =
      let next = follow_loops files n name loop fuel m t rest in ground arith

  -- `Update` of a symbolic reference that leads back to itself never returns: no fuel is enough.
  pub update_loops :
      (calls : Calls) (files : Files) (n : ℕ) (name : Bytes) (id : BaseId)
      → Leads ref_path files (suc n) name name
      → (fuel : ℕ) → update ref_path calls fuel name id files ≡ none
  unfolding update
  update_loops calls files n name id loop fuel =
      let stuck = follow_loops files n name loop fuel zero name refl in ground arith
