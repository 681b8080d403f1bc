-- ===== src/Object/Canonical.antt =====
-- pkg/object: the bytes of an object are the only ones from which it is read.
use mathlib.Core.List.{append_assoc}
use vara.Base.{
  ℕ, zero, suc, ◌≡◌, sym, ◌∙◌, some, List, [], ◌∷◌, ◌++◌, arith, Bytes, IsBytes, bytes_eq_iff,
  length, take-append-drop, u32_bytes, u64_bytes, read_u32, read_u64, ok, subst, Option-cases,
  Result-cases, inl, inr, ap₂,
}
use vara.Hash.{BaseId}
use vara.Object.{
  ObjectType, type_blob, type_tree, type_commit, type_name, type_of, write_header, TreeEntry,
  Object, entries_bytes, ids_bytes, payload, serialize, read_until_nul, known_type, read_header,
  read_id, read_entry, read_entries, read_ids, deserialize_tree, deserialize_commit,
  deserialize_payload, deserialize,
}

pub IsBytes-suffix : (xs ys : Bytes) → IsBytes (xs ++ ys) → IsBytes ys
IsBytes-suffix [] ys h = h
IsBytes-suffix (x ∷ xs) ys h = IsBytes-suffix xs ys h.1

pub u32-read :
    (r : Bytes) (x : ℕ) (rest : Bytes)
    → IsBytes r
    → read_u32 r ≡ some (x, rest)
    → r ≡ u32_bytes x ++ rest
unfolding read_u32 u32_bytes
u32-read [] x rest b h = cc h
u32-read (p ∷ []) x rest b h = cc h
u32-read (p ∷ q ∷ []) x rest b h = cc h
u32-read (p ∷ q ∷ s ∷ []) x rest b h = cc h
u32-read (p ∷ q ∷ s ∷ t ∷ r) x rest b h = ground (arith)

pub u64-read :
    (r : Bytes) (x : ℕ) (rest : Bytes)
    → IsBytes r
    → read_u64 r ≡ some (x, rest)
    → r ≡ u64_bytes x ++ rest
unfolding read_u64 u64_bytes u32_bytes
u64-read [] x rest b h = cc h
u64-read (p ∷ []) x rest b h = cc h
u64-read (p ∷ q ∷ []) x rest b h = cc h
u64-read (p ∷ q ∷ s ∷ []) x rest b h = cc h
u64-read (p ∷ q ∷ s ∷ t ∷ []) x rest b h = cc h
u64-read (p ∷ q ∷ s ∷ t ∷ p' ∷ []) x rest b h = cc h
u64-read (p ∷ q ∷ s ∷ t ∷ p' ∷ q' ∷ []) x rest b h = cc h
u64-read (p ∷ q ∷ s ∷ t ∷ p' ∷ q' ∷ s' ∷ []) x rest b h = cc h
u64-read (p ∷ q ∷ s ∷ t ∷ p' ∷ q' ∷ s' ∷ t' ∷ r) x rest b h = ground arith

pub id-read : (r : Bytes) (id rest : Bytes) → read_id r ≡ some (id, rest) → r ≡ id ++ rest
unfolding read_id
id-read r id rest h = ground (arith, take-append-drop 32 r)

pub until_nul-read : (r s rest : Bytes) → read_until_nul r ≡ some (s, rest) → r ≡ s ++ 0 ∷ rest
unfolding read_until_nul
until_nul-read [] s rest h = cc h
until_nul-read (b ∷ r) s rest h = elim (Option-cases (read_until_nul r)) [
  | inl e ↦ ground arith
  | inr ((s', rest'), e) ↦ ground (arith, until_nul-read r s' rest' e)
]

ids-read :
    (n : ℕ) (r : Bytes) (ps : List BaseId) (rest : Bytes)
    → read_ids n r ≡ some (ps, rest)
    → (r ≡ ids_bytes ps ++ rest) × (length ps ≡ n)
unfolding read_ids ids_bytes
ids-read zero r ps rest h = ground arith
ids-read (suc n) r ps rest h = elim (Option-cases (read_id r)) [
  | inl e ↦ ground arith
  | inr ((p, r₁), e) ↦ elim (Option-cases (read_ids n r₁)) [
    | inl e' ↦ ground arith
    | inr ((ps', r₂), e') ↦
        ground (arith, id-read r p r₁ e, ids-read n r₁ ps' r₂ e', append_assoc p (ids_bytes ps') r₂)
  ]
]

-- The parts of a read entry are the bytes that were taken, in order.
entry-read :
    (r : Bytes) (e : TreeEntry) (rest : Bytes)
    → IsBytes r
    → read_entry r ≡ ok (e, rest)
    → r ≡ u32_bytes e.mode ++ (e.hash ++ (e.name ++ 0 ∷ rest))
unfolding read_entry
entry-read r e rest b h = elim (Option-cases (read_u32 r)) [
  | inl q ↦ ground arith
  | inr ((m, r₁), q) ↦ elim (Option-cases (read_id r₁)) [
    | inl q' ↦ ground arith
    | inr ((i, r₂), q') ↦ elim (Option-cases (read_until_nul r₂)) [
      | inl q'' ↦ ground arith
      | inr ((n, r₃), q'') ↦
          ground (arith, u32-read r m r₁ b q, id-read r₁ i r₂ q', until_nul-read r₂ n r₃ q'')
    ]
  ]
]

rest-IsBytes :
    (r : Bytes) (e : TreeEntry) (rest : Bytes)
    → IsBytes r
    → read_entry r ≡ ok (e, rest)
    → IsBytes rest
rest-IsBytes r e rest b h =
    let whole = subst IsBytes (entry-read r e rest b h) b in
    (IsBytes-suffix e.name (0 ∷ rest)
      (IsBytes-suffix e.hash (e.name ++ 0 ∷ rest) (IsBytes-suffix (u32_bytes e.mode) _ whole))).1

entries-read :
    (fuel : ℕ) (r : Bytes) (es : List TreeEntry)
    → IsBytes r
    → read_entries fuel r ≡ ok es
    → r ≡ entries_bytes es
unfolding read_entries entries_bytes
entries-read fuel [] es b h = ground arith
entries-read zero (x ∷ r) es b h = cc h
entries-read (suc fuel) (x ∷ r) es b h = elim (Result-cases (read_entry (x ∷ r))) [
  | inr (_, q) ↦ ground arith
  | inl ((e, r'), q) ↦ elim (Result-cases (read_entries fuel r')) [
    | inr (_, q') ↦ ground arith
    | inl (es', q') ↦ ground (
      arith,
      entry-read (x ∷ r) e r' b q,
      entries-read fuel r' es' (rest-IsBytes (x ∷ r) e r' b q) q',
    )
  ]
]

commit-read :
    (r : Bytes) (o : Object)
    → IsBytes r
    → deserialize_commit r ≡ ok o
    → (type_of o ≡ type_commit) × (r ≡ payload o)
unfolding deserialize_commit payload
commit-read r o b h = elim (Option-cases (read_id r)) [
  | inl q ↦ ground arith
  | inr ((t, r₁), q) ↦ elim (Option-cases (read_u32 r₁)) [
    | inl q₁ ↦ ground arith
    | inr ((n, r₂), q₁) ↦ elim (Option-cases (read_ids n r₂)) [
      | inl q₂ ↦ ground arith
      | inr ((ps, r₃), q₂) ↦ elim (Option-cases (read_u64 r₃)) [
        | inl q₃ ↦ ground arith
        | inr ((ts, r₄), q₃) ↦ elim (Option-cases (read_until_nul r₄)) [
          | inl q₄ ↦ ground arith
          | inr ((a, m), q₄) ↦
              let s₁ = id-read r t r₁ q in
              let b₁ = IsBytes-suffix t r₁ (subst IsBytes s₁ b) in
              let s₂ = u32-read r₁ n r₂ b₁ q₁ in
              let b₂ = IsBytes-suffix (u32_bytes n) r₂ (subst IsBytes s₂ b₁) in
              let s₃ = ids-read n r₂ ps r₃ q₂ in
              let b₃ = IsBytes-suffix (ids_bytes ps) r₃ (subst IsBytes s₃.0 b₂) in
              let s₄ = u64-read r₃ ts r₄ b₃ q₃ in
              ground (arith, s₁, s₂, s₃.0, s₃.1, s₄, until_nul-read r₄ a m q₄)
        ]
      ]
    ]
  ]
]

payload-read :
    (t : ObjectType) (r : Bytes) (o : Object)
    → IsBytes r
    → deserialize_payload t r ≡ ok o
    → (type_of o ≡ t) × (r ≡ payload o)
payload-read type_blob r o b h = unfold payload in ground arith
payload-read type_tree r o b h = elim (Result-cases (read_entries (length r) r)) [
  | inl (es, q) ↦
      unfold payload deserialize_tree in ground (arith, entries-read (length r) r es b q)
  | inr (_, q) ↦ unfold deserialize_tree in ground arith
]
payload-read type_commit r o b h = commit-read r o b h

header-read :
    (raw : Bytes) (t : ObjectType) (r : Bytes)
    → read_header raw ≡ ok (t, r)
    → raw ≡ write_header t ++ r
unfolding read_header known_type
header-read raw t r h = elim (Option-cases (read_until_nul raw)) [
  | inl q ↦ ground arith
  | inr ((n, r'), q) ↦ ground (
    arith,
    until_nul-read raw n r' q,
    bytes_eq_iff n (type_name type_blob),
    bytes_eq_iff n (type_name type_tree),
    bytes_eq_iff n (type_name type_commit),
  )
]

-- If bytes are read as an object, writing the object gives the same bytes: so an object has one
-- serialized form, and a hash of it is a hash of the object.
pub serialize-deserialize :
    (raw : Bytes) (o : Object) → IsBytes raw → deserialize raw ≡ ok o → serialize o ≡ raw
unfolding serialize deserialize
serialize-deserialize raw o b h = elim (Result-cases (read_header raw)) [
  | inr (_, q) ↦ ground arith
  | inl ((t, r), q) ↦
      let s = header-read raw t r q in
      let b' = IsBytes-suffix (write_header t) r (subst IsBytes s b) in
      let (same, rest) = payload-read t r o b' (ground arith) in
      sym (s ∙ ap₂ (λ (k : ObjectType) (p : Bytes). write_header k ++ p) (sym same) rest)
]
