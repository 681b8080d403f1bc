-- ===== src/Index/Codec.antt =====
-- pkg/index/index.go: what is read from the bytes of an index.
use mathlib.Core.List.{append_assoc}
use vara.Base.{
  ℕ, zero, suc, ◌^◌, ◌<◌, ◌≡◌, refl, sym, ◌∙◌, ap, List, [], ◌∷◌, ◌++◌, arith, ◌==◌, Bytes, IsBytes,
  bytes_eq, bytes_eq_iff, take, drop, take-append-drop, length, u32_bytes, u64_bytes, read_u32,
  read_u64, read-u32, read-u64, ok, subst, Option-cases, Result-cases, Bool-cases, List-cases, inl,
  inr,
}
use vara.Object.{read_id, read_until_nul}
use vara.Object.Read.{HasNoNul, read_id-append, read_until_nul-append}
use vara.Object.Canonical.{u32-read, u64-read, id-read, until_nul-read, IsBytes-suffix}
use vara.Index.{
  Entry, signature, version, entry_bytes, entries_bytes, serialize, read_byte, read_entry,
  read_entries, deserialize,
}

-- What Go's types give, and a path without the terminator.
abbrev pub AreEntries : List Entry → Type 0
AreEntries [] = Unit {0}
AreEntries (e ∷ es) =
    (e.fingerprint < 2 ^ 64)
    × (length e.object_id ≡ 32)
    × (e.state < 256)
    × HasNoNul e.path
    × AreEntries es

read-entry :
    (e : Entry) (rest : Bytes)
    → e.fingerprint < 2 ^ 64
    → length e.object_id ≡ 32
    → HasNoNul e.path
    → read_entry (entry_bytes e rest) ≡ ok (e, rest)
unfolding read_entry entry_bytes read_byte
read-entry e rest hf hi hp = ground (
  arith,
  read-u64 e.fingerprint (e.object_id ++ e.state ∷ (e.path ++ 0 ∷ rest)) hf,
  read_id-append e.object_id (e.state ∷ (e.path ++ 0 ∷ rest)) hi,
  read_until_nul-append e.path rest hp,
)

abbrev entries_then : List Entry → Bytes → Bytes
entries_then [] rest = rest
entries_then (e ∷ es) rest = entry_bytes e (entries_then es rest)

entry_bytes-append :
    (e : Entry) (more rest : Bytes) → entry_bytes e more ++ rest ≡ entry_bytes e (more ++ rest)
unfolding entry_bytes
entry_bytes-append e more rest = ground (
  arith,
  append_assoc (u64_bytes e.fingerprint) (e.object_id ++ e.state ∷ (e.path ++ 0 ∷ more)) rest,
  append_assoc e.object_id (e.state ∷ (e.path ++ 0 ∷ more)) rest,
  append_assoc e.path (0 ∷ more) rest,
)

entries_bytes-append :
    (es : List Entry) (rest : Bytes) → entries_bytes es ++ rest ≡ entries_then es rest
unfolding entries_bytes
entries_bytes-append [] rest = refl
entries_bytes-append (e ∷ es) rest =
    entry_bytes-append e (entries_bytes es) rest ∙ ap (entry_bytes e) (entries_bytes-append es rest)

read-entries :
    (es : List Entry) (rest : Bytes)
    → AreEntries es
    → read_entries (length es) (entries_then es rest) ≡ ok (es, rest)
unfolding read_entries
read-entries [] rest h = refl
read-entries (e ∷ es) rest h =
    ground (arith, read-entry e (entries_then es rest) h.0 h.1 h.3, read-entries es rest h.4)

-- Entries as Go's types allow, fewer than 2 ^ 32, with no NUL in a path, are read back from their
-- bytes, whatever bytes stand behind these.
pub deserialize-serialize_append :
    (es : List Entry) (rest : Bytes)
    → AreEntries es
    → length es < 2 ^ 32
    → deserialize (serialize es ++ rest) ≡ ok es
unfolding deserialize serialize bytes_eq
deserialize-serialize_append es rest h lt = ground (
  arith,
  append_assoc (u32_bytes version) (u32_bytes (length es) ++ entries_bytes es) rest,
  append_assoc (u32_bytes (length es)) (entries_bytes es) rest,
  entries_bytes-append es rest,
  read-u32 version (u32_bytes (length es) ++ entries_then es rest),
  read-u32 (length es) (entries_then es rest) lt,
  read-entries es rest h,
)

entry-read :
    (r : Bytes) (e : Entry) (rest : Bytes)
    → IsBytes r
    → read_entry r ≡ ok (e, rest)
    → r ≡ entry_bytes e rest
unfolding read_entry entry_bytes read_byte
entry-read r e rest b h = elim (Option-cases (read_u64 r)) [
  | inl q ↦ ground arith
  | inr ((f, r₁), q) ↦ elim (Option-cases (read_id r₁)) [
    | inl q' ↦ ground arith
    | inr ((i, r₂), q') ↦ elim (List-cases r₂) [
      | inl q₂ ↦ ground arith
      | inr (s, r₃, q₂) ↦ elim (Option-cases (read_until_nul r₃)) [
        | inl q'' ↦ ground arith
        | inr ((n, r₄), q'') ↦
            ground (arith, u64-read r f r₁ b q, id-read r₁ i r₂ q', until_nul-read r₃ n r₄ q'')
      ]
    ]
  ]
]

rest-IsBytes :
    (r : Bytes) (e : Entry) (rest : Bytes) → IsBytes r → read_entry r ≡ ok (e, rest) → IsBytes rest
rest-IsBytes r e rest b h =
    let whole = subst IsBytes (entry-read r e rest b h) b in
    (IsBytes-suffix e.path (0 ∷ rest)
      (IsBytes-suffix e.object_id (e.state ∷ (e.path ++ 0 ∷ rest))
        (IsBytes-suffix (u64_bytes e.fingerprint) _ (unfold entry_bytes in whole))).1).1

entries-read :
    (n : ℕ) (r : Bytes) (es : List Entry) (rest : Bytes)
    → IsBytes r
    → read_entries n r ≡ ok (es, rest)
    → (r ≡ entries_then es rest) × (length es ≡ n)
unfolding read_entries
entries-read zero r es rest b h = ground arith
entries-read (suc n) r es rest b h = elim (Result-cases (read_entry r)) [
  | inr (_, q) ↦ absurd (ground arith)
  | inl ((e, r'), q) ↦ elim (Result-cases (read_entries n r')) [
    | inr (_, q') ↦ absurd (ground arith)
    | inl ((es', rest'), q') ↦
        ground
          (arith, entry-read r e r' b q, entries-read n r' es' rest' (rest-IsBytes r e r' b q) q')
  ]
]

serialize_parts :
    (raw : Bytes) (es' es : List Entry) (rest : Bytes) (v n : ℕ) (r₁ r₂ : Bytes)
    → es' ≡ es
    → v ≡ version
    → take 4 raw ≡ signature
    → raw ≡ take 4 raw ++ drop 4 raw
    → drop 4 raw ≡ u32_bytes v ++ r₁
    → r₁ ≡ u32_bytes n ++ r₂
    → r₂ ≡ entries_then es' rest
    → length es' ≡ n
    → raw ≡ serialize es ++ rest
unfolding serialize
serialize_parts raw es' es rest v n r₁ r₂ same one s₀ whole s₁ s₂ s₃ count = ground (
  arith,
  append_assoc (u32_bytes version) (u32_bytes (length es) ++ entries_bytes es) rest,
  append_assoc (u32_bytes (length es)) (entries_bytes es) rest,
  entries_bytes-append es rest,
)

-- If bytes (values below 256) are read as an index, they are the bytes of that index, with any
-- bytes behind them.
pub serialize-deserialize_append :
    (raw : Bytes) (es : List Entry)
    → IsBytes raw
    → deserialize raw ≡ ok es
    → (rest : Bytes) × (raw ≡ serialize es ++ rest)
unfolding deserialize serialize
serialize-deserialize_append raw es b h = elim (Bool-cases (bytes_eq (take 4 raw) signature)) [
  | inr q ↦ absurd (ground arith)
  | inl q ↦ elim (Option-cases (read_u32 (drop 4 raw))) [
    | inl q₁ ↦ absurd (ground arith)
    | inr ((v, r₁), q₁) ↦ elim (Bool-cases (v == version)) [
      | inr q₂ ↦ absurd (ground arith)
      | inl q₂ ↦ elim (Option-cases (read_u32 r₁)) [
        | inl q₃ ↦ absurd (ground arith)
        | inr ((n, r₂), q₃) ↦ elim (Result-cases (read_entries n r₂)) [
          | inr (_, q₄) ↦ absurd (ground arith)
          | inl ((es', rest), q₄) ↦
              let s₀ = (bytes_eq_iff (take 4 raw) signature).0 q in
              let whole = sym (take-append-drop 4 raw) in
              let b₀ = IsBytes-suffix (take 4 raw) (drop 4 raw) (subst IsBytes whole b) in
              let s₁ = u32-read (drop 4 raw) v r₁ b₀ q₁ in
              let b₁ = IsBytes-suffix (u32_bytes v) r₁ (subst IsBytes s₁ b₀) in
              let s₂ = u32-read r₁ n r₂ b₁ q₃ in
              let b₂ = IsBytes-suffix (u32_bytes n) r₂ (subst IsBytes s₂ b₁) in
              let s₃ = entries-read n r₂ es' rest b₂ q₄ in
              let same : es' ≡ es = ground arith in
              let one : v ≡ version = ground arith in
              (rest, serialize_parts raw es' es rest v n r₁ r₂ same one s₀ whole s₁ s₂ s₃.0 s₃.1)
        ]
      ]
    ]
  ]
]
