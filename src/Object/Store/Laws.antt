-- ===== src/Object/Store/Laws.antt =====
-- pkg/object/store.go: integrity, immutability, and reading what was written.
use vara.Base.{
  ◌≡◌, refl, sym, ap, ◌∙◌, true, none, some, arith, Bytes, IsBytes, bytes_eq_iff, bytes_eq-false,
  bytes_eq_refl, lookup, insert, erase, lookup-insert, lookup-erase, ok, ◌⊎◌, Option-cases,
  Bool-cases, false, inl, inr, subst,
}
use vara.Hash.{BaseId, IsId}
use vara.Object.{Object, serialize, deserialize}
use vara.Object.Read.{IsWritable, deserialize-serialize}
use vara.Object.Canonical.{serialize-deserialize}
use vara.Object.Store.{Files, Calls, Codec, object_path, tmp_path, write_file, write, read}
use vara.Object.Store.Paths.{object_path-injective, tmp-ne-object}

-- What the documents of SHA-256 and zstd say.
pub record IsCodec (codec : Codec) : Type 0 where
  pub hash_id : (raw : Bytes) → IsId (codec.hash raw)
  pub round : (raw : Bytes) → IsBytes raw → codec.decompress (codec.compress raw) ≡ some raw
  pub bytes : (c raw : Bytes) → codec.decompress c ≡ some raw → IsBytes raw

module _ (codec : Codec) (c : IsCodec codec) where
  -- The content of an object file decompresses to bytes of that hash.
  abbrev pub Holds : BaseId → Bytes → Type 0
  Holds id content = (raw : Bytes) × (codec.decompress content ≡ some raw) × (codec.hash raw ≡ id)

  abbrev pub IsSound : Files → Type 0
  IsSound files =
      (id : BaseId) (content : Bytes)
      → IsId id
      → lookup (object_path id) files ≡ some content
      → Holds id content

  -- What `write_file` leaves at the path of an object.
  lookup-write_file :
      (calls : Calls) (id j : BaseId) (content : Bytes) (files : Files)
      → IsId id
      → IsId j
      → (lookup (object_path j) (write_file codec calls id content files).0
          ≡ lookup (object_path j) files)
        ⊎ (j ≡ id)
          × (lookup (object_path j) (write_file codec calls id content files).0 ≡ some content)
  unfolding write_file
  lookup-write_file calls id j content files hi hj =
      let tmp = tmp_path id in
      let target = object_path j in
      let other = bytes_eq-false tmp target (tmp-ne-object id j hi.0 hj.0) in
      let written = insert tmp content files in
      elim (Option-cases calls.torn) [
        | inl e ↦ ground (
          arith,
          other,
          lookup-insert tmp target content files,
          lookup-erase tmp target written,
          lookup-insert (object_path id) target content (erase tmp written),
          bytes_eq_iff (object_path id) target,
          object_path-injective id j hi hj,
        )
        | inr (left, e) ↦ ground (arith, other, lookup-insert tmp target left files)
      ]

  lookup-write :
      (calls : Calls) (o : Object) (files : Files) (j : BaseId)
      → IsId j
      → (lookup (object_path j) (write codec calls o files).0 ≡ lookup (object_path j) files)
        ⊎ (j ≡ codec.hash (serialize o))
          × ((lookup (object_path j) files ≡ none) ⊎ (calls.stat ≡ false))
          × (lookup (object_path j) (write codec calls o files).0
              ≡ some (codec.compress (serialize o)))
  unfolding write
  lookup-write calls o files j hj =
      let id = codec.hash (serialize o) in
      let put =
        lookup-write_file calls id j (codec.compress (serialize o)) files (c.hash_id _) hj in
      elim (Bool-cases calls.stat) [
        | inr unseen ↦ elim put [ inl same ↦ ground arith | inr (e', new) ↦ ground (arith, new) ]
        | inl seen ↦ elim (Option-cases (lookup (object_path id) files)) [
          | inr (old, e) ↦ ground arith
          | inl e ↦ elim put [
            | inl same ↦ ground arith
            | inr (e', new) ↦
                ground (arith, e, new, ap (λ (x : BaseId). lookup (object_path x) files) e')
          ]
        ]
      ]

  -- With a hash of 32 bytes, and whatever the calls of the operating system do, a `Write` leaves every
  -- object file that was there with its content, but for one: where `Stat` fails on the file of the written object itself,
  -- that file has the compressed bytes of this object afterwards, or its old content.
  pub write_keeps :
      (calls : Calls) (o : Object) (files : Files) (j : BaseId) (content : Bytes)
      → IsId j
      → lookup (object_path j) files ≡ some content
      → (lookup (object_path j) (write codec calls o files).0 ≡ some content)
        ⊎ (calls.stat ≡ false)
          × (j ≡ codec.hash (serialize o))
          × (lookup (object_path j) (write codec calls o files).0
              ≡ some (codec.compress (serialize o)))
  write_keeps calls o files j content hj h = elim (lookup-write calls o files j hj) [
    | inl same ↦ inl (same ∙ h)
    | inr (e, inl gone, new) ↦ absurd (cc (h, gone))
    | inr (e, inr unseen, new) ↦ inr (unseen, e, new)
  ]

  -- The same where `Stat` does not fail.
  pub write_keeps_seen :
      (calls : Calls) (o : Object) (files : Files) (j : BaseId) (content : Bytes)
      → calls.stat ≡ true
      → IsId j
      → lookup (object_path j) files ≡ some content
      → lookup (object_path j) (write codec calls o files).0 ≡ some content
  write_keeps_seen calls o files j content seen hj h =
      elim (write_keeps calls o files j content hj h) [
        | inl kept ↦ kept
        | inr (unseen, _, _) ↦ absurd (cc (seen, unseen))
      ]

  -- Whatever the calls do, a `Write` keeps the store sound.
  pub write-IsSound :
      (calls : Calls) (o : Object) (files : Files)
      → IsBytes (serialize o)
      → IsSound files
      → (j : BaseId) (content : Bytes) → IsId j
      → lookup (object_path j) (write codec calls o files).0 ≡ some content
      → Holds j content
  write-IsSound calls o files b sound j content hj h = elim (lookup-write calls o files j hj) [
    | inl same ↦ sound j content hj (ground arith)
    | inr (e, _, new) ↦ (serialize o, ground (arith, c.round (serialize o) b), sym e)
  ]

  -- A read object is the one that its identifier names: the hash of its bytes is the identifier.
  pub read-eq-ok :
      (files : Files) (id : BaseId) (o : Object)
      → read codec files id ≡ ok o
      → codec.hash (serialize o) ≡ id
  unfolding read
  read-eq-ok files id o h = elim (Option-cases (lookup (object_path id) files)) [
    | inl e ↦ ground arith
    | inr (content, e) ↦ elim (Option-cases (codec.decompress content)) [
      | inl e' ↦ ground arith
      | inr (raw, e') ↦ ground (
        arith,
        bytes_eq_iff (codec.hash raw) id,
        serialize-deserialize raw o (c.bytes content raw e'),
      )
    ]
  ]

  read-Holds :
      (files : Files) (id : BaseId) (content : Bytes) (o : Object)
      → lookup (object_path id) files ≡ some content
      → codec.decompress content ≡ some (serialize o)
      → codec.hash (serialize o) ≡ id
      → deserialize (serialize o) ≡ ok o
      → read codec files id ≡ ok o
  unfolding read
  read-Holds files id content o h d e w =
      ground (arith, w, bytes_eq_iff (codec.hash (serialize o)) id)

  -- What a successful read says of the file and of the object.
  pub read_inv :
      (files : Files) (id : BaseId) (o : Object)
      → read codec files id ≡ ok o
      → (content : Bytes) × (lookup (object_path id) files ≡ some content)
        × IsBytes (serialize o)
        × (deserialize (serialize o) ≡ ok o)
        × (codec.decompress content ≡ some (serialize o))
  unfolding read
  read_inv files id o h = elim (Option-cases (lookup (object_path id) files)) [
    | inl e ↦ absurd (ground arith)
    | inr (content, e) ↦ elim (Option-cases (codec.decompress content)) [
      | inl e' ↦ absurd (ground arith)
      | inr (raw, e') ↦
          let parsed : deserialize raw ≡ ok o = ground arith in
          let same : serialize o ≡ raw =
            serialize-deserialize raw o (c.bytes content raw e') parsed in
          (
            content,
            e,
            subst IsBytes (sym same) (c.bytes content raw e'),
            rw same parsed,
            rw same e',
          )
    ]
  ]

  -- An object file that is kept is read as before.
  pub read-kept :
      (files files' : Files) (id : BaseId) (o : Object)
      → ((content : Bytes)
          → lookup (object_path id) files ≡ some content
          → lookup (object_path id) files' ≡ some content)
      → read codec files id ≡ ok o
      → read codec files' id ≡ ok o
  read-kept files files' id o kept h =
      let (content, e, b, d, unpacked) = read_inv files id o h in
      read-Holds files' id content o (kept content e) unpacked (read-eq-ok files id o h) d

  -- In a sound store, an object that its bytes are read as, and whose bytes no other bytes collide
  -- with, is read back after a `Write` whose calls succeed, whether or not its file was there.
  pub read-write_readable :
      (calls : Calls) (o : Object) (files : Files)
      → deserialize (serialize o) ≡ ok o
      → IsBytes (serialize o)
      → IsSound files
      → ((raw : Bytes) → codec.hash raw ≡ codec.hash (serialize o) → raw ≡ serialize o)
      → calls.mkdir ≡ true
      → calls.torn ≡ none
      → calls.rename ≡ true
      → read codec (write codec calls o files).0 (codec.hash (serialize o)) ≡ ok o
  read-write_readable calls o files w b sound unique m t r =
      let id = codec.hash (serialize o) in
      elim (Option-cases (lookup (object_path id) files)) [
        | inr (content, e) ↦
            let (raw, d, same) = sound id content (c.hash_id _) e in
            elim (write_keeps calls o files id content (c.hash_id _) e) [
              | inl kept ↦
                  read-Holds (write codec calls o files).0 id content o kept
                    (d ∙ ap (λ (x : Bytes). some x) (unique raw same)) refl w
              | inr (_, _, new) ↦
                  read-Holds (write codec calls o files).0 id (codec.compress (serialize o)) o new
                    (c.round (serialize o) b) refl w
            ]
        | inl e ↦
            read-Holds (write codec calls o files).0 id (codec.compress (serialize o)) o
              (unfold write write_file in
                ground (
                  arith,
                  lookup-insert (object_path id) (object_path id) (codec.compress (serialize o)) (
                      erase (tmp_path id)
                        (insert (tmp_path id) (codec.compress (serialize o)) files)),
                  bytes_eq_refl (object_path id),
                ))
              (c.round (serialize o) b) refl w
      ]

  -- In a sound store, an object whose bytes no other bytes collide with is read back after a
  -- `Write` whose calls succeed, whether or not its file was there before.
  pub read-write :
      (calls : Calls) (o : Object) (files : Files)
      → IsWritable o
      → IsBytes (serialize o)
      → IsSound files
      → ((raw : Bytes) → codec.hash raw ≡ codec.hash (serialize o) → raw ≡ serialize o)
      → calls.mkdir ≡ true
      → calls.torn ≡ none
      → calls.rename ≡ true
      → read codec (write codec calls o files).0 (codec.hash (serialize o)) ≡ ok o
  read-write calls o files w = read-write_readable calls o files (deserialize-serialize o w)
