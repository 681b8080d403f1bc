-- ===== src/Transfer/Pack/Keeps.antt =====
-- pkg/transfer/pack.go: what `ReadPack` does to a store, whatever bytes it is given.
use vara.Base.{
  true, ℕ, zero, suc, ◌+◌, ◌-◌, ◌≡◌, refl, sym, Option, none, some, ltb, subst, Bytes, IsBytes,
  bytes_eq, take, drop, read_u32, lookup, length, Bool-cases, Error, Result, ok, err, inl, inr, ◌∷◌,
  [],
}
use vara.Hash.{BaseId, IsId}
use vara.Object.{Object, serialize, deserialize}
use vara.Object.Canonical.{serialize-deserialize}
use vara.Object.Store.{Files, Calls, Codec, object_path, write}
use vara.Object.Store.Laws.{IsCodec, IsSound, write_keeps_seen, write-IsSound}
use vara.Transfer.Pack.{
  PackResult, Read, after_write, read_object, read_raw, read_record, read_records, read_counted,
  read_body, read_pack, pack_magic, pack_version,
}
use vara.Transfer.Pack.Varint.{read_uvarint}

module _ (codec : Codec) (c : IsCodec codec) where
  -- Every object file keeps its content, and a sound store stays sound.
  pub record Kept (files files' : Files) : Type 0 where
    pub kept :
        (j : BaseId) (content : Bytes)
        → IsId j
        → lookup (object_path j) files ≡ some content
        → lookup (object_path j) files' ≡ some content
    pub sound : IsSound codec c files → IsSound codec c files'

  pub Kept-refl : (files : Files) → Kept files files
  Kept-refl files = record { kept = λ j content hj h. h; sound = λ s. s }

  pub Kept-trans : {f g h : Files} → Kept f g → Kept g h → Kept f h
  Kept-trans a b = record {
    kept = λ j content hj e. b.kept j content hj (a.kept j content hj e);
    sound = λ s. b.sound (a.sound s);
  }

  pub write-Kept :
      (calls : Calls) (o : Object) (files : Files)
      → calls.stat ≡ true
      → IsBytes (serialize o)
      → Kept files (write codec calls o files).0
  write-Kept calls o files seen b = record {
    kept = λ j content hj h. write_keeps_seen codec c calls o files j content seen hj h;
    sound = λ s. write-IsSound codec c calls o files b s;
  }

  module _ (max_len : ℕ) (calls : ℕ → Calls) (seen : (n : ℕ) → (calls n).stat ≡ true) where
    -- A run that leaves the store so.
    abbrev Keeps : Files → Option (Read codec) → Type 0
    Keeps files run = (out : Read codec) → run ≡ some out → Kept files out.0

    stop-Keeps :
        (files : Files) (res : PackResult) (e : Option Error) → Keeps files (some (files, res, e))
    stop-Keeps files res e out h =
        let same : files ≡ out.0 = cc h in subst (Kept files) same (Kept-refl files)

    after_write-Keeps :
        (files : Files) (res : PackResult) (rest : Files → PackResult → Option (Read codec))
        (w : Files × BaseId × Option Error)
        → Kept files w.0
        → ((m : Files) (r : PackResult) → Keeps m (rest m r))
        → Keeps files (after_write codec max_len calls res rest w)
    after_write-Keeps files res rest (m, id, some x) k h out e =
        let same : m ≡ out.0 = cc e in subst (Kept files) same k
    after_write-Keeps files res rest (m, id, none) k h out e = Kept-trans k (h m _ out e)

    read_raw-Keeps :
        (files : Files) (res : PackResult) (rest : Files → PackResult → Option (Read codec))
        (content : Bytes) (unpacked : Option Bytes)
        → codec.decompress content ≡ unpacked
        → ((m : Files) (r : PackResult) → Keeps m (rest m r))
        → Keeps files (read_raw codec max_len calls res files rest unpacked)
    read_raw-Keeps files res rest content none u h = stop-Keeps files res _
    read_raw-Keeps files res rest content (some raw) u h = go (deserialize raw) refl
      where
        go :
            (parsed : Result Object)
            → deserialize raw ≡ parsed
            → Keeps files (read_object codec max_len calls res files rest parsed)
        go (err x) e = stop-Keeps files res _
        go (ok obj) e =
            let b = c.bytes content raw u in
            let same : serialize obj ≡ raw = serialize-deserialize raw obj b e in
            after_write-Keeps files _ rest (write codec (calls res.objects_read) obj files)
              (write-Kept (calls res.objects_read) obj files (seen res.objects_read)
                (subst IsBytes (sym same) b))
              h

    read_record-Keeps :
        (files : Files) (res : PackResult) (rest : Bytes → Files → PackResult → Option (Read codec))
        (framed : Option (ℕ × Bytes))
        → ((buf : Bytes) (m : Files) (r : PackResult) → Keeps m (rest buf m r))
        → Keeps files (read_record codec max_len calls res files rest framed)
    unfolding read_record
    read_record-Keeps files res rest none h = stop-Keeps files res _
    read_record-Keeps files res rest (some (clen, buf)) h = elim (Bool-cases (ltb max_len clen)) [
      | inl long ↦ rw long (λ out e. cc e)
      | inr fits ↦ elim (Bool-cases (ltb (length buf) clen)) [
        | inl short ↦ rw (fits, short) (stop-Keeps files res _)
        | inr whole ↦
            rw (fits, whole)
              (read_raw-Keeps files res (rest (drop clen buf)) (take clen buf) _ refl
                (h (drop clen buf)))
      ]
    ]

    read_records-Keeps :
        (count : ℕ) (buf : Bytes) (files : Files) (res : PackResult)
        → Keeps files (read_records codec max_len calls count buf files res)
    unfolding read_records
    read_records-Keeps zero buf files res = stop-Keeps files res _
    read_records-Keeps (suc count) buf files res =
        read_record-Keeps files res (λ buf' m r. read_records codec max_len calls count buf' m r)
          (read_uvarint buf) (λ buf' m r. read_records-Keeps count buf' m r)

    read_counted-Keeps :
        (files : Files) (res : PackResult) (counted : Option (ℕ × Bytes))
        → Keeps files (read_counted codec max_len calls files res counted)
    read_counted-Keeps files res none = stop-Keeps files res _
    read_counted-Keeps files res (some (count, buf)) = read_records-Keeps count buf files res

    read_body-Keeps :
        (body : Bytes) (files : Files) (res : PackResult)
        → Keeps files (read_body codec max_len calls body files res)
    unfolding read_body
    read_body-Keeps body files res = elim (Bool-cases (bytes_eq (take 4 body) pack_magic)) [
      | inr bad ↦ rw bad (stop-Keeps files res _)
      | inl magic ↦ elim (Bool-cases (bytes_eq (take 1 (drop 4 body)) (pack_version ∷ []))) [
        | inr bad ↦ rw (magic, bad) (stop-Keeps files res _)
        | inl v ↦ rw (magic, v) (read_counted-Keeps files res (read_u32 (drop 5 body)))
      ]
    ]

    read_pack-Keeps :
        (all : Bytes) (files : Files) → Keeps files (read_pack codec max_len calls all files)
    unfolding read_pack
    read_pack-Keeps all files =
        let body = take (length all - 32) all in
        let trailer = drop (length all - 32) all in
        elim (Bool-cases (ltb (length all) (9 + 32))) [
          | inl short ↦ rw short (stop-Keeps files _ _)
          | inr whole ↦ elim (Bool-cases (bytes_eq (codec.hash body) trailer)) [
            | inr bad ↦ rw (whole, bad) (stop-Keeps files _ _)
            | inl sealed ↦ rw (whole, sealed) (read_body-Keeps body files _)
          ]
        ]

    -- With a hash of 32 bytes, and a compression that gives back what it was given: whatever bytes it
    -- is given, and whatever the calls of the operating system do, but for a `Stat` that fails on an
    -- object file that is there, a `ReadPack` into a sound store, if it returns, has
    -- left every object file with its content, and the store sound.
    pub read_pack_keeps :
        (all : Bytes) (files : Files) (out : Read codec)
        → read_pack codec max_len calls all files ≡ some out
        → IsSound codec c files
        → IsSound codec c out.0
          × ((j : BaseId) (content : Bytes)
              → IsId j
              → lookup (object_path j) files ≡ some content
              → lookup (object_path j) out.0 ≡ some content)
    read_pack_keeps all files out h s =
        let k = read_pack-Keeps all files out h in (k.sound s, k.kept)
