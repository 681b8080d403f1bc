-- ===== src/Transfer/Pack/RoundTrip.antt =====
-- pkg/transfer/pack.go: `ReadPack` of what `WritePack` wrote.
use vara.Base.{
  ℕ, suc, ◌+◌, ◌-◌, ◌^◌, ◌≤◌, ◌<◌, ◌≡◌, refl, sym, ap, ◌∙◌, true, false, Option, none, some, List,
  [], ◌∷◌, ◌++◌, arith, ltb, subst, Bytes, IsBytes, bytes_eq, bytes_eq_refl, length, length-append,
  take-length_append, drop-length_append, Member, length-u32_bytes, read-u32, ok, ok-injective, inl,
  inr, Result-cases,
}
use mathlib.Core.List.{append_assoc}
use vara.Hash.{BaseId, IsId}
use vara.Object.{Object, serialize, deserialize}
use vara.Object.Store.{Files, Calls, Codec, read, write, write_file}
use vara.Object.Store.Laws.{IsCodec, IsSound, read_inv, read-kept, read-eq-ok, read-write_readable}
use vara.Transfer.Pack.{
  PackResult, Read, pack_record, pack_records, pack_header, write_pack, read_record, read_records,
  read_counted, read_body, read_pack,
}
use vara.Transfer.Pack.Varint.{put_uvarint, read_uvarint, read_uvarint-put_uvarint}
use vara.Transfer.Pack.Keeps.{Kept, Kept-refl, Kept-trans, write-Kept}

module _ (codec : Codec) (c : IsCodec codec) (max_len : ℕ) (calls : ℕ → Calls) where
  -- A round on the record of a packed object.
  read_record-packed :
      (o : Object) (rest : Bytes) (files : Files) (res : PackResult)
      (next : Bytes → Files → PackResult → Option (Read codec))
      → IsBytes (serialize o)
      → deserialize (serialize o) ≡ ok o
      → length (codec.compress (serialize o)) ≤ max_len
      → (write codec (calls res.objects_read) o files).2 ≡ none
      → read_record codec max_len calls res files next
          (some (length (codec.compress (serialize o)), codec.compress (serialize o) ++ rest))
        ≡ next rest (write codec (calls res.objects_read) o files).0 (record {
          objects_read = res.objects_read + 1;
          objects_written = res.objects_written + 1;
        })
  unfolding read_record
  read_record-packed o rest files res next b parsed fits done =
      let z = codec.compress (serialize o) in
      let long : ltb max_len (length z) ≡ false = ground arith in
      let short : ltb (length (z ++ rest)) (length z) ≡ false =
        ground (arith, length-append z rest) in
      rw
        (
          long,
          short,
          take-length_append z rest,
          drop-length_append z rest,
          c.round (serialize o) b,
          parsed,
          done,
        )
        refl

  read_records-packed :
      (o : Object) (count : ℕ) (rest : Bytes) (files : Files) (res : PackResult)
      → IsBytes (serialize o)
      → deserialize (serialize o) ≡ ok o
      → length (codec.compress (serialize o)) ≤ max_len
      → max_len < 2 ^ 64
      → (write codec (calls res.objects_read) o files).2 ≡ none
      → read_records codec max_len calls (suc count) (pack_record codec o ++ rest) files res
        ≡ read_records codec max_len calls count rest
            (write codec (calls res.objects_read) o files).0
            (record {
              objects_read = res.objects_read + 1;
              objects_written = res.objects_written + 1;
            })
  unfolding read_records pack_record
  read_records-packed o count rest files res b parsed fits wide done =
      let z = codec.compress (serialize o) in
      let framed : read_uvarint ((put_uvarint (length z) ++ z) ++ rest)
          ≡ some (length z, z ++ rest) =
        ap read_uvarint (append_assoc (put_uvarint (length z)) z rest)
        ∙ read_uvarint-put_uvarint (length z) (z ++ rest) (omega arith) in
      ap
        (read_record codec max_len calls res files
          (λ buf' m r. read_records codec max_len calls count buf' m r))
        framed
      ∙ read_record-packed o rest files res
          (λ buf' m r. read_records codec max_len calls count buf' m r) b parsed fits done

  -- The loop on the records of the objects of `source`.
  abbrev pub Arrived : Files → List BaseId → Files → Files → Type 0
  Arrived source ids files files' =
      Kept codec c files files'
      × ((id : BaseId) → Member id ids → read codec files' id ≡ read codec source id)

  write_done :
      (w : Calls) (o : Object) (files : Files)
      → w.mkdir ≡ true
      → w.torn ≡ none
      → w.rename ≡ true
      → (write codec w o files).2 ≡ none
  unfolding write write_file
  write_done w o files m t r = ground arith

  pack_records_inv :
      (source : Files) (id : BaseId) (ids : List BaseId) (records : Bytes)
      → pack_records codec source (id ∷ ids) ≡ ok records
      → (o : Object) × (rest : Bytes) × (read codec source id ≡ ok o)
        × (pack_records codec source ids ≡ ok rest)
        × (records ≡ pack_record codec o ++ rest)
  unfolding pack_records
  pack_records_inv source id ids records h = elim (Result-cases (read codec source id)) [
    | inr (x, e) ↦ absurd (cc (rw (e, pack_records) at h))
    | inl (o, e) ↦ elim (Result-cases (pack_records codec source ids)) [
      | inr (x, f) ↦ absurd (ground arith)
      | inl (rest, f) ↦ (o, rest, e, f, ground arith)
    ]
  ]

  module _ (source : Files) (wide : max_len < 2 ^ 64) (made : (n : ℕ) → (calls n).mkdir ≡ true)
      (seen : (n : ℕ) → (calls n).stat ≡ true) (untorn : (n : ℕ) → (calls n).torn ≡ none)
      (renamed : (n : ℕ) → (calls n).rename ≡ true) where
    read_records-pack_records :
        (ids : List BaseId) (records : Bytes) (files : Files) (res : PackResult)
        → ((id : BaseId) (o : Object)
            → Member id ids
            → read codec source id ≡ ok o
            → length (codec.compress (serialize o)) ≤ max_len)
        → ((id : BaseId) (o : Object) (raw : Bytes)
            → Member id ids
            → read codec source id ≡ ok o
            → codec.hash raw ≡ id
            → raw ≡ serialize o)
        → pack_records codec source ids ≡ ok records
        → IsSound codec c files
        → (files' : Files) × (read_records codec max_len calls (length ids) records files res
            ≡ some (
              files',
              record {
                objects_read = res.objects_read + length ids;
                objects_written = res.objects_written + length ids;
              },
              none,
            ))
          × Arrived source ids files files'
    unfolding read_records pack_records
    read_records-pack_records [] records files res small unique h sound = (
      files,
      let e : [] ≡ records = ground arith in ground arith,
      (Kept-refl codec c files, λ id m. absurd m),
    )
    read_records-pack_records (id ∷ ids) records files res small unique h sound =
        let (o, rest, found, packed, e) = pack_records_inv source id ids records h in
        let (content, at, b, parsed, unpacked) = read_inv codec c source id o found in
        let w = calls res.objects_read in
        let m = made res.objects_read in
        let t = untorn res.objects_read in
        let r = renamed res.objects_read in
        let named = read-eq-ok codec c source id o found in
        let stored = write codec w o files in
        let first = write-Kept codec c w o files (seen res.objects_read) b in
        let (files', run, arrived) =
          read_records-pack_records ids rest stored.0
            (record {
              objects_read = res.objects_read + 1;
              objects_written = res.objects_written + 1;
            })
            (λ i p k. small i p (inr k)) (λ i p raw k. unique i p raw (inr k)) packed
            (first.sound sound) in
        let here : read codec stored.0 id ≡ ok o =
          subst (λ (i : BaseId). read codec stored.0 i ≡ ok o) named
            (read-write_readable codec c w o files parsed b sound
              (λ raw same. unique id o raw (inl refl) found (same ∙ named)) m t r) in
        let still : read codec files' id ≡ ok o =
          read-kept codec c stored.0 files' id o
            (λ bytes. arrived.0.kept id bytes (subst IsId named (c.hash_id (serialize o)))) here in
        (
          files',
          ap (λ (x : Bytes). read_records codec max_len calls (suc (length ids)) x files res) e
              ∙ read_records-packed o (length ids) rest files res b parsed
                  (small id o (inl refl) found) wide (write_done w o files m t r)
              ∙ run
              ∙ ground arith,
          (
            Kept-trans codec c first arrived.0,
            λ i k. elim k [ inl e ↦ rw e (still ∙ sym found) | inr n ↦ arrived.1 i n ],
          ),
        )

    read_body-pack_header :
        (n : ℕ) (records : Bytes) (files : Files) (res : PackResult)
        → n < 2 ^ 32
        → read_body codec max_len calls (pack_header n ++ records) files res
          ≡ read_records codec max_len calls n records files res
    unfolding read_body bytes_eq
    read_body-pack_header n records files res h =
        ap (read_counted codec max_len calls files res) (read-u32 n records h)

    length-pack_header : (n : ℕ) → length (pack_header n) ≡ 9
    length-pack_header n = omega (arith, length-u32_bytes n)

    -- The checks before the magic bytes, on a body with its hash behind it.
    read_pack-sealed :
        (body : Bytes) (files : Files)
        → 9 ≤ length body
        → read_pack codec max_len calls (body ++ codec.hash body) files
          ≡ read_body codec max_len calls body files
              (record { objects_read = 0; objects_written = 0 })
    unfolding read_pack
    read_pack-sealed body files long =
        let sum = codec.hash body in
        let size : length (body ++ sum) ≡ length body + 32 =
          length-append body sum ∙ ap (λ (k : ℕ). length body + k) (c.hash_id body).0 in
        let cut : length (body ++ sum) - 32 ≡ length body = omega arith in
        let short : ltb (length (body ++ sum)) (9 + 32) ≡ false = ground arith in
        rw (short, cut, take-length_append body sum, drop-length_append body sum, bytes_eq_refl sum)
          refl

    -- If every `Write` succeeds, and no `Stat` fails on an object file that is there, a `ReadPack` of
    -- what `WritePack` wrote for objects of one store, into another that is sound, returns without an error, counts each object as read and as
    -- written, keeps every object file, and each sent object is read from the receiver as from the
    -- sender. The objects are fewer than 2 ^ 32, each is small enough for `make` when compressed,
    -- and no other bytes have the hash of a sent object.
    pub read_pack-write_pack :
        (ids : List BaseId) (all : Bytes) (files : Files)
        → ((id : BaseId) (o : Object)
            → Member id ids
            → read codec source id ≡ ok o
            → length (codec.compress (serialize o)) ≤ max_len)
        → ((id : BaseId) (o : Object) (raw : Bytes)
            → Member id ids
            → read codec source id ≡ ok o
            → codec.hash raw ≡ id
            → raw ≡ serialize o)
        → length ids < 2 ^ 32
        → write_pack codec source ids ≡ ok all
        → IsSound codec c files
        → (files' : Files) × (read_pack codec max_len calls all files
            ≡ some
                (files', record { objects_read = length ids; objects_written = length ids }, none))
          × Arrived source ids files files'
    unfolding write_pack
    read_pack-write_pack ids all files small unique few h sound =
        elim (Result-cases (pack_records codec source ids)) [
          | inr (x, e) ↦ absurd (cc (rw (e, write_pack) at h))
          | inl (records, e) ↦
              let body = pack_header (length ids) ++ records in
              let sealed : body ++ codec.hash body ≡ all = ok-injective (rw (e, write_pack) at h) in
              let (files', run, arrived) =
                read_records-pack_records ids records files
                  (record { objects_read = 0; objects_written = 0 }) small unique e sound in
              let long : 9 ≤ length body = omega (
                arith,
                length-append (pack_header (length ids)) records,
                length-pack_header (length ids),
              ) in
              (
                files',
                ap (λ (x : Bytes). read_pack codec max_len calls x files) (sym sealed)
                    ∙ read_pack-sealed body files long
                    ∙ read_body-pack_header (length ids) records files _ few
                    ∙ run
                    ∙ ground arith,
                arrived,
              )
        ]
