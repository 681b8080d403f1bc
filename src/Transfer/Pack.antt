-- ===== src/Transfer/Pack.antt =====
-- pkg/transfer/pack.go: packs of objects. The writer takes all bytes; the objects of a pack are
-- read whole. `none` is a panic: `make` refuses a slice that is longer than `max_len`.
pub mod Varint
pub mod Keeps
pub mod RoundTrip
mod Tests
use vara.Base.{
  ℕ, zero, suc, ◌+◌, ◌-◌, Bool, true, false, not, Option, none, some, List, [], ◌∷◌, ◌++◌, ltb, leb,
  ◌==◌, if◌then◌else◌, Bytes, bytes_eq, codes, length, take, drop, u32_bytes, read_u32, is_empty,
  Error, Result, ok, err, failure, ◌>>=◌,
}
use vara.Hash.{BaseId}
use vara.Object.{Object, serialize, deserialize}
use vara.Object.Store.{Files, Calls, Codec, read, write}
use vara.Transfer.Pack.Varint.{put_uvarint, read_uvarint}

abbrev pub pack_magic : Bytes
pack_magic = codes "VPCK"

abbrev pub pack_version : ℕ
pack_version = 1

-- The bytes of the header.
abbrev pub pack_header : ℕ → Bytes
pack_header count = pack_magic ++ pack_version ∷ u32_bytes count

pub record PackResult : Type 0 where
  pub objects_read : ℕ
  pub objects_written : ℕ

module _ (codec : Codec) where
  unfoldable pub pack_record : Object → Bytes
  pack_record obj =
      let compressed = codec.compress (serialize obj) in
      put_uvarint (length compressed) ++ compressed

  -- The loop of `WritePack`.
  unfoldable pub pack_records : Files → List BaseId → Result Bytes
  unfolding pack_record
  pack_records files [] = ok []
  pack_records files (id ∷ ids) = do
    obj ← read codec files id
    rest ← pack_records files ids
    ok (pack_record obj ++ rest)

  -- `WritePack`; both hashes of the source are SHA-256.
  unfoldable pub write_pack : Files → List BaseId → Result Bytes
  write_pack files ids = do
    records ← pack_records files ids
    let body = pack_header (length ids) ++ records
    ok (body ++ codec.hash body)

  -- What `ReadPack` has done when it returns.
  abbrev pub Read : Type 0
  Read = Files × PackResult × Option Error

  module _ (max_len : ℕ) (calls : ℕ → Calls) where
    -- The end of a round, after `Write`.
    abbrev pub after_write :
        PackResult
        → (Files → PackResult → Option Read)
        → Files × BaseId × Option Error
        → Option Read
    after_write res rest (files, id, some x) = some (files, res, some x)
    after_write res rest (files, id, none) =
        rest files (record res { objects_written = res.objects_written + 1 })

    -- A round from `Deserialize` on.
    abbrev pub read_object :
        PackResult → Files → (Files → PackResult → Option Read) → Result Object → Option Read
    read_object res files rest (err x) = some (files, res, some x)
    read_object res files rest (ok obj) =
        after_write (record res { objects_read = res.objects_read + 1 }) rest
          (write codec (calls res.objects_read) obj files)

    -- A round from `Decompress` on.
    abbrev pub read_raw :
        PackResult → Files → (Files → PackResult → Option Read) → Option Bytes → Option Read
    read_raw res files rest none = some (files, res, some failure)
    read_raw res files rest (some raw) = read_object res files rest (deserialize raw)

    -- A round, with what follows it.
    unfoldable pub read_record :
        PackResult
        → Files
        → (Bytes → Files → PackResult → Option Read)
        → Option (ℕ × Bytes)
        → Option Read
    read_record res files rest none = some (files, res, some failure)
    read_record res files rest (some (clen, buf)) =
        if ltb max_len clen
        then none
        else if ltb (length buf) clen
        then some (files, res, some failure)
        else read_raw res files (rest (drop clen buf)) (codec.decompress (take clen buf))

    -- The loop of `ReadPack`, and the test behind it.
    unfoldable pub read_records : ℕ → Bytes → Files → PackResult → Option Read
    read_records zero buf files res = some (files, res, if is_empty buf then none else some failure)
    read_records (suc count) buf files res =
        read_record res files (λ buf' files' res'. read_records count buf' files' res')
          (read_uvarint buf)

    -- `ReadPack` from the magic bytes on; `body` has nine bytes at least.
    abbrev pub read_counted : Files → PackResult → Option (ℕ × Bytes) → Option Read
    read_counted files res none = some (files, res, some failure)
    read_counted files res (some (count, buf)) = read_records count buf files res

    unfoldable pub read_body : Bytes → Files → PackResult → Option Read
    read_body body files res =
        if not (bytes_eq (take 4 body) pack_magic)
        then some (files, res, some failure)
        else if not (bytes_eq (take 1 (drop 4 body)) (pack_version ∷ []))
        then some (files, res, some failure)
        else read_counted files res (read_u32 (drop 5 body))

    unfoldable pub read_pack : Bytes → Files → Option Read
    read_pack all files =
        let res : PackResult = record { objects_read = 0; objects_written = 0 } in
        let body = take (length all - 32) all in
        let trailer = drop (length all - 32) all in
        if ltb (length all) (9 + 32)
        then some (files, res, some failure)
        else if not (bytes_eq (codec.hash body) trailer)
        then some (files, res, some failure)
        else read_body body files res
