-- ===== src/Gc.antt =====
-- pkg/gc/gc.go: the removal of objects that nothing refers to. The files are those of the object
-- store (Object/Store). The candidates for roots (references, HEAD and its reflog) are a parameter,
-- and so is what each call of the operating system does.
pub mod Keeps
pub mod Removes
mod Tests
use vara.Base.{
  ℕ, zero, suc, ◌+◌, ◌≡◌, Bool, true, false, ◌&&◌, ◌||◌, Option, none, some, List, [], ◌∷◌, ◌++◌,
  ◌==◌, leb, if◌then◌else◌, Bytes, bytes_eq, contains, length, take, drop, erase, is_empty, Error,
  Result, ok, err, failure,
}
use vara.Hash.{BaseId, parse_hex}
use vara.Object.{Object}
use vara.Object.Store.{Files, Codec, read_on, read}
use vara.Transfer.{commit_at, enumerate}

abbrev zeros : ℕ → Bytes
zeros zero = []
zeros (suc n) = 0 ∷ zeros n

-- `types.CommitID{}`.
abbrev pub zero_id : BaseId
zero_id = zeros 32

pub record GcResult : Type 0 where
  pub scanned : ℕ
  pub reachable : ℕ
  pub removed : ℕ
  pub bytes_freed : ℕ

pub record LooseObject : Type 0 where
  pub id : BaseId
  pub path : Bytes
  pub size : ℕ

unfoldable pub all_hex : Bytes → Bool
all_hex [] = true
all_hex (c ∷ s) = (leb b'0' c && leb c b'9' || leb b'a' c && leb c b'f') && all_hex s

unfoldable pub is_hex : Bytes → ℕ → Bool
is_hex s n = length s == n && all_hex s

-- The slash behind the shard.
abbrev pub has_slash : Bytes → Bool
has_slash [] = false
has_slash (b ∷ s) = b == b'/'

abbrev pub loose_of : Bytes → ℕ → Result BaseId → List LooseObject → List LooseObject
loose_of path size (err _) objs = objs
loose_of path size (ok id) objs = record { id = id; path = path; size = size } ∷ objs

-- `listLooseObjects`: the files in a directory with a name of two digits.
unfoldable pub list_loose : Files → List LooseObject
list_loose [] = []
list_loose ((path, content) ∷ files) =
    let rest = list_loose files in
    let shard = take 2 path in
    let name = drop 3 path in
    if is_hex shard 2 && has_slash (drop 2 path) && is_hex name 62
    then loose_of path (length content) (parse_hex (shard ++ name)) rest
    else rest

-- `gatherRoots`: `seen` has the members of `roots`.
unfoldable pub gather_roots : (BaseId → Result Object) → List BaseId → List BaseId → List BaseId
gather_roots read [] roots = roots
gather_roots read (c ∷ cs) roots = elim (bytes_eq c zero_id || contains roots c) [
  | true ↦ gather_roots read cs roots
  | false ↦ elim (commit_at read c) [
    | none ↦ gather_roots read cs roots
    | some _ ↦ gather_roots read cs (roots ++ c ∷ [])
  ]
]

-- What `os.Remove` does.
pub data Removal : Type 0 where
  done gone failed : Removal

-- The sweep, with `apply`. Each round counts before it removes.
unfoldable pub sweep :
    Bool
    → (BaseId → Removal)
    → List BaseId
    → List LooseObject
    → GcResult
    → Files
    → Files × GcResult × Option Error
sweep apply remove reachable [] res files = (files, res, none)
sweep apply remove reachable (o ∷ objs) res files =
    let counted = record res {
      removed = res.removed + 1;
      bytes_freed = res.bytes_freed + o.size;
    } in
    elim (contains reachable o.id) [
      | true ↦ sweep apply remove reachable objs res files
      | false ↦ elim apply [
        | false ↦ sweep apply remove reachable objs counted files
        | true ↦ elim (remove o.id) [
          | done ↦ sweep apply remove reachable objs counted (erase o.path files)
          | gone ↦ sweep apply remove reachable objs counted files
          | failed ↦ (files, counted, some failure)
        ]
      ]
    ]

abbrev pub no_result : GcResult
no_result = record { scanned = 0; reachable = 0; removed = 0; bytes_freed = 0 }

module _ (codec : Codec) (fails : BaseId → Bool) (sort order : List BaseId → List BaseId) where
  -- The reachable objects, from no root at all without a walk.
  abbrev pub reachable_of : ℕ → Files → List BaseId → Option (Result (List BaseId))
  reachable_of fuel files roots =
      if is_empty roots
      then some (ok [])
      else enumerate (read_on codec fails files) sort order fuel roots []

  -- `Collect`; `listed` says whether the directories can be read.
  unfoldable pub collect :
      ℕ
      → Bool
      → Bool
      → (BaseId → Removal)
      → List BaseId
      → Files
      → Option (Files × GcResult × Option Error)
  collect fuel apply listed remove candidates files =
      elim (reachable_of fuel files (gather_roots (read_on codec fails files) candidates [])) [
        | none ↦ none
        | some (err x) ↦ some (files, no_result, some x)
        | some (ok ids) ↦
            let res = record no_result { reachable = length ids } in
            if listed
            then (let objs = list_loose files in
                some (sweep apply remove ids objs (record res { scanned = length objs }) files))
            else some (files, res, some failure)
      ]
