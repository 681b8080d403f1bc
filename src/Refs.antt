-- ===== src/Refs.antt =====
-- pkg/refs/refs.go: references in files, symbolic ones, and the names that are valid. The path of a
-- name (`filepath.Join`, which cleans it) is a parameter, and so are the calls of a write.
pub mod Chain
pub mod Returns
pub mod Locks
pub mod Created
mod Tests
use vara.Base.{
  ℕ, zero, suc, ◌≡◌, Bool, true, false, not, ◌&&◌, ◌||◌, Option, none, some, List, [], ◌∷◌, ◌++◌,
  arith, ltb, ◌==◌, if◌then◌else◌, Bytes, codes, length, contains, lookup, erase, Error, Result, ok,
  err, failure, ref_not_found, ref_validation,
}
use vara.Lines.{has_prefix, trim_prefix, trim_space}
use vara.Hash.{BaseId, to_string, parse_hex}
use vara.Fsutil.{Files, WriteCalls, write_file}

-- `strings.Contains`.
unfoldable pub has_substring : Bytes → Bytes → Bool
has_substring [] p = has_prefix [] p
has_substring (b ∷ s) p = has_prefix (b ∷ s) p || has_substring s p

-- A byte of a name is none of these: the restricted characters, and the ASCII control ones.
abbrev pub is_restricted : ℕ → Bool
is_restricted b =
    b == b'~' || b == b'^' || b == b':' || b == b'?' || b == b'*' || b == b'[' || b == 92 || b == 32

abbrev pub is_control : ℕ → Bool
is_control b = ltb b 32 || b == 127

unfoldable pub any_byte : (ℕ → Bool) → Bytes → Bool
any_byte test [] = false
any_byte test (b ∷ s) = test b || any_byte test s

abbrev pub is_edge : ℕ → Bool
is_edge b = b == b'/' || b == b'.'

-- `name[len(name)-1] == '/' || ...`.
unfoldable pub last_is_edge : Bytes → Bool
last_is_edge [] = false
last_is_edge (b ∷ []) = is_edge b
last_is_edge (b ∷ c ∷ s) = last_is_edge (c ∷ s)

unfoldable pub validate_name : Bytes → Option Error
validate_name [] = some ref_validation
validate_name (b ∷ s) =
    let name = b ∷ s in
    if ltb 255 (length name)
    then some ref_validation
    else if is_edge b
    then some ref_validation
    else if last_is_edge name
    then some ref_validation
    else if has_substring name (codes "..")
    then some ref_validation
    else if any_byte is_restricted name
    then some ref_validation
    else if any_byte is_control name
    then some ref_validation
    else none

abbrev pub ref_prefix : Bytes
ref_prefix = codes "ref: "

-- What the content of a reference says.
pub data Content : Type 0 where
  missing : Content
  symbolic : Bytes → Content
  direct : Bytes → Content

-- Whether `MkdirAll` succeeds, and the calls of the write.
pub record Calls : Type 0 where
  pub mkdir : Bool
  pub retries : ℕ
  pub writing : WriteCalls

module _ (ref_path : Bytes → Bytes) where
  abbrev pub content_of : Option Bytes → Content
  content_of none = missing
  content_of (some bytes) =
      let content = trim_space bytes in
      if has_prefix content ref_prefix
      then symbolic (trim_prefix content ref_prefix)
      else direct content

  -- `os.ReadFile(r.refPath(current))`, trimmed, and the test for "ref: ".
  unfoldable pub read_ref : Files → Bytes → Content
  read_ref files name = content_of (lookup (ref_path name) files)

  -- The loop of `Resolve`. `none`: the fuel ran out.
  unfoldable pub resolve_from : Files → ℕ → List Bytes → Bytes → Option (Result BaseId)
  resolve_from files zero visited current = none
  resolve_from files (suc fuel) visited current =
      if contains visited current then some (err failure) else elim (read_ref files current) [
        | missing ↦ some (err ref_not_found)
        | symbolic target ↦ resolve_from files fuel (current ∷ visited) target
        | direct content ↦ some (elim (parse_hex content) [ err e ↦ err failure | ok id ↦ ok id ])
      ]

  unfoldable pub resolve : Files → ℕ → Bytes → Option (Result BaseId)
  resolve files fuel name = resolve_from files fuel [] name

  -- The loop of `Update`, that finds the reference to write.
  unfoldable pub follow : Files → ℕ → Bytes → Option Bytes
  follow files zero current = none
  follow files (suc fuel) current = elim (read_ref files current) [
    | missing ↦ some current
    | symbolic target ↦ follow files fuel target
    | direct content ↦ some current
  ]

  -- `MkdirAll` and `atomicWrite`.
  unfoldable pub store_ref : Calls → Bytes → Bytes → Files → Files × Option Error
  store_ref calls name content files =
      let path = ref_path name in
      if calls.mkdir
      then write_file calls.retries calls.writing (path ++ codes ".lock") path content files
      else (files, some failure)

  unfoldable pub update : Calls → ℕ → Bytes → BaseId → Files → Option (Files × Option Error)
  update calls fuel name id files = elim (follow files fuel name) [
    | none ↦ none
    | some current ↦ some (store_ref calls current (to_string id ++ 10 ∷ []) files)
  ]

  unfoldable pub create : Calls → Bytes → BaseId → Files → Files × Option Error
  create calls name id files = elim (lookup (ref_path name) files) [
    | some _ ↦ (files, some failure)
    | none ↦ store_ref calls name (to_string id ++ 10 ∷ []) files
  ]

  -- `Symbolic`.
  unfoldable pub make_symbolic : Calls → Bytes → Bytes → Files → Files × Option Error
  make_symbolic calls name target files =
      store_ref calls name (ref_prefix ++ (target ++ 10 ∷ [])) files

  -- `os.Remove` of a file that is there may fail too.
  unfoldable pub delete : Bool → Bytes → Files → Files × Option Error
  delete removed name files = elim (lookup (ref_path name) files) [
    | none ↦ (files, some failure)
    | some _ ↦ if removed then (erase (ref_path name) files, none) else (files, some failure)
  ]

  unfoldable pub resolve_symbolic : Files → Bytes → Result Bytes
  resolve_symbolic files name = elim (read_ref files name) [
    | missing ↦ err failure
    | symbolic target ↦ ok target
    | direct content ↦ err failure
  ]

  unfoldable pub detached : Files → Bytes → Result Bool
  detached files name = elim (read_ref files name) [
    | missing ↦ err failure
    | symbolic target ↦ ok false
    | direct content ↦ ok true
  ]
