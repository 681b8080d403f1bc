-- ===== src/Gc/Tests.antt =====
-- pkg/gc/gc.go: the theorems on a small repository, and a run of the collection.
use vara.Base.{
  false, Bool, ◌≡◌, ◌≢◌, inl, inr, refl, sym, ap, true, Option, none, some, List, [], ◌∷◌, arith,
  if◌then◌else◌, bytes_eq, contains, Member, ok, subst, Bytes, codes, lookup, erase, u32_bytes,
  u64_bytes, read_u32, read_u64,
}
use vara.Hash.{BaseId, to_string, hex_digit, hex_value, decode_string, parse_hex}
use vara.Object.{
  Object, blob, tree, commit, Commit, TreeEntry, entries_bytes, ids_bytes, payload, serialize,
  read_until_nul, known_type, read_header, read_id, read_entry, read_entries, deserialize_tree,
  read_ids, deserialize_commit, deserialize,
}
use vara.Object.Store.{Files, Codec, checked, read_on, read, object_path}
use vara.Transfer.{
  commit_at, tree_at, push_parents, walk_queue, walk_commits, add_entries, add_tree, add_haves,
  add_wants, add_commits, enumerate, Holds, Reach, root, tree_of, parent_of, entry_of,
}
use vara.Transfer.Trees.{IsHonest, HoldsFile}
use vara.Gc.{zero_id, GcResult, all_hex, is_hex, list_loose, gather_roots, done, sweep, collect}
use vara.Gc.Keeps.{collect_keeps}
use vara.Gc.Removes.{collect_removes}

abbrev tip : BaseId
tip = 1 ∷ codes "abcdefghijklmnopqrstuvwxyz01234"

abbrev top : BaseId
top = 2 ∷ codes "abcdefghijklmnopqrstuvwxyz01234"

abbrev file : BaseId
file = 3 ∷ codes "abcdefghijklmnopqrstuvwxyz01234"

abbrev staged : BaseId
staged = 4 ∷ codes "abcdefghijklmnopqrstuvwxyz01234"

abbrev tip_commit : Commit
tip_commit = record { tree_hash = top; parents = []; author = []; message = []; timestamp = 0 }

abbrev top_entries : List TreeEntry
top_entries = record { mode = 0x81A4; hash = file; name = codes "a" } ∷ []

-- The codec of the tests knows three texts by a byte each.
abbrev object_of : Bytes → Option Object
object_of c =
    if bytes_eq c (1 ∷ [])
    then some (commit tip_commit)
    else if bytes_eq c (2 ∷ [])
    then some (tree top_entries)
    else if bytes_eq c (3 ∷ [])
    then some (blob (104 ∷ []))
    else none

abbrev bytes_of : Option Object → Option Bytes
bytes_of none = none
bytes_of (some o) = some (serialize o)

abbrev raw_tip : Bytes
raw_tip = serialize (commit tip_commit)

abbrev codec : Codec
codec = record {
  hash = λ raw.
      if bytes_eq raw raw_tip
      then tip
      else if bytes_eq raw (serialize (tree top_entries))
      then top
      else file;
  compress = λ raw. raw;
  decompress = λ c. bytes_of (object_of c);
}

-- A commit with its tree and file, and a blob that only the index knows.
abbrev files : Files
files =
    (object_path tip, 1 ∷ [])
    ∷ (object_path top, 2 ∷ [])
    ∷ (object_path file, 3 ∷ [])
    ∷ (object_path staged, 3 ∷ [])
    ∷ []

abbrev same_order : List BaseId → List BaseId
same_order xs = xs

abbrev none_fails : BaseId → Bool
none_fails id = false

abbrev kept : Files
kept = (object_path tip, 1 ∷ []) ∷ (object_path top, 2 ∷ []) ∷ (object_path file, 3 ∷ []) ∷ []

abbrev swept : GcResult
swept = record { scanned = 4; reachable = 3; removed = 1; bytes_freed = 1 }

abbrev candidates : List BaseId
candidates = zero_id ∷ tip ∷ staged ∷ []

run :
    collect codec none_fails same_order same_order 5 true true (λ _. done) candidates files
    ≡ some (kept, swept, none)
unfolding collect gather_roots list_loose all_hex is_hex sweep enumerate add_haves add_wants
    add_commits add_tree add_entries walk_commits walk_queue push_parents commit_at tree_at contains
    bytes_eq read checked lookup erase object_path to_string hex_digit hex_value decode_string
    parse_hex entries_bytes ids_bytes payload serialize u32_bytes u64_bytes read_u32 read_u64
    read_until_nul known_type read_header read_id read_entry read_entries deserialize_tree read_ids
    deserialize_commit deserialize
run = refl

tip_at : commit_at (read_on codec none_fails files) tip ≡ some tip_commit
unfolding commit_at bytes_eq read checked lookup object_path to_string hex_digit ids_bytes payload
    serialize u32_bytes u64_bytes read_u32 read_u64 read_until_nul known_type read_header read_id
    read_ids deserialize_commit deserialize
tip_at = refl

no_tree : deserialize (serialize (commit tip_commit)) ≡ ok (commit tip_commit)
unfolding bytes_eq ids_bytes payload serialize u32_bytes u64_bytes read_u32 read_u64 read_until_nul
    known_type read_header read_id read_ids deserialize_commit deserialize
no_tree = refl

no_tree_here : deserialize (serialize (blob (104 ∷ []))) ≡ ok (blob (104 ∷ []))
unfolding bytes_eq payload serialize read_until_nul known_type read_header deserialize
no_tree_here = refl

whole_tree : deserialize (serialize (tree top_entries)) ≡ ok (tree top_entries)
unfolding bytes_eq entries_bytes payload serialize u32_bytes read_u32 read_until_nul known_type
    read_header read_id read_entry read_entries deserialize_tree deserialize
whole_tree = refl

tree_only :
    (t : BaseId) (es : List TreeEntry)
    → tree_at (read_on codec none_fails files) t ≡ some es
    → es ≡ top_entries
unfolding tree_at read checked lookup
tree_only t es e = ground (arith, no_tree, no_tree_here, whole_tree)

file_only :
    (tree_at (read_on codec none_fails files) file ≡ none)
    × (commit_at (read_on codec none_fails files) file ≡ none)
unfolding tree_at commit_at bytes_eq read checked lookup object_path to_string hex_digit ids_bytes
    payload serialize u32_bytes u64_bytes read_u32 read_u64 entries_bytes read_until_nul known_type
    read_header deserialize
file_only = (refl, refl)

files-IsHonest : IsHonest (read_on codec none_fails files) []
files-IsHonest t x es e h =
    elim (subst (λ (s : List TreeEntry). HoldsFile s x) (tree_only t es e) h) [
      | inl q ↦
          subst
            (λ y.
              (tree_at (read_on codec none_fails files) y ≡ none)
              × (commit_at (read_on codec none_fails files) y ≡ none))
            (sym q.0) file_only
      | inr q ↦ absurd q
    ]

commit_only :
    (u : BaseId) (c : Commit)
    → commit_at (read_on codec none_fails files) u ≡ some c
    → c ≡ tip_commit
unfolding commit_at read checked lookup
commit_only u c e = ground (arith, no_tree, no_tree_here, whole_tree)

abbrev Kept : BaseId → Type 0
Kept x = Member x (tip ∷ top ∷ file ∷ [])

reach-Kept : (x : BaseId) → Reach (read_on codec none_fails files) (tip ∷ []) x → Kept x
reach-Kept x (root (inl e)) = inl e
reach-Kept x (root (inr e)) = absurd e
reach-Kept x (parent_of {u} {c} r e m) =
    absurd (subst (λ (d : Commit). Member x d.parents) (commit_only u c e) m)
reach-Kept x (tree_of {u} {c} r e) =
    inr (inl (ap (λ (d : Commit). d.tree_hash) (commit_only u c e)))
reach-Kept x (entry_of {t} {es} r e h) =
    elim (subst (λ (s : List TreeEntry). Holds s x) (tree_only t es e) h) [
      | inl q ↦ inr (inr (inl q))
      | inr q ↦ absurd q
    ]

found : gather_roots (read_on codec none_fails files) candidates [] ≡ tip ∷ []
unfolding gather_roots commit_at contains bytes_eq read checked lookup object_path to_string
    hex_digit entries_bytes ids_bytes payload serialize u32_bytes u64_bytes read_u32 read_u64
    read_until_nul known_type read_header read_id read_entry read_entries deserialize_tree read_ids
    deserialize_commit deserialize
found = refl

staged_apart : ¬ Kept staged
staged_apart (inl e) = absurd (cc e)
staged_apart (inr (inl e)) = absurd (cc e)
staged_apart (inr (inr (inl e))) = absurd (cc e)
staged_apart (inr (inr (inr e))) = absurd e

tip_nonzero : tip ≢ zero_id
tip_nonzero e = absurd (cc e)

collect_keeps_example : lookup (object_path top) kept ≡ lookup (object_path top) files
collect_keeps_example =
    collect_keeps codec none_fails same_order same_order (λ x xs. (λ m. m, λ m. m))
      (λ x xs. (λ m. m, λ m. m)) 5 true true (λ _. done) candidates files kept swept none tip top
      tip_commit files-IsHonest run (inr (inl refl)) tip_nonzero tip_at
      (tree_of (root (inl refl)) tip_at) (omega arith)

collect_removes_example : lookup (object_path staged) kept ≡ none
collect_removes_example =
    collect_removes codec none_fails same_order same_order (λ x xs. (λ m. m, λ m. m))
      (λ x xs. (λ m. m, λ m. m)) 5 (λ _. done) candidates files kept swept staged (λ _. refl) run
      (omega arith)
      (λ r. staged_apart (
        reach-Kept staged (subst (λ rs. Reach (read_on codec none_fails files) rs staged) found r)))
