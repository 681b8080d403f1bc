-- ===== src/Gc/Removes.antt =====
-- pkg/gc/gc.go: what nothing refers to is removed.
use vara.Base.{
  Bool, ℕ, ◌+◌, ◌/◌, ◌%◌, ◌<◌, ◌≡◌, ◌↔◌, ◌⊎◌, inl, inr, refl, sym, ap, ◌∙◌, true, false, ◌&&◌, ◌||◌,
  leb, none, some, List, [], ◌∷◌, ◌++◌, arith, Bytes, IsBytes, bytes_eq, bytes_eq_iff, contains,
  contains_iff, Member, length, take, drop, lookup, erase, lookup-erase, Bool-cases, Option-cases,
  Result-cases, ok, subst, not-true,
}
use vara.Hash.{BaseId, IsId, to_string, hex_digit, parse_hex, parse_hex-to_string, length-to_string}
use vara.Object.Store.{Files, Codec, read_on, object_path}
use vara.Transfer.{Reach}
use vara.Transfer.Sound.{enumerate_sound}
use vara.Gc.{
  GcResult, LooseObject, all_hex, is_hex, has_slash, list_loose, gather_roots, Removal, done, sweep,
  no_result, collect, reachable_of,
}
use vara.Gc.Keeps.{path_parts}

digit_hex :
    (n : ℕ)
    → n < 16
    → (leb b'0' (hex_digit n) && leb (hex_digit n) b'9'
        || leb b'a' (hex_digit n) && leb (hex_digit n) b'f')
      ≡ true
unfolding hex_digit
digit_hex n h = ground arith

all_hex-to_string : (id : BaseId) → IsBytes id → all_hex (to_string id) ≡ true
unfolding all_hex to_string
all_hex-to_string [] h = refl
all_hex-to_string (b ∷ id) h =
    ground (arith, digit_hex (b / 16), digit_hex (b % 16), all_hex-to_string id h.1)

-- The path of an object is one that is listed.
path_shape :
    (x : BaseId)
    → IsId x
    → (is_hex (take 2 (object_path x)) 2
        && has_slash (drop 2 (object_path x))
        && is_hex (drop 3 (object_path x)) 62)
      ≡ true
unfolding object_path is_hex to_string all_hex
path_shape [] h = absurd (omega arith)
path_shape (b ∷ x) h =
    ground
      (arith, digit_hex (b / 16), digit_hex (b % 16), all_hex-to_string x h.1.1, length-to_string x)

-- The object is in the list, under its path.
abbrev Lists : List LooseObject → BaseId → Type 0
Lists [] x = ⊥
Lists (o ∷ objs) x = ((o.id ≡ x) × (o.path ≡ object_path x)) ⊎ Lists objs x

abbrev IsShard : Bytes → Type 0
IsShard path = (is_hex (take 2 path) 2 && has_slash (drop 2 path) && is_hex (drop 3 path) 62) ≡ true

list_loose-Lists :
    (files : Files) (x : BaseId) (content : Bytes)
    → IsId x
    → lookup (object_path x) files ≡ some content
    → Lists (list_loose files) x
unfolding list_loose lookup
list_loose-Lists [] x content is_id e = absurd (cc e)
list_loose-Lists ((path, bytes) ∷ files) x content is_id e =
    elim (Bool-cases (bytes_eq path (object_path x))) [
      | inl here ↦
          let same = (bytes_eq_iff path (object_path x)).0 here in
          let shape = subst IsShard (sym same) (path_shape x is_id) in
          let id : parse_hex (take 2 path ++ drop 3 path) ≡ ok x =
            subst (λ q. parse_hex (take 2 q ++ drop 3 q) ≡ ok x) (sym same)
              (rw (path_parts x is_id) (parse_hex-to_string x is_id)) in
          rw shape (rw id (inl (refl, same)))
      | inr away ↦
          let more = list_loose-Lists files x content is_id (ground arith) in
          elim (Bool-cases
            (is_hex (take 2 path) 2 && has_slash (drop 2 path) && is_hex (drop 3 path) 62)) [
              | inr skip ↦ rw skip more
              | inl taken ↦ elim (Result-cases (parse_hex (take 2 path ++ drop 3 path))) [
                | inr (y, q) ↦ rw taken (rw q more)
                | inl (id, q) ↦ rw taken (rw q (inr more))
              ]
            ]
    ]

module _ (remove : BaseId → Removal) (succeeds : (id : BaseId) → remove id ≡ done)
    (reachable : List BaseId) where
  sweep_gone :
      (objs : List LooseObject) (res : GcResult) (files : Files) (p : Bytes)
      → lookup p files ≡ none
      → lookup p (sweep true remove reachable objs res files).0 ≡ none
  unfolding sweep
  sweep_gone [] res files p e = e
  sweep_gone (o ∷ objs) res files p e =
      let counted = record res {
        removed = res.removed + 1;
        bytes_freed = res.bytes_freed + o.size;
      } in
      elim (Bool-cases (contains reachable o.id)) [
        | inl kept ↦ ground (arith, sweep_gone objs res files p)
        | inr out ↦
            let d = succeeds o.id in
            ground
              (arith, sweep_gone objs counted (erase o.path files) p, lookup-erase o.path p files)
      ]

  sweep_removes :
      (objs : List LooseObject) (res : GcResult) (files : Files) (x : BaseId)
      → Lists objs x
      → contains reachable x ≡ false
      → lookup (object_path x) (sweep true remove reachable objs res files).0 ≡ none
  unfolding sweep
  sweep_removes [] res files x l m = absurd l
  sweep_removes (o ∷ objs) res files x (inl (i, at)) m =
      let counted = record res {
        removed = res.removed + 1;
        bytes_freed = res.bytes_freed + o.size;
      } in
      let d = succeeds o.id in
      let out : contains reachable o.id ≡ false = rw i m in
      ground (
        arith,
        sweep_gone objs counted (erase o.path files) (object_path x),
        lookup-erase o.path (object_path x) files,
        bytes_eq_iff o.path (object_path x),
      )
  sweep_removes (o ∷ objs) res files x (inr l) m =
      let counted = record res {
        removed = res.removed + 1;
        bytes_freed = res.bytes_freed + o.size;
      } in
      elim (Bool-cases (contains reachable o.id)) [
        | inl kept ↦ ground (arith, sweep_removes objs res files x l m)
        | inr out ↦
            let d = succeeds o.id in
            ground (arith, sweep_removes objs counted (erase o.path files) x l m)
      ]

reached_from :
    (codec : Codec) (fails : BaseId → Bool) (sort order : List BaseId → List BaseId)
    → ((x : BaseId) (xs : List BaseId) → Member x (sort xs) ↔ Member x xs)
    → ((x : BaseId) (xs : List BaseId) → Member x (order xs) ↔ Member x xs)
    → (fuel : ℕ) (roots : List BaseId) (files : Files) (ids : List BaseId) (x : BaseId)
    → reachable_of codec fails sort order fuel files roots ≡ some (ok ids)
    → Member x ids
    → Reach (read_on codec fails files) roots x
reached_from codec fails sort order sorted ordered fuel [] files ids x e m =
    let same : [] ≡ ids = ground arith in absurd (subst (Member x) (sym same) m)
reached_from codec fails sort order sorted ordered fuel (r ∷ roots) files ids x e m =
    enumerate_sound (read_on codec fails files) sort order fuel (r ∷ roots) [] ids sorted ordered e
      x m

-- If all calls of the operating system succeed, a `Collect` with `apply` that returns without an
-- error removes the file of every object that no root refers to.
pub collect_removes :
    (codec : Codec) (fails : BaseId → Bool) (sort order : List BaseId → List BaseId)
    → ((x : BaseId) (xs : List BaseId) → Member x (sort xs) ↔ Member x xs)
    → ((x : BaseId) (xs : List BaseId) → Member x (order xs) ↔ Member x xs)
    → (fuel : ℕ) (remove : BaseId → Removal) (candidates : List BaseId) (files files' : Files)
      (res : GcResult) (x : BaseId)
    → ((id : BaseId) → remove id ≡ done)
    → collect codec fails sort order fuel true true remove candidates files
      ≡ some (files', res, none)
    → IsId x
    → ¬ Reach (read_on codec fails files) (gather_roots (read_on codec fails files) candidates []) x
    → lookup (object_path x) files' ≡ none
unfolding collect
collect_removes codec fails sort order sorted ordered fuel remove candidates files files' res x
      succeeds run is_id unreached =
    let store = read_on codec fails files in
    let roots = gather_roots store candidates [] in
    elim (Option-cases (reachable_of codec fails sort order fuel files roots)) [
      | inl q ↦ absurd (ground arith)
      | inr (out, q) ↦ elim (Result-cases out) [
        | inr (y, s) ↦ absurd (ground arith)
        | inl (ids, s) ↦
            let started = record no_result {
              scanned = length (list_loose files);
              reachable = length ids;
            } in
            let same : (sweep true remove ids (list_loose files) started files).0 ≡ files' =
              ground arith in
            let out_of : contains ids x ≡ false = not-true (λ m. unreached (
              reached_from codec fails sort order sorted ordered fuel roots files ids x
                (ground arith) ((contains_iff ids x).0 m))) in
            ap (lookup (object_path x)) (sym same)
            ∙ (elim (Option-cases (lookup (object_path x) files)) [
              | inl gone_already ↦
                  sweep_gone remove succeeds ids (list_loose files) started files (object_path x)
                    gone_already
              | inr (content, there) ↦
                  sweep_removes remove succeeds ids (list_loose files) started files x
                    (list_loose-Lists files x content is_id there) out_of
            ])
      ]
    ]
