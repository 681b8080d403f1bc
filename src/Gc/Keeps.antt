-- ===== src/Gc/Keeps.antt =====
-- pkg/gc/gc.go: what is referred to from a root stays.
use vara.Base.{
  ℕ, ◌+◌, ◌≡◌, ◌≢◌, ◌↔◌, ◌⊎◌, inl, inr, refl, sym, ap, ◌∙◌, Bool, true, false, ◌&&◌, ◌||◌, Option,
  some, List, [], ◌∷◌, ◌++◌, arith, bytes_eq, bytes_eq-false, contains, contains_iff, Member,
  Member-append, length, take, drop, lookup, erase, lookup-erase, Bool-cases, Option-cases,
  Result-cases, Error, Result, ok, subst, List-cases, is_empty,
}
use vara.Hash.{BaseId, IsId, to_string, parse_hex, parse_hex-to_string}
use vara.Object.{Object, Commit}
use vara.Object.Store.{Files, Codec, read_on, read, object_path}
use vara.Transfer.{commit_at, enumerate, Reach, root, parent_of, tree_of, entry_of}
use vara.Transfer.Trees.{IsHonest}
use vara.Transfer.Complete.{enumerate_complete}
use vara.Gc.{
  zero_id, GcResult, LooseObject, is_hex, has_slash, list_loose, gather_roots, Removal, done, gone,
  failed, sweep, no_result, collect,
}

-- The two parts of the path of an object are the text of its identifier.
pub path_parts :
    (x : BaseId) → IsId x → take 2 (object_path x) ++ drop 3 (object_path x) ≡ to_string x
unfolding object_path to_string
path_parts [] h = absurd (omega arith)
path_parts (b ∷ x) h = refl

-- The identifier of a listed file is read off its path.
abbrev IsListed : LooseObject → Type 0
IsListed o = parse_hex (take 2 o.path ++ drop 3 o.path) ≡ ok o.id

abbrev pub AreListed : List LooseObject → Type 0
AreListed [] = Unit {0}
AreListed (o ∷ objs) = IsListed o × AreListed objs

pub list_loose-AreListed : (files : Files) → AreListed (list_loose files)
unfolding list_loose
list_loose-AreListed [] = tt
list_loose-AreListed ((path, content) ∷ files) =
    let rest = list_loose-AreListed files in
    elim (Bool-cases
      (is_hex (take 2 path) 2 && has_slash (drop 2 path) && is_hex (drop 3 path) 62)) [
        | inr skip ↦ rw (skip, list_loose) rest
        | inl taken ↦ elim (Result-cases (parse_hex (take 2 path ++ drop 3 path))) [
          | inr (x, p) ↦ rw (taken, list_loose) (rw p rest)
          | inl (id, p) ↦ rw (taken, list_loose) (rw p (p, rest))
        ]
      ]

module _ (apply : Bool) (remove : BaseId → Removal) (reachable : List BaseId) where
  -- The file of a reachable object is not removed.
  sweep_keeps :
      (objs : List LooseObject) (res : GcResult) (files : Files) (x : BaseId)
      → AreListed objs
      → IsId x
      → contains reachable x ≡ true
      → lookup (object_path x) (sweep apply remove reachable objs res files).0
        ≡ lookup (object_path x) files
  unfolding sweep
  sweep_keeps [] res files x listed is_id m = refl
  sweep_keeps (o ∷ objs) res files x (l, listed) is_id m =
      let counted = record res {
        removed = res.removed + 1;
        bytes_freed = res.bytes_freed + o.size;
      } in
      let rest = λ (r : GcResult) (f : Files). sweep_keeps objs r f x listed is_id m in
      elim (Bool-cases (contains reachable o.id)) [
        | inl kept ↦ ground (arith, rest res files)
        | inr out ↦ elim (Bool-cases apply) [
          | inr dry ↦ ground (arith, rest counted files)
          | inl real ↦ elim (Removal-cases (remove o.id)) [
            | inr (inl r) ↦ ground (arith, rest counted files)
            | inr (inr r) ↦ ground arith
            | inl r ↦
                let off : bytes_eq o.path (object_path x) ≡ false =
                  bytes_eq-false o.path (object_path x) (λ e. not_path o x l is_id m out e) in
                ground (
                  arith,
                  rest counted (erase o.path files),
                  lookup-erase o.path (object_path x) files,
                )
          ]
        ]
      ]
    where
      Removal-cases : (r : Removal) → (r ≡ done) ⊎ (r ≡ gone) ⊎ (r ≡ failed)
      Removal-cases done = inl refl
      Removal-cases gone = inr (inl refl)
      Removal-cases failed = inr (inr refl)

      not_path :
          (o : LooseObject) (x : BaseId)
          → IsListed o
          → IsId x
          → contains reachable x ≡ true
          → contains reachable o.id ≡ false
          → o.path ≢ object_path x
      not_path o x l is_id m out e =
          let at : parse_hex (to_string x) ≡ ok o.id =
            subst (λ s. parse_hex s ≡ ok o.id) (path_parts x is_id)
              (subst (λ p. parse_hex (take 2 p ++ drop 3 p) ≡ ok o.id) e l) in
          let same : x ≡ o.id = cc (at, parse_hex-to_string x is_id) in cc (m, out, same)

gather_keeps :
    (read : BaseId → Result Object) (cs roots : List BaseId) (x : BaseId)
    → Member x roots
    → Member x (gather_roots read cs roots)
unfolding gather_roots
gather_keeps read [] roots x m = m
gather_keeps read (c ∷ cs) roots x m = elim (Bool-cases (bytes_eq c zero_id || contains roots c)) [
  | inl old ↦ rw (old, gather_roots) (gather_keeps read cs roots x m)
  | inr new ↦ elim (Option-cases (commit_at read c)) [
    | inl e ↦ rw (new, gather_roots) (rw e (gather_keeps read cs roots x m))
    | inr (k, e) ↦
        rw (new, gather_roots)
          (rw e
            (gather_keeps read cs (roots ++ c ∷ []) x ((Member-append x roots (c ∷ [])).1 (inl m))))
  ]
]

-- Each candidate that reads as a commit is a root.
gather_roots-mem :
    (read : BaseId → Result Object) (cs roots : List BaseId) (x : BaseId) (k : Commit)
    → Member x cs
    → x ≢ zero_id
    → commit_at read x ≡ some k
    → Member x (gather_roots read cs roots)
unfolding gather_roots
gather_roots-mem read [] roots x k m nz e = absurd m
gather_roots-mem read (c ∷ cs) roots x k (inr m) nz e =
    elim (Bool-cases (bytes_eq c zero_id || contains roots c)) [
      | inl old ↦ rw (old, gather_roots) (gather_roots-mem read cs roots x k m nz e)
      | inr new ↦ elim (Option-cases (commit_at read c)) [
        | inl e' ↦ rw (new, gather_roots) (rw e' (gather_roots-mem read cs roots x k m nz e))
        | inr (k', e') ↦
            rw (new, gather_roots) (rw e' (gather_roots-mem read cs (roots ++ c ∷ []) x k m nz e))
      ]
    ]
gather_roots-mem read (c ∷ cs) roots x k (inl same) nz e =
    elim (Bool-cases (bytes_eq c zero_id || contains roots c)) [
      | inl old ↦
          let nonzero = bytes_eq-false c zero_id (λ z. nz (same ∙ z)) in
          let there : contains roots c ≡ true = ground arith in
          rw (old, gather_roots)
            (gather_keeps read cs roots x
              (subst (λ y. Member y roots) (sym same) ((contains_iff roots c).0 there)))
      | inr new ↦
          let at : commit_at read c ≡ some k = subst (λ y. commit_at read y ≡ some k) same e in
          rw (new, gather_roots)
            (rw at (
              gather_keeps read cs (roots ++ c ∷ []) x
                ((Member-append x roots (c ∷ [])).1 (inr (inl same)))))
    ]

Reach-mono :
    (read : BaseId → Result Object) (r : BaseId) (roots : List BaseId) (x : BaseId)
    → Member r roots
    → Reach read (r ∷ []) x
    → Reach read roots x
Reach-mono read r roots x m (root (inl e)) = root (subst (λ y. Member y roots) (sym e) m)
Reach-mono read r roots x m (root (inr e)) = absurd e
Reach-mono read r roots x m (parent_of {u} h e p) = parent_of (Reach-mono read r roots u m h) e p
Reach-mono read r roots x m (tree_of {u} h e) = tree_of (Reach-mono read r roots u m h) e
Reach-mono read r roots x m (entry_of {t} h e p) = entry_of (Reach-mono read r roots t m h) e p

-- With no haves, everything that the roots refer to is enumerated.
reached :
    (codec : Codec) (fails : BaseId → Bool) (sort order : List BaseId → List BaseId)
    → ((x : BaseId) (xs : List BaseId) → Member x (sort xs) ↔ Member x xs)
    → ((x : BaseId) (xs : List BaseId) → Member x (order xs) ↔ Member x xs)
    → (fuel : ℕ) (roots : List BaseId) (files : Files) (ids : List BaseId) (x : BaseId)
    → IsHonest (read_on codec fails files) []
    → enumerate (read_on codec fails files) sort order fuel roots [] ≡ some (ok ids)
    → Reach (read_on codec fails files) roots x
    → Member x ids
reached codec fails sort order sorted ordered fuel roots files ids x honest e r =
    elim (enumerate_complete (read_on codec fails files) sort order (λ _. ⊥) fuel roots [] ids
      sorted ordered
      (record { parents = λ u p c h _ _. h; trees = λ u c h _. h; entries = λ t y es h _ _. h })
      (λ h m. m) honest e x r) [ inl m ↦ m | inr never ↦ absurd never ]

-- If no entry but a subtree is a tree or a commit, then, whatever the listing and the removals do,
-- `Collect` leaves the file of each object that a candidate for a root refers to over the objects
-- that can be read, if the candidate is not the zero identifier and can be read as a commit. A read
-- of an object may fail, then each time. A candidate whose read fails is no root, and nothing is
-- stated for what it alone refers to.
pub collect_keeps :
    (codec : Codec) (fails : BaseId → Bool) (sort order : List BaseId → List BaseId)
    → ((x : BaseId) (xs : List BaseId) → Member x (sort xs) ↔ Member x xs)
    → ((x : BaseId) (xs : List BaseId) → Member x (order xs) ↔ Member x xs)
    → (fuel : ℕ) (apply listed : Bool) (remove : BaseId → Removal) (candidates : List BaseId)
      (files files' : Files) (res : GcResult) (e : Option Error) (c x : BaseId) (k : Commit)
    → IsHonest (read_on codec fails files) []
    → collect codec fails sort order fuel apply listed remove candidates files
      ≡ some (files', res, e)
    → Member c candidates
    → c ≢ zero_id
    → commit_at (read_on codec fails files) c ≡ some k
    → Reach (read_on codec fails files) (c ∷ []) x
    → IsId x
    → lookup (object_path x) files' ≡ lookup (object_path x) files
unfolding collect
collect_keeps codec fails sort order sorted ordered fuel apply listed remove candidates files files'
      res e c x k honest run m nz at r is_id =
    let store = read_on codec fails files in
    let roots = gather_roots store candidates [] in
    let first = gather_roots-mem store candidates [] c k m nz at in
    elim (List-cases roots) [
      | inl none_left ↦ absurd (subst (Member c) none_left first)
      | inr (r₀, more, some_left) ↦
          let full : is_empty roots ≡ false = ap is_empty some_left in
          elim (Option-cases (enumerate store sort order fuel roots [])) [
            | inl q ↦ absurd (ground arith)
            | inr (out, q) ↦ elim (Result-cases out) [
              | inr (y, s) ↦
                  let same : files ≡ files' = ground arith in ap (lookup (object_path x)) (sym same)
              | inl (ids, s) ↦ elim (Bool-cases listed) [
                | inr l ↦
                    let same : files ≡ files' = ground arith in
                    ap (lookup (object_path x)) (sym same)
                | inl l ↦
                    let started = record no_result {
                      scanned = length (list_loose files);
                      reachable = length ids;
                    } in
                    let in_ids : Member x ids =
                      reached codec fails sort order sorted ordered fuel roots files ids x honest
                        (ground arith) (Reach-mono store c roots x first r) in
                    let same : (sweep apply remove ids (list_loose files) started files).0
                        ≡ files' =
                      ground arith in
                    ap (lookup (object_path x)) (sym same)
                    ∙ sweep_keeps apply remove ids (list_loose files) started files x
                        (list_loose-AreListed files) is_id ((contains_iff ids x).1 in_ids)
              ]
            ]
          ]
    ]
