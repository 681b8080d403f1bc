-- ===== src/Diff/Files.antt =====
-- pkg/diff/diff.go: the files that a tree has, and what the loop of `collectFiles` adds of them.
use vara.Base.{
  ◌≡◌, ◌⊎◌, inl, inr, refl, sym, ap, ◌∙◌, true, false, Option, some, List, [], ◌∷◌, ◌++◌, ◌==◌,
  arith, Bytes, bytes_eq, bytes_eq_iff, lookup, insert, lookup-insert, Bool-cases, Option-cases,
  Result-cases, Result, ok, subst,
}
use vara.Hash.{BaseId}
use vara.Object.{Object, TreeEntry, tree}
use vara.Diff.Trees.{FileMap, tree_entries, collect_entries}

abbrev pub Entry : TreeEntry → List TreeEntry → Type 0
Entry e [] = ⊥
Entry e (x ∷ xs) = (e ≡ x) ⊎ Entry e xs

-- The tree has a file with this blob under this path: an entry that is no subtree, or a file of a
-- subtree, behind the subtree's name and a slash.
pub data InTree (read : BaseId → Result Object) : BaseId → Bytes → BaseId → Type 0 where
  file :
      {id : BaseId} (es : List TreeEntry) (e : TreeEntry)
      → read id ≡ ok (tree es)
      → Entry e es
      → (e.mode == 0x4000) ≡ false
      → InTree read id e.name e.hash
  within :
      {id b : BaseId} {p : Bytes} (es : List TreeEntry) (e : TreeEntry)
      → read id ≡ ok (tree es)
      → Entry e es
      → (e.mode == 0x4000) ≡ true
      → InTree read e.hash p b
      → InTree read id (e.name ++ b'/' ∷ p) b

-- The map has a blob under the path.
abbrev pub Has : Bytes → FileMap → Type 0
Has p m = (b : BaseId) × (lookup p m ≡ some b)

abbrev pub Grows : FileMap → FileMap → Type 0
Grows m m' = (p : Bytes) → Has p m → Has p m'

Has-insert : (p : Bytes) (b : BaseId) (m : FileMap) → Has p (insert p b m)
Has-insert p b m = (b, ground (arith, lookup-insert p p b m, bytes_eq_iff p p))

Grows-insert : (p : Bytes) (b : BaseId) (m : FileMap) → Grows m (insert p b m)
Grows-insert p b m q (c, at) = elim (Bool-cases (bytes_eq p q)) [
  | inl here ↦ (b, ground (arith, lookup-insert p q b m))
  | inr away ↦ (c, ground (arith, lookup-insert p q b m))
]

lookup-insert_cases :
    (p q : Bytes) (b c : BaseId) (m : FileMap)
    → lookup q (insert p b m) ≡ some c
    → (lookup q m ≡ some c) ⊎ ((q ≡ p) × (c ≡ b))
lookup-insert_cases p q b c m at = elim (Bool-cases (bytes_eq p q)) [
  | inl here ↦
      inr (sym ((bytes_eq_iff p q).0 here), sym (some_inj (ground (arith, lookup-insert p q b m))))
  | inr away ↦ inl (ground (arith, lookup-insert p q b m))
]
  where
    some_inj : {x y : BaseId} → some x ≡ some y → x ≡ y
    some_inj h = cc h

pub entries_of :
    (r : Result Object) (es : List TreeEntry) → tree_entries r ≡ ok es → r ≡ ok (tree es)
entries_of r es e = ground arith

-- The loop behind an entry that is a subtree, with what its recursive call leaves.
under_subtree :
    (sub : BaseId → Bytes → FileMap → Option (Result FileMap)) (prefix : Bytes) (e : TreeEntry)
    (es : List TreeEntry) (m m' : FileMap)
    → (e.mode == 0x4000) ≡ true
    → collect_entries sub prefix (e ∷ es) m ≡ some (ok m')
    → (m₁ : FileMap) × (sub e.hash ((prefix ++ e.name) ++ b'/' ∷ []) m ≡ some (ok m₁))
      × (collect_entries sub prefix es m₁ ≡ some (ok m'))
unfolding collect_entries
under_subtree sub prefix e es m m' dir run =
    elim (Option-cases (sub e.hash ((prefix ++ e.name) ++ b'/' ∷ []) m)) [
      | inl out ↦ absurd (ground arith)
      | inr (r, out) ↦ elim (Result-cases r) [
        | inr (x, q) ↦ absurd (ground arith)
        | inl (m₁, q) ↦ (m₁, out ∙ ap some q, ground arith)
      ]
    ]

-- The same behind any other entry.
under_file :
    (sub : BaseId → Bytes → FileMap → Option (Result FileMap)) (prefix : Bytes) (e : TreeEntry)
    (es : List TreeEntry) (m m' : FileMap)
    → (e.mode == 0x4000) ≡ false
    → collect_entries sub prefix (e ∷ es) m ≡ some (ok m')
    → collect_entries sub prefix es (insert (prefix ++ e.name) e.hash m) ≡ some (ok m')
unfolding collect_entries
under_file sub prefix e es m m' no_dir run = ground arith

module _ (read : BaseId → Result Object) where
  -- A call that leaves every path of the map, and adds only files of the tree.
  abbrev pub Adds : BaseId → Bytes → FileMap → FileMap → Type 0
  Adds id prefix m m' =
      Grows m m'
      × ((p : Bytes) (b : BaseId)
          → lookup p m' ≡ some b
          → (lookup p m ≡ some b) ⊎ ((q : Bytes) × (p ≡ prefix ++ q) × InTree read id q b))

  -- A file that an entry of the list gives.
  abbrev pub FromEntries : Bytes → List TreeEntry → Bytes → BaseId → Type 0
  FromEntries prefix es p b =
      (e : TreeEntry) × Entry e es
      × (((e.mode == 0x4000) ≡ false) × (p ≡ prefix ++ e.name) × (b ≡ e.hash)
          ⊎ ((e.mode == 0x4000) ≡ true)
            × (q : Bytes) × (p ≡ ((prefix ++ e.name) ++ b'/' ∷ []) ++ q)
            × InTree read e.hash q b)

  abbrev pub EntriesAdd : Bytes → List TreeEntry → FileMap → FileMap → Type 0
  EntriesAdd prefix es m m' =
      Grows m m'
      × ((p : Bytes) (b : BaseId)
          → lookup p m' ≡ some b
          → (lookup p m ≡ some b) ⊎ FromEntries prefix es p b)

  module _ (sub : BaseId → Bytes → FileMap → Option (Result FileMap))
      (adds : (id : BaseId) (prefix : Bytes) (m m' : FileMap)
        → sub id prefix m ≡ some (ok m')
        → Adds id prefix m m') where
    pub collect_entries-Add :
        (prefix : Bytes) (es : List TreeEntry) (m m' : FileMap)
        → collect_entries sub prefix es m ≡ some (ok m')
        → EntriesAdd prefix es m m'
    unfolding collect_entries
    collect_entries-Add prefix [] m m' run =
        let same : m ≡ m' = ground arith in
        subst (EntriesAdd prefix [] m) same ((λ p h. h), (λ p b at. inl at))
    collect_entries-Add prefix (e ∷ es) m m' run = elim (Bool-cases (e.mode == 0x4000)) [
      | inr no_dir ↦
          let m₁ = insert (prefix ++ e.name) e.hash m in
          let (grows, from) =
            collect_entries-Add prefix es m₁ m' (under_file sub prefix e es m m' no_dir run) in
          (
            λ p h. grows p (Grows-insert (prefix ++ e.name) e.hash m p h),
            λ p b at. elim (from p b at) [
              | inr (x, member, how) ↦ inr (x, inr member, how)
              | inl now ↦ elim (lookup-insert_cases (prefix ++ e.name) p e.hash b m now) [
                | inl before ↦ inl before
                | inr (path, blob) ↦ inr (e, inl refl, inl (no_dir, path, blob))
              ]
            ],
          )
      | inl dir ↦
          let (m₁, call, rest) = under_subtree sub prefix e es m m' dir run in
          let (grown, added) = adds e.hash ((prefix ++ e.name) ++ b'/' ∷ []) m m₁ call in
          let (grows, from) = collect_entries-Add prefix es m₁ m' rest in
          (
            λ p h. grows p (grown p h),
            λ p b at. elim (from p b at) [
              | inr (x, member, how) ↦ inr (x, inr member, how)
              | inl now ↦ elim (added p b now) [
                | inl before ↦ inl before
                | inr (q, path, there) ↦ inr (e, inl refl, inr (dir, q, path, there))
              ]
            ],
          )
    ]

    -- Every file entry is in the map then, and every subtree was collected into a part of it.
    pub collect_entries-reaches :
        (prefix : Bytes) (es : List TreeEntry) (e : TreeEntry) (m m' : FileMap)
        → Entry e es
        → collect_entries sub prefix es m ≡ some (ok m')
        → ((e.mode == 0x4000) ≡ false) × Has (prefix ++ e.name) m'
          ⊎ (m₁ : FileMap) × (m₂ : FileMap) × (sub e.hash ((prefix ++ e.name) ++ b'/' ∷ []) m₁
              ≡ some (ok m₂))
            × ((e.mode == 0x4000) ≡ true)
            × Grows m₂ m'
    collect_entries-reaches prefix [] e m m' member run = absurd member
    collect_entries-reaches prefix (x ∷ es) e m m' (inl here) run =
        elim (Bool-cases (x.mode == 0x4000)) [
          | inr no_dir ↦
              let m₁ = insert (prefix ++ x.name) x.hash m in
              let rest =
                collect_entries-Add prefix es m₁ m' (under_file sub prefix x es m m' no_dir run) in
              rw here (inl (no_dir, rest.0 (prefix ++ x.name) (Has-insert _ x.hash m)))
          | inl dir ↦
              let (m₁, call, rest) = under_subtree sub prefix x es m m' dir run in
              rw here (inr (m, m₁, call, dir, (collect_entries-Add prefix es m₁ m' rest).0))
        ]
    collect_entries-reaches prefix (x ∷ es) e m m' (inr later) run =
        elim (Bool-cases (x.mode == 0x4000)) [
          | inr no_dir ↦
              collect_entries-reaches prefix es e (insert (prefix ++ x.name) x.hash m) m' later
                (under_file sub prefix x es m m' no_dir run)
          | inl dir ↦
              let (m₁, call, rest) = under_subtree sub prefix x es m m' dir run in
              collect_entries-reaches prefix es e m₁ m' later rest
        ]
