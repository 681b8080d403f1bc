-- ===== src/Transfer/Steps.antt =====
-- pkg/transfer/enumerate.go: what each of the three steps of `Enumerate` marks.
use vara.Base.{
  ◌↔◌, ℕ, ◌≡◌, ◌⊎◌, inl, inr, refl, sym, true, none, some, List, [], ◌∷◌, arith, Member, contains,
  Option-cases, Result, ok, subst,
}
use vara.Hash.{BaseId}
use vara.Object.{Object, Commit, TreeEntry}
use vara.Transfer.{
  Marked, mark, Holds, commit_at, tree_at, walk_commits, add_tree, add_have_tree, add_haves,
  add_wants, add_commits,
}
use vara.Transfer.Walk.{IsClosed, walk_commits-IsClosed, walk_commits_sound}
use vara.Transfer.Trees.{
  IsHonest, IsIn, IsWhole, IsWhole-mono, Added, add_tree-Added, mark_more, mark_start, mark_self,
}
use vara.Transfer.TreesSound.{add_tree_within}

module _ (read : BaseId → Result Object) where
  -- A set of objects with all that they refer to.
  pub record IsDownward {ℓ} (P : BaseId → Type ℓ) : Type ℓ where
    pub parents :
        (u p : BaseId) (c : Commit) → P u → commit_at read u ≡ some c → Member p c.parents → P p
    pub trees : (u : BaseId) (c : Commit) → P u → commit_at read u ≡ some c → P c.tree_hash
    pub entries :
        (t y : BaseId) (es : List TreeEntry) → P t → tree_at read t ≡ some es → Holds es y → P y

  abbrev pub AllMarked {ℓ} : (BaseId → Type ℓ) → List BaseId → Type ℓ
  AllMarked P set = (x : BaseId) → contains set x ≡ true → P x

  have_tree_sound {ℓ} :
      (P : BaseId → Type ℓ)
      → IsDownward P
      → (fuel : ℕ) (h : BaseId) (objs objs' : List BaseId) → P h
      → AllMarked P objs
      → add_have_tree read fuel h objs ≡ some objs'
      → AllMarked P objs'
  unfolding add_have_tree
  have_tree_sound P down fuel h objs objs' p all e x m = elim (Option-cases (commit_at read h)) [
    | inl c ↦
        let same : objs ≡ objs' = ground arith in
        all x (subst (λ s. contains s x ≡ true) (sym same) m)
    | inr (k, c) ↦ elim (Option-cases (add_tree read fuel [] k.tree_hash objs)) [
      | inl t ↦ absurd (ground arith)
      | inr ((marked, e'), t) ↦
          let same : marked ≡ objs' = ground arith in
          elim (add_tree_within read [] P down.entries fuel k.tree_hash objs (marked, e')
            (down.trees h k p c) t x (subst (λ s. contains s x ≡ true) (sym same) m)) [
              | inl old ↦ all x old
              | inr new ↦ new
            ]
    ]
  ]

  walked_all {ℓ} :
      (P : BaseId → Type ℓ)
      → IsDownward P
      → (fuel : ℕ) (h : BaseId) (boundary : List BaseId) (out : Marked) → P h
      → AllMarked P boundary
      → walk_commits read fuel [] h boundary ≡ some out
      → AllMarked P out.0
  walked_all P down fuel h boundary out p all w x m =
      elim (walk_commits_sound read [] P down.parents fuel h boundary out p w x m) [
        | inl old ↦ all x old
        | inr new ↦ new
      ]

  pub haves_sound {ℓ} :
      (P : BaseId → Type ℓ)
      → IsDownward P
      → (fuel : ℕ) (hs boundary objs boundary' objs' : List BaseId)
      → ((h : BaseId) → Member h hs → P h)
      → AllMarked P boundary
      → AllMarked P objs
      → add_haves read fuel hs boundary objs ≡ some (boundary', objs')
      → AllMarked P boundary' × AllMarked P objs'
  unfolding add_haves
  haves_sound P down fuel [] boundary objs boundary' objs' has b o e =
      let s : boundary ≡ boundary' = ground arith in
      let t : objs ≡ objs' = ground arith in (subst (AllMarked P) s b, subst (AllMarked P) t o)
  haves_sound P down fuel (h ∷ hs) boundary objs boundary' objs' has b o e =
      let p = has h (inl refl) in
      let more = λ (x : BaseId) (m : Member x hs). has x (inr m) in
      elim (Option-cases (walk_commits read fuel [] h boundary)) [
        | inl w ↦ absurd (ground arith)
        | inr ((walked, some x), w) ↦
            haves_sound P down fuel hs walked objs boundary' objs' more
              (walked_all P down fuel h boundary (walked, some x) p b w) o (ground arith)
        | inr ((walked, none), w) ↦ elim (Option-cases (add_have_tree read fuel h objs)) [
          | inl t ↦ absurd (ground arith)
          | inr (marked, t) ↦
              haves_sound P down fuel hs walked marked boundary' objs' more
                (walked_all P down fuel h boundary (walked, none) p b w)
                (have_tree_sound P down fuel h objs marked p o t) (ground arith)
        ]
      ]

  pub wants-IsClosed :
      (fuel : ℕ) (boundary ws send send' : List BaseId)
      → AllMarked (IsClosed read boundary send) send
      → add_wants read fuel boundary ws send ≡ some (ok send')
      → ((x : BaseId) → contains send x ≡ true → contains send' x ≡ true)
        × ((w : BaseId) → Member w ws → (contains send' w ≡ true) ⊎ (contains boundary w ≡ true))
        × AllMarked (IsClosed read boundary send') send'
  unfolding add_wants
  wants-IsClosed fuel boundary [] send send' closed e =
      let same : send ≡ send' = ground arith in rw (← same) (λ x m. m, λ w m. absurd m, closed)
  wants-IsClosed fuel boundary (w ∷ ws) send send' closed e =
      elim (Option-cases (walk_commits read fuel boundary w send)) [
        | inl k ↦ absurd (ground arith)
        | inr ((walked, some x), k) ↦ absurd (ground arith)
        | inr ((walked, none), k) ↦
            let (grows, start, closed') =
              walk_commits-IsClosed read boundary fuel w send walked closed k in
            let (grows', all, closed'') =
              wants-IsClosed fuel boundary ws walked send' closed' (ground arith) in
            (
              λ x m. grows' x (grows x m),
              λ x m. elim m [
                | inr more ↦ all x more
                | inl eq ↦ elim start [
                  | inl s ↦ inl (grows' x (subst (λ y. contains walked y ≡ true) (sym eq) s))
                  | inr s ↦ inr (subst (λ y. contains boundary y ≡ true) (sym eq) s)
                ]
              ],
              closed'',
            )
      ]

  -- What step 3 has marked.
  pub record Collected (exclude cs objs objs' : List BaseId) : Type 0 where
    pub grows : (x : BaseId) → contains objs x ≡ true → contains objs' x ≡ true
    pub commits : (c : BaseId) → Member c cs → contains objs' c ≡ true
    pub trees :
        (c : BaseId) (k : Commit)
        → Member c cs
        → commit_at read c ≡ some k
        → IsIn read exclude objs' k.tree_hash
    pub whole :
        (x : BaseId)
        → contains objs' x ≡ true
        → (contains objs x ≡ true) ⊎ Member x cs ⊎ IsWhole read exclude objs' x

  Collected-cons :
      (exclude cs objs objs₁ objs' : List BaseId) (c : BaseId) (k : Commit)
      → commit_at read c ≡ some k
      → Added read exclude k.tree_hash (mark objs c) objs₁
      → Collected exclude cs objs₁ objs'
      → Collected exclude (c ∷ cs) objs objs'
  Collected-cons exclude cs objs objs₁ objs' c k e head rest =
      let tree_in : IsIn read exclude objs' k.tree_hash = elim head.target [
        | inl m ↦ inl (rest.grows k.tree_hash m)
        | inr m ↦ inr m
      ] in
      record {
        grows = λ x m. rest.grows x (head.grows x (mark_more objs c x m));
        commits = λ x m. elim m [
          | inr more ↦ rest.commits x more
          | inl eq ↦
              subst (λ y. contains objs' y ≡ true) (sym eq)
                (rest.grows c (head.grows c (mark_self objs c)))
        ];
        trees = λ x k' m e'. elim m [
          | inr more ↦ rest.trees x k' more e'
          | inl eq ↦
              let at : commit_at read c ≡ some k' = subst (λ y. commit_at read y ≡ some k') eq e' in
              let same : k ≡ k' = ground arith in
              subst (λ (d : Commit). IsIn read exclude objs' d.tree_hash) same tree_in
        ];
        whole = λ x m. elim (rest.whole x m) [
          | inr (inl more) ↦ inr (inl (inr more))
          | inr (inr w) ↦ inr (inr w)
          | inl old ↦ elim (head.whole x old) [
            | inr w ↦ inr (inr (IsWhole-mono read exclude objs₁ objs' x rest.grows w))
            | inl first ↦ elim (mark_start objs c x first) [
              | inl eq ↦ inr (inl (inl eq))
              | inr older ↦ inl older
            ]
          ]
        ];
      }

  pub commits-Collected :
      (exclude : List BaseId)
      → IsHonest read exclude
      → (fuel : ℕ) (cs objs objs' : List BaseId)
      → add_commits read fuel exclude cs objs ≡ some (ok objs')
      → Collected exclude cs objs objs'
  unfolding add_commits
  commits-Collected exclude honest fuel [] objs objs' e =
      let same : objs ≡ objs' = ground arith in
      rw (← same) (record {
        grows = λ x m. m;
        commits = λ c m. absurd m;
        trees = λ c k m e. absurd m;
        whole = λ x m. inl m;
      })
  commits-Collected exclude honest fuel (c ∷ cs) objs objs' e =
      elim (Option-cases (commit_at read c)) [
        | inl k ↦ absurd (ground arith)
        | inr (k, at) ↦ elim (Option-cases (add_tree read fuel exclude k.tree_hash (mark objs c))) [
          | inl t ↦ absurd (ground arith)
          | inr ((middle, some x), t) ↦ absurd (ground arith)
          | inr ((middle, none), t) ↦
              Collected-cons exclude cs objs middle objs' c k at
                (add_tree-Added read exclude honest fuel k.tree_hash (mark objs c) middle t)
                (commits-Collected exclude honest fuel cs middle objs' (ground arith))
        ]
      ]

  -- The order of the commits does not matter to what is collected.
  pub Collected-ordered :
      (exclude cs cs' objs objs' : List BaseId)
      → ((x : BaseId) → Member x cs ↔ Member x cs')
      → Collected exclude cs objs objs'
      → Collected exclude cs' objs objs'
  Collected-ordered exclude cs cs' objs objs' same got = record {
    grows = got.grows;
    commits = λ c m. got.commits c ((same c).1 m);
    trees = λ c k m e. got.trees c k ((same c).1 m) e;
    whole = λ x m. elim (got.whole x m) [
      | inl old ↦ inl old
      | inr (inl s) ↦ inr (inl ((same x).0 s))
      | inr (inr w) ↦ inr (inr w)
    ];
  }
