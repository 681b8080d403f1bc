-- ===== src/Authz/Laws.antt =====
-- internal/authz: what a decision rests on.
use vara.Base.{
  ℕ, ◌≡◌, ◌⊎◌, ◌↔◌, inl, inr, refl, sym, ◌||◌, true, false, Option, none, some, List, [], ◌∷◌, ◌++◌,
  arith, Bytes, codes, contains, lookup, insert, lookup-insert, bytes_eq, bytes_eq_iff,
  bytes_eq_refl, Bool-cases, Option-cases, Result-cases, ok, err, failure,
}
use vara.Fsutil.{tmp_off, Files, WriteCalls, write_file, write_file_atomic}
use vara.Authz.{
  Capability, known, Policy, deny_all, allows, all_known, checked, Stat, absent, broken, present,
  Look, Json, Cache, load_policy, cached_policy, is_fresh, policy_for, authorize, write_policy,
}

-- Each capability that the policy grants is known.
abbrev pub IsClosed : Policy → Type 0
IsClosed policy =
    (subject wanted : Bytes) → allows policy subject wanted ≡ true → contains known wanted ≡ true

contains-nil : (wanted : Bytes) → contains [] wanted ≡ true → ⊥
unfolding contains
contains-nil wanted h = cc h

contains-cons :
    (c : Bytes) (caps : List Bytes) (wanted : Bytes)
    → contains (c ∷ caps) wanted ≡ (bytes_eq c wanted || contains caps wanted)
unfolding contains
contains-cons c caps wanted = refl

all_known-contains :
    (caps : List Capability) (wanted : Capability)
    → all_known caps ≡ true
    → contains caps wanted ≡ true
    → contains known wanted ≡ true
unfolding all_known
all_known-contains [] wanted a h = absurd (contains-nil wanted h)
all_known-contains (c ∷ caps) wanted a h =
    ground
      (arith, contains-cons c caps wanted, bytes_eq_iff c wanted, all_known-contains caps wanted)

-- A file is taken as it is, or not at all.
checked-eq : (file policy : Policy) → checked file ≡ ok policy → policy ≡ file
unfolding checked
checked-eq [] policy e = cc e
checked-eq ((s, caps) ∷ file) policy e = elim (Result-cases (checked file)) [
  | inr (x, r) ↦ absurd (ground arith)
  | inl (rest, r) ↦ let same = checked-eq file rest r in ground arith
]

checked-IsClosed : (file policy : Policy) → checked file ≡ ok policy → IsClosed file
unfolding checked allows lookup
checked-IsClosed [] policy e subject wanted a = absurd (cc a)
checked-IsClosed ((s, caps) ∷ file) policy e subject wanted a = elim (Result-cases (checked file)) [
  | inr (x, r) ↦ absurd (ground arith)
  | inl (rest, r) ↦ elim (Bool-cases (bytes_eq s subject)) [
    | inl here ↦ all_known-contains caps wanted (ground arith) (ground arith)
    | inr away ↦ checked-IsClosed file rest r subject wanted (ground arith)
  ]
]

Stat-cases : (s : Stat) → (s ≡ absent) ⊎ (s ≡ broken) ⊎ ((time : ℕ) × (s ≡ present time))
Stat-cases absent = inl refl
Stat-cases broken = inr (inl refl)
Stat-cases (present time) = inr (inr (time, refl))

allows-deny_all : (subject wanted : Bytes) → allows deny_all subject wanted ≡ false
unfolding allows lookup
allows-deny_all subject wanted = refl

module _ (json : Json) where
  load_policy-IsClosed :
      (content : Option Bytes) (policy : Policy)
      → load_policy json content ≡ ok policy
      → IsClosed policy
  unfolding load_policy
  load_policy-IsClosed none policy e = absurd (cc e)
  load_policy-IsClosed (some content) policy e = elim (Option-cases (json.unmarshal content)) [
    | inl u ↦ absurd (ground arith)
    | inr (file, u) ↦
        let c : checked file ≡ ok policy = ground arith in
        rw (checked-eq file policy c) (checked-IsClosed file policy c)
  ]

  -- `Authorize` on an empty cache allows exactly if the policy file is there, is read and parsed,
  -- names known capabilities only, and lists the capability for the subject.
  pub authorize_first :
      (look : Look) (subject wanted repo : Bytes)
      → ((authorize json look subject wanted repo []).1 ≡ true) ↔ (
          (time : ℕ) × (policy : Policy) × (look.stat ≡ present time)
          × (load_policy json look.content ≡ ok policy)
          × (allows policy subject wanted ≡ true))
  unfolding authorize policy_for
  authorize_first look subject wanted repo =
      let empty = allows-deny_all subject wanted in
      elim (Stat-cases look.stat) [
        | inl e ↦ (λ a. absurd (ground arith), λ (time, policy, p, l, a). absurd (cc (e, p)))
        | inr (inl e) ↦ (λ a. absurd (ground arith), λ (time, policy, p, l, a). absurd (cc (e, p)))
        | inr (inr (time, e)) ↦ elim (Result-cases (load_policy json look.content)) [
          | inr (x, r) ↦ (
            λ a. absurd (unfold lookup in ground arith),
            λ (time', policy, p, l, a). absurd (cc (r, l)),
          )
          | inl (policy, r) ↦ (
            λ a. (time, policy, e, r, unfold lookup in ground arith),
            λ (time', policy', p, l, a).
                let same : policy ≡ policy' = ground arith in unfold lookup in ground arith,
          )
        ]
      ]

  -- The decisions on a repository from one look at its file to the next.
  abbrev pub cache_after : List Look → Bytes → Cache → Cache
  cache_after [] repo cache = cache
  cache_after (look ∷ looks) repo cache = cache_after looks repo (policy_for json look repo cache).0

  -- The file is there and does not load: an edit has broken it.
  abbrev pub AreBroken : List Look → Type 0
  AreBroken [] = Unit {0}
  AreBroken (look ∷ looks) =
      ((time : ℕ) × (look.stat ≡ present time))
      × (load_policy json look.content ≡ err failure)
      × AreBroken looks

  policy_for_broken :
      (look : Look) (repo : Bytes) (cache : Cache) (policy : Policy) (loaded time : ℕ)
      → lookup repo cache ≡ some (policy, loaded)
      → look.stat ≡ present time
      → load_policy json look.content ≡ err failure
      → ((policy_for json look repo cache).0 ≡ cache)
        × ((policy_for json look repo cache).1 ≡ policy)
  unfolding policy_for
  policy_for_broken look repo cache policy loaded time c p l = ground arith

  -- While each look at the file of a repository finds one that does not load, the decisions are
  -- those of the policy that was cached before the first.
  pub authorize_broken :
      (looks : List Look) (look : Look) (subject wanted repo : Bytes) (cache : Cache)
      (policy : Policy) (loaded : ℕ)
      → lookup repo cache ≡ some (policy, loaded)
      → AreBroken looks
      → AreBroken (look ∷ [])
      → (authorize json look subject wanted repo (cache_after looks repo cache)).1
        ≡ allows policy subject wanted
  unfolding authorize
  authorize_broken [] look subject wanted repo cache policy loaded c b ((time, p), l, _) =
      ground (arith, policy_for_broken look repo cache policy loaded time c p l)
  authorize_broken (k ∷ looks) look subject wanted repo cache policy loaded c ((time, p), l, b) b' =
      let step = policy_for_broken k repo cache policy loaded time c p l in
      rw step.0 (authorize_broken looks look subject wanted repo cache policy loaded c b b')

  -- If the JSON codec reads the policy back from what it writes with a newline behind it, then after a WritePolicy
  -- without an error, LoadPolicy gives the policy that was written, and it grants known
  -- capabilities only.
  pub load_policy-write_policy :
      (retries : ℕ) (calls : WriteCalls) (path : Bytes) (policy : Policy) (files : Files)
      → json.unmarshal (json.marshal policy ++ 10 ∷ []) ≡ some policy
      → (write_policy json retries calls path policy files).1 ≡ none
      → (load_policy json (lookup path (write_policy json retries calls path policy files).0)
          ≡ ok policy)
        × IsClosed policy
  unfolding write_policy load_policy
  load_policy-write_policy retries calls path policy files codec e =
      elim (Result-cases (checked policy)) [
        | inr (x, r) ↦ absurd (ground arith)
        | inl (file, r) ↦
            let same = checked-eq policy file r in
            let content = json.marshal file ++ 10 ∷ [] in
            elim (write_file_atomic retries calls (path ++ codes ".tmp") path content path files
              (tmp_off path)) [
                | inr (failed, at) ↦ absurd (ground arith)
                | inl (done, at) ↦
                    let read : lookup path
                          (write_file retries calls (path ++ codes ".tmp") path content files).0
                        ≡ some content =
                      ground (arith, bytes_eq_refl path) in
                    (ground (arith, codec), checked-IsClosed policy file r)
              ]
      ]

  cached-IsClosed :
      (repo : Bytes) (cache : Cache)
      → ((other : Bytes) (policy : Policy) (time : ℕ)
          → lookup other cache ≡ some (policy, time)
          → IsClosed policy)
      → IsClosed (cached_policy (lookup repo cache))
  cached-IsClosed repo cache sound = elim (Option-cases (lookup repo cache)) [
    | inl e ↦ rw e (λ s c a. absurd (ground (arith, allows-deny_all s c)))
    | inr ((policy, time), e) ↦ rw e (sound repo policy time e)
  ]

  insert_sound :
      (repo : Bytes) (cache : Cache) (policy : Policy) (time : ℕ)
      → ((other : Bytes) (p : Policy) (t : ℕ) → lookup other cache ≡ some (p, t) → IsClosed p)
      → IsClosed policy
      → (other : Bytes) (p : Policy) (t : ℕ)
      → lookup other (insert repo (policy, time) cache) ≡ some (p, t)
      → IsClosed p
  insert_sound repo cache policy time sound closed other p t e =
      let at = lookup-insert repo other (policy, time) cache in
      elim (Bool-cases (bytes_eq repo other)) [
        | inl here ↦ let same : policy ≡ p = ground arith in rw (sym same) closed
        | inr away ↦ sound other p t (ground arith)
      ]

  -- If every cached policy grants known capabilities only, then so does every cached policy after
  -- `PolicyFor`, and the policy that it gives.
  pub policy_for-IsClosed :
      (look : Look) (repo : Bytes) (cache : Cache)
      → ((other : Bytes) (policy : Policy) (time : ℕ)
          → lookup other cache ≡ some (policy, time)
          → IsClosed policy)
      → ((other : Bytes) (policy : Policy) (time : ℕ)
          → lookup other (policy_for json look repo cache).0 ≡ some (policy, time)
          → IsClosed policy)
        × IsClosed (policy_for json look repo cache).1
  unfolding policy_for
  policy_for-IsClosed look repo cache sound =
      let denied : IsClosed deny_all = λ s c a. absurd (ground (arith, allows-deny_all s c)) in
      let entry : IsClosed (cached_policy (lookup repo cache)) = cached-IsClosed repo cache sound in
      elim (Stat-cases look.stat) [
        | inl e ↦ rw e (sound, denied)
        | inr (inl e) ↦ rw e (sound, denied)
        | inr (inr (time, e)) ↦ elim (Bool-cases (is_fresh (lookup repo cache) time)) [
          | inl fresh ↦ rw (e, fresh) (sound, entry)
          | inr stale ↦ elim (Result-cases (load_policy json look.content)) [
            | inr (x, r) ↦ rw (e, stale, r) (sound, entry)
            | inl (policy, r) ↦
                let closed = load_policy-IsClosed look.content policy r in
                rw (e, stale, r) (insert_sound repo cache policy time sound closed, closed)
          ]
        ]
      ]
