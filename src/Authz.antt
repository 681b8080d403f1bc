-- ===== src/Authz.antt =====
-- internal/authz: capabilities, policies and their files, the cache of policies, and the decision.
-- The JSON codec is a parameter, and so is what is found at the path of a policy file.
mod Laws
mod Tests
use vara.Base.{
  ℕ, ◌≡◌, Bool, true, false, ◌&&◌, Option, none, some, List, [], ◌∷◌, ◌++◌, ◌==◌, if◌then◌else◌,
  Bytes, codes, contains, lookup, insert, Error, Result, ok, err, failure,
}
use vara.Fsutil.{Files, WriteCalls, write_file}

abbrev pub Capability : Type 0
Capability = Bytes

-- `Known`, with the capabilities that management.go adds.
abbrev pub known : List Capability
known =
    codes "read"
    ∷ codes "create-ref"
    ∷ codes "push"
    ∷ codes "force-push"
    ∷ codes "delete-ref"
    ∷ codes "create-repo"
    ∷ codes "list-repos"
    ∷ codes "delete-repo"
    ∷ codes "rename-repo"
    ∷ codes "admin"
    ∷ codes "archive"
    ∷ codes "manage-accounts"
    ∷ []

unfoldable pub required_for_update : Bool → Bool → Bool → Capability
required_for_update old_zero new_zero force =
    if new_zero
    then codes "delete-ref"
    else if old_zero
    then codes "create-ref"
    else if force
    then codes "force-push"
    else codes "push"

-- The subjects and their capabilities: a `Policy`, and a `policyFile` too.
abbrev pub Policy : Type 0
Policy = List (Bytes × List Capability)

abbrev pub deny_all : Policy
deny_all = []

abbrev pub holds : Option (List Capability) → Capability → Bool
holds none wanted = false
holds (some caps) wanted = contains caps wanted

unfoldable pub allows : Policy → Bytes → Capability → Bool
allows policy subject wanted = holds (lookup subject policy) wanted

unfoldable pub all_known : List Capability → Bool
all_known [] = true
all_known (c ∷ caps) = contains known c && all_known caps

-- The loops of `LoadPolicy` and `WritePolicy` over the subjects.
unfoldable pub checked : Policy → Result Policy
checked [] = ok []
checked ((subject, caps) ∷ policy) = elim (checked policy) [
  | err e ↦ err e
  | ok rest ↦ if all_known caps then ok ((subject, caps) ∷ rest) else err failure
]

-- What `os.Stat` says of a policy file, with its modification time.
pub data Stat : Type 0 where
  absent : Stat
  broken : Stat
  present : ℕ → Stat

-- A policy file as one call finds it.
pub record Look : Type 0 where
  pub stat : Stat
  pub content : Option Bytes

-- encoding/json.
pub record Json : Type 0 where
  pub unmarshal : Bytes → Option Policy
  pub marshal : Policy → Bytes

abbrev pub Cache : Type 0
Cache = List (Bytes × (Policy × ℕ))

abbrev pub cached_policy : Option (Policy × ℕ) → Policy
cached_policy none = deny_all
cached_policy (some (policy, _)) = policy

abbrev pub is_fresh : Option (Policy × ℕ) → ℕ → Bool
is_fresh none time = false
is_fresh (some (_, loaded)) time = loaded == time

module _ (json : Json) where
  abbrev pub parsed : Option Policy → Result Policy
  parsed none = err failure
  parsed (some file) = checked file

  unfoldable pub load_policy : Option Bytes → Result Policy
  load_policy none = err failure
  load_policy (some content) = parsed (json.unmarshal content)

  -- The policy comes with an error or none.
  unfoldable pub policy_for : Look → Bytes → Cache → Cache × Policy × Option Error
  policy_for look repo cache = elim look.stat [
    | absent ↦ (cache, deny_all, none)
    | broken ↦ (cache, deny_all, some failure)
    | present time ↦
        let entry = lookup repo cache in
        if is_fresh entry time
        then (cache, cached_policy entry, none)
        else elim (load_policy look.content) [
          | err e ↦ (cache, cached_policy entry, some e)
          | ok policy ↦ (insert repo (policy, time) cache, policy, none)
        ]
  ]

  -- `Authorize`: whether it gives no `Denied`.
  unfoldable pub authorize : Look → Bytes → Capability → Bytes → Cache → Cache × Bool
  authorize look subject wanted repo cache =
      let (cache', policy, e) = policy_for look repo cache in (cache', allows policy subject wanted)

  unfoldable pub write_policy : ℕ → WriteCalls → Bytes → Policy → Files → Files × Option Error
  write_policy retries calls path subjects files = elim (checked subjects) [
    | err e ↦ (files, some e)
    | ok file ↦
        write_file retries calls (path ++ codes ".tmp") path (json.marshal file ++ 10 ∷ []) files
  ]
