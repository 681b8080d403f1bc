-- ===== src/Authz/Tests.antt =====
-- internal/authz: the theorems on a small policy.
use vara.Base.{
  ℕ, ◌≡◌, refl, true, none, some, [], ◌∷◌, ◌++◌, if◌then◌else◌, Bytes, codes, bytes_eq, lookup,
  contains, ok, err, failure,
}
use vara.Fsutil.{WriteCalls, rename_from, rename_file, write_file}
use vara.Authz.{
  Policy, Look, Json, Cache, present, checked, all_known, allows, load_policy, authorize,
  write_policy,
}
use vara.Authz.Laws.{authorize_broken, IsClosed, cache_after}

abbrev team : Policy
team = (codes "ann", codes "read" ∷ codes "push" ∷ []) ∷ (codes "bob", codes "read" ∷ []) ∷ []

-- A codec that knows the one policy.
abbrev team_json : Json
team_json = record {
  unmarshal = λ s. if bytes_eq s (codes "team" ++ 10 ∷ []) then some team else none;
  marshal = λ p. codes "team";
}

abbrev good : Look
good = record { stat = present 5; content = some (codes "team" ++ 10 ∷ []) }

abbrev torn : Look
torn = record { stat = present 6; content = some (codes "te") }

load-good : load_policy team_json good.content ≡ ok team
unfolding load_policy checked all_known contains bytes_eq
load-good = refl

load-torn : load_policy team_json torn.content ≡ err failure
unfolding load_policy bytes_eq
load-torn = refl

abbrev team_cache : Cache
team_cache = (codes "repo", (team, 5)) ∷ []

lookup-team_cache : lookup (codes "repo") team_cache ≡ some (team, 5)
unfolding lookup bytes_eq
lookup-team_cache = refl

authorize_broken_example :
    (authorize team_json torn
      (codes "ann")
      (codes "push")
      (codes "repo")
      (cache_after team_json (torn ∷ torn ∷ []) (codes "repo") team_cache)).1
    ≡ allows team (codes "ann") (codes "push")
authorize_broken_example =
    authorize_broken team_json (torn ∷ torn ∷ []) torn (codes "ann") (codes "push") (codes "repo")
      team_cache team 5 lookup-team_cache ((6, refl), load-torn, ((6, refl), load-torn, tt))
      ((6, refl), load-torn, tt)

abbrev calls : WriteCalls
calls = record {
  open_ = true;
  write = none;
  sync = none;
  close = none;
  rename = λ i. true;
  left_over = none;
}

unmarshal-team : team_json.unmarshal (codes "team" ++ 10 ∷ []) ≡ some team
unfolding bytes_eq
unmarshal-team = refl

write-team : (write_policy team_json 0 calls (codes "p") team []).1 ≡ none
unfolding write_policy write_file checked all_known contains bytes_eq rename_file rename_from
write-team = refl

nothing_cached :
    (other : Bytes) (policy : Policy) (time : ℕ)
    → lookup {V = Policy × ℕ} other [] ≡ some (policy, time)
    → IsClosed policy
unfolding lookup
nothing_cached other policy time e = absurd (cc e)
