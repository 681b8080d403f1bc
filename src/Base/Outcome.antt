-- ===== src/Base/Outcome.antt =====
-- internal/errors/errors.go: the typed errors, and results that may carry one. An error made in
-- place by `fmt.Errorf` with no typed error inside is `failure`.
use mathlib.Core.Path.{◌≡◌, refl}
use mathlib.Core.Bool.{Bool, true, false}
use mathlib.Core.Logic.{◌⊎◌, inl, inr}

pub data Error : Type 0 where
  repository_not_found invalid_object corrupt_index lock_timeout merge_conflict : Error
  ref_not_found object_not_found ref_validation : Error
  failure : Error

-- A result and the `error` beside it: `err` stands for every pair with an error that is not nil.
pub data Result {ℓ} (A : Type ℓ) : Type ℓ where
  err : Error → Result A
  ok : A → Result A

-- `if err != nil { return err }`, and the rest of the function.
infixl 10 ◌>>=◌
abbrev pub ◌>>=◌ {ℓ κ} : {A : Type ℓ} {B : Type κ} → Result A → (A → Result B) → Result B
◌>>=◌ (err e) rest = err e
◌>>=◌ (ok a) rest = rest a

pub Result-cases {ℓ} :
    {A : Type ℓ} (r : Result A) → ((a : A) × (r ≡ ok a)) ⊎ ((e : Error) × (r ≡ err e))
Result-cases (ok a) = inl (a, refl)
Result-cases (err e) = inr (e, refl)

pub ok-injective {ℓ} : {A : Type ℓ} {a b : A} → ok a ≡ ok b → a ≡ b
ok-injective h = cc h

-- `if !b { return e }`.
abbrev pub guard : Bool → Error → Result (Unit {0})
guard true e = ok tt
guard false e = err e
