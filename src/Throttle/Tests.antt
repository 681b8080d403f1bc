-- ===== src/Throttle/Tests.antt =====
-- internal/server/throttle.go: the theorems on a small limiter.
use vara.Base.{◌≡◌, ◌-◌, refl, false, [], ◌∷◌, arith, codes, leb, if◌then◌else◌, lookup, bytes_eq}
use vara.Throttle.{Settings, Limiter, wait, doubled, capped, delay}
use vara.Throttle.Laws.{wait-fail_all, fail_all, times_two, at_most}

abbrev settings : Settings
settings = record { free = 2; base = 30; max = 100; forget = 1000 }

abbrev empty : Limiter
empty = record { entries = []; last_sweep = 0 }

wait-fail_all_example :
    wait 20 (codes "k") (fail_all settings (codes "k") empty (5 ∷ 10 ∷ 20 ∷ []))
    ≡ (if leb 2 3 then at_most 100 (times_two (3 - 2) 30) else 0)
wait-fail_all_example =
    wait-fail_all settings (codes "k") 5 (10 ∷ 20 ∷ []) empty (omega arith) (omega arith) tt
      (unfold lookup in refl) (omega arith, (omega arith, tt))

-- With a base of 2^62 and a maximum of 2^63 - 1 the first doubling is negative.
wraps :
    delay
      (record { free = 1; base = 4611686018427387904; max = 9223372036854775807; forget = 1000 })
      2
    ≡ 9223372036854775808
unfolding delay doubled capped
wraps = refl

different : bytes_eq (codes "k") (codes "j") ≡ false
unfolding bytes_eq
different = refl
