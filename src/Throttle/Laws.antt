-- ===== src/Throttle/Laws.antt =====
-- internal/server/throttle.go: how long a key waits.
use vara.Base.{
  ℕ, zero, suc, ◌+◌, ◌-◌, ◌*◌, ◌%◌, ◌<◌, ◌≤◌, ◌≡◌, refl, sym, false, Option, none, some, List, [],
  ◌∷◌, arith, ltb, leb, if◌then◌else◌, Bytes, length, lookup, insert, subst, lookup-insert,
  bytes_eq, bytes_eq_iff, bytes_eq_refl, Bool-cases, inl, inr, Option-cases,
}
use vara.Throttle.{
  minute, Failure, Settings, Limiter, wait, wait_of, doubled, capped, delay, is_old, drop_old,
  sweep, current, counted, fail, int64_size, int64_half, less, add_duration,
}

abbrev pub at_most : ℕ → ℕ → ℕ
at_most max d = if ltb max d then max else d

-- `base * 2 ^ rounds`.
abbrev pub times_two : ℕ → ℕ → ℕ
times_two zero d = d
times_two (suc rounds) d = times_two rounds (d * 2)

times_two-ge : (rounds d : ℕ) → d ≤ times_two rounds d
times_two-ge zero d = omega arith
times_two-ge (suc rounds) d = omega (arith, times_two-ge rounds (d * 2))

-- The largest maximum below which no doubling wraps.
abbrev pub quarter : ℕ
quarter = 4611686018427387904

less-ltb : (d e : ℕ) → d < int64_half → e < int64_half → less d e ≡ ltb d e
less-ltb d e a b = ground arith

no_wrap : (d : ℕ) → d < quarter → d * 2 % int64_size ≡ d * 2
no_wrap d h = omega arith

capped-doubled :
    (max rounds d : ℕ)
    → max ≤ quarter
    → d < int64_half
    → capped max (doubled max rounds d) ≡ at_most max (times_two rounds d)
unfolding doubled capped
capped-doubled max zero d le h = rw (less-ltb max d (omega arith) h) refl
capped-doubled max (suc rounds) d le h = elim (Bool-cases (ltb d max)) [
  | inl below ↦
      let small : d < max = ground arith in
      rw (less-ltb d max h (omega arith), below, no_wrap d (omega arith))
        (capped-doubled max rounds (d * 2) le (omega arith))
  | inr above ↦
      rw (less-ltb d max h (omega arith), above, less-ltb max d (omega arith) h)
        (ground (arith, times_two-ge rounds (d * 2)))
]

-- The wait after the `count`-th failure is the base doubled once for each failure over the free
-- ones, up to the maximum, where the maximum is at most 2^62 and the base is an int64.
pub delay_lem :
    (s : Settings) (count : ℕ)
    → s.max ≤ quarter
    → s.base < int64_half
    → delay s count ≡ at_most s.max (times_two (count - s.free) s.base)
unfolding delay
delay_lem s count le h = capped-doubled s.max (count - s.free) s.base le h

add_duration-small : (now d : ℕ) → d < int64_half → add_duration now d ≡ now + d
unfolding add_duration
add_duration-small now d h = ground arith

-- A key occurs once.
abbrev pub IsMap : List (Bytes × Failure) → Type 0
IsMap [] = Unit {0}
IsMap ((k, f) ∷ entries) = (lookup k entries ≡ none) × IsMap entries

abbrev kept : Settings → ℕ → Option Failure → Option Failure
kept s now none = none
kept s now (some f) = if is_old s now f then none else some f

lookup-drop_old :
    (s : Settings) (now : ℕ) (key : Bytes) (entries : List (Bytes × Failure))
    → IsMap entries
    → lookup key (drop_old s now entries) ≡ kept s now (lookup key entries)
unfolding drop_old lookup
lookup-drop_old s now key [] m = refl
lookup-drop_old s now key ((k, f) ∷ entries) (new, m) =
    let rest = lookup-drop_old s now key entries m in
    elim (Bool-cases (bytes_eq k key)) [
      | inr away ↦ ground arith
      | inl here ↦
          let same = (bytes_eq_iff k key).0 here in
          let gone : lookup key entries ≡ none = cc (same, new) in ground arith
    ]

drop_old-IsMap :
    (s : Settings) (now : ℕ) (entries : List (Bytes × Failure))
    → IsMap entries
    → IsMap (drop_old s now entries)
unfolding drop_old
drop_old-IsMap s now [] m = tt
drop_old-IsMap s now ((k, f) ∷ entries) (new, m) =
    let rest = drop_old-IsMap s now entries m in
    let out : lookup k (drop_old s now entries) ≡ none =
      ground (arith, lookup-drop_old s now k entries m) in
    elim (Bool-cases (is_old s now f)) [ inl old ↦ rw old rest | inr new ↦ rw new (out, rest) ]

insert-IsMap :
    (key : Bytes) (f : Failure) (entries : List (Bytes × Failure))
    → IsMap entries
    → IsMap (insert key f entries)
unfolding insert
insert-IsMap key f [] m = (unfold lookup in refl, tt)
insert-IsMap key f ((k, g) ∷ entries) (new, m) = elim (Bool-cases (bytes_eq k key)) [
  | inl here ↦ let same = (bytes_eq_iff k key).0 here in rw here (rw (sym same) new, m)
  | inr away ↦
      let off : bytes_eq key k ≡ false = ground (arith, bytes_eq_iff k key, bytes_eq_iff key k) in
      rw away (ground (arith, lookup-insert key k f entries), insert-IsMap key f entries m)
]

sweep-IsMap :
    (s : Settings) (now : ℕ) (l : Limiter) → IsMap l.entries → IsMap (sweep s now l).entries
unfolding sweep
sweep-IsMap s now l m = elim (Bool-cases (ltb (now - l.last_sweep) minute)) [
  | inl soon ↦ rw soon m
  | inr due ↦ rw due (drop_old-IsMap s now l.entries m)
]

-- A sweep takes only what is forgotten.
current-sweep :
    (s : Settings) (now : ℕ) (key : Bytes) (l : Limiter)
    → IsMap l.entries
    → current s now (lookup key (sweep s now l).entries) ≡ current s now (lookup key l.entries)
unfolding sweep current
current-sweep s now key l m = elim (Option-cases (lookup key l.entries)) [
  | inl e ↦ ground (arith, lookup-drop_old s now key l.entries m)
  | inr (f, e) ↦ ground (arith, lookup-drop_old s now key l.entries m)
]

-- Failures of a key at the given times.
abbrev pub fail_all : Settings → Bytes → Limiter → List ℕ → Limiter
fail_all s key l [] = l
fail_all s key l (t ∷ ts) = fail_all s key (fail s t key l) ts

-- Each time is no more than `forget` after the one before.
abbrev pub IsSpaced : Settings → ℕ → List ℕ → Type 0
IsSpaced s t [] = Unit {0}
IsSpaced s t (u ∷ us) = (u - t ≤ s.forget) × IsSpaced s u us

abbrev pub last_of : ℕ → List ℕ → ℕ
last_of t [] = t
last_of t (u ∷ us) = last_of u us

-- A key with `n` failures in a row, the last one at `t`.
record Failed (s : Settings) (key : Bytes) (n t : ℕ) (l : Limiter) : Type 0 where
  failure : Failure
  found : lookup key l.entries ≡ some failure
  number : failure.count ≡ n
  at : failure.last ≡ t
  blocked : failure.until ≡ (if leb s.free n then add_duration t (delay s n) else 0)

recorded :
    (s : Settings) (key : Bytes) (u : ℕ) (l : Limiter)
    → IsMap l.entries
    → lookup key (fail s u key l).entries ≡ some (counted s u (current s u (lookup key l.entries)))
unfolding fail
recorded s key u l m =
    let swept = current-sweep s u key l m in
    ground (
      arith,
      bytes_eq_refl key,
      lookup-insert key key (counted s u (current s u (lookup key (sweep s u l).entries)))
          (sweep s u l).entries,
    )

fail-IsMap :
    (s : Settings) (u : ℕ) (key : Bytes) (l : Limiter)
    → IsMap l.entries
    → IsMap (fail s u key l).entries
unfolding fail
fail-IsMap s u key l m =
    insert-IsMap key (counted s u (current s u (lookup key (sweep s u l).entries)))
      (sweep s u l).entries (sweep-IsMap s u l m)

first-Failed :
    (s : Settings) (key : Bytes) (u : ℕ) (l : Limiter)
    → IsMap l.entries
    → lookup key l.entries ≡ none
    → Failed s key 1 u (fail s u key l)
unfolding counted current
first-Failed s key u l m e = record {
  failure = counted s u (record { count = 0; last = 0; until = 0 });
  found = ground (arith, recorded s key u l m);
  number = refl;
  at = refl;
  blocked = ground arith;
}

fail-Failed :
    (s : Settings) (key : Bytes) (n t u : ℕ) (l : Limiter)
    → IsMap l.entries
    → Failed s key n t l
    → u - t ≤ s.forget
    → Failed s key (n + 1) u (fail s u key l)
unfolding counted
fail-Failed s key n t u l m f le =
    let same : current s u (lookup key l.entries) ≡ f.failure =
      unfold current is_old in ground (arith, f.found, f.at) in
    record {
      failure = counted s u f.failure;
      found = ground (arith, recorded s key u l m);
      number = ground (arith, f.number);
      at = refl;
      blocked = ground (arith, f.number, f.blocked);
    }

fail_all-Failed :
    (s : Settings) (key : Bytes) (ts : List ℕ) (n t : ℕ) (l : Limiter)
    → IsMap l.entries
    → Failed s key n t l
    → IsSpaced s t ts
    → Failed s key (n + length ts) (last_of t ts) (fail_all s key l ts)
fail_all-Failed s key [] n t l m f sp =
    let e : n ≡ n + 0 = omega arith in subst (λ x. Failed s key x t l) e f
fail_all-Failed s key (u ∷ us) n t l m f (le, sp) =
    let e : n + 1 + length us ≡ n + length (u ∷ us) = omega arith in
    subst (λ x. Failed s key x (last_of u us) (fail_all s key (fail s u key l) us)) e
      (fail_all-Failed s key us (n + 1) u (fail s u key l) (fail-IsMap s u key l m)
        (fail-Failed s key n t u l m f le) sp)

-- In a table with each key once and none for this one, after failures each of which comes no more
-- than `forget` after the one before, the key has to wait from the last one on: not at all if they
-- are fewer than `free`, and otherwise the base doubled once for each failure over the free ones,
-- up to the maximum. The maximum is at most 2^62 nanoseconds, so that the doubling does not wrap,
-- and the base is an int64 that is not negative.
pub wait-fail_all :
    (s : Settings) (key : Bytes) (t : ℕ) (ts : List ℕ) (l : Limiter)
    → s.max ≤ quarter
    → s.base < int64_half
    → IsMap l.entries
    → lookup key l.entries ≡ none
    → IsSpaced s t ts
    → wait (last_of t ts) key (fail_all s key l (t ∷ ts)) ≡ (
        if leb s.free (length (t ∷ ts))
        then at_most s.max (times_two (length (t ∷ ts) - s.free) s.base)
        else 0)
unfolding wait wait_of
wait-fail_all s key t ts l le h m e sp =
    let f =
      fail_all-Failed s key ts 1 t (fail s t key l) (fail-IsMap s t key l m)
        (first-Failed s key t l m e) sp in
    let n : 1 + length ts ≡ length (t ∷ ts) = omega arith in
    let d = delay_lem s (1 + length ts) le h in
    let added = add_duration-small (last_of t ts) (delay s (1 + length ts)) (rw d (ground arith)) in
    ground (arith, f.found, f.blocked, n, d, added)

-- In a table with each key once, a failure of one key does not change the failures that are counted
-- for another key at that time, and each key is still there once.
pub fail-other :
    (s : Settings) (now : ℕ) (key other : Bytes) (l : Limiter)
    → IsMap l.entries
    → bytes_eq key other ≡ false
    → IsMap (fail s now key l).entries
      × (current s now (lookup other (fail s now key l).entries)
          ≡ current s now (lookup other l.entries))
fail-other s now key other l m off = (
  fail-IsMap s now key l m,
  unfold fail in
      ground (
        arith,
        current-sweep s now other l m,
        lookup-insert key other (counted s now (current s now (lookup key (sweep s now l).entries)))
            (sweep s now l).entries,
      ),
)
