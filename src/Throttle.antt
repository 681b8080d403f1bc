-- ===== src/Throttle.antt =====
-- internal/server/throttle.go: the limiter of failed sign-ins. A time is a number of nanoseconds,
-- and the clock is an argument of each operation; the zero time is 0, as is a time before it. A
-- duration is an int64, a number below 2^64 that counts as negative from 2^63 on. The difference of
-- two times is less than 2^63, where `Sub` is exact.
mod Laws
mod Tests
use vara.Base.{
  ℕ, zero, suc, ◌+◌, ◌-◌, ◌*◌, ◌%◌, ◌≡◌, Bool, Option, none, some, List, [], ◌∷◌, ltb, leb,
  if◌then◌else◌, Bytes, lookup, insert, erase,
}

pub record Failure : Type 0 where
  pub count : ℕ
  pub last : ℕ
  pub until : ℕ

-- The settings of a `failureLimiter`.
pub record Settings : Type 0 where
  pub free : ℕ
  pub base : ℕ
  pub max : ℕ
  pub forget : ℕ

-- What changes in it.
pub record Limiter : Type 0 where
  pub entries : List (Bytes × Failure)
  pub last_sweep : ℕ

abbrev pub minute : ℕ
minute = 60 * 1000000000

unfoldable pub wait_of : ℕ → Option Failure → ℕ
wait_of now none = 0
wait_of now (some f) = f.until - now

-- `wait`: zero also where the wait is over.
unfoldable pub wait : ℕ → Bytes → Limiter → ℕ
wait now key l = wait_of now (lookup key l.entries)

-- `2 ^ 64` and `2 ^ 63`.
abbrev pub int64_size : ℕ
int64_size = 18446744073709551616

abbrev pub int64_half : ℕ
int64_half = 9223372036854775808

-- The order of the int64 numbers.
abbrev pub signed : ℕ → ℕ
signed d = if ltb d int64_half then d + int64_half else d - int64_half

abbrev pub less : ℕ → ℕ → Bool
less d e = ltb (signed d) (signed e)

-- `now.Add(d)`.
unfoldable pub add_duration : ℕ → ℕ → ℕ
add_duration now d = if ltb d int64_half then now + d else now - (int64_size - d)

-- The loop `for i := l.free; i < f.count && d < l.max; i++`, with `f.count - l.free` rounds.
unfoldable pub doubled : ℕ → ℕ → ℕ → ℕ
doubled max zero d = d
doubled max (suc rounds) d =
    let more = doubled max rounds (d * 2 % int64_size) in if less d max then more else d

unfoldable pub capped : ℕ → ℕ → ℕ
capped max d = if less max d then max else d

-- How long a key waits after its `count`-th failure.
unfoldable pub delay : Settings → ℕ → ℕ
delay s count = capped s.max (doubled s.max (count - s.free) s.base)

unfoldable pub is_old : Settings → ℕ → Failure → Bool
is_old s now f = ltb s.forget (now - f.last)

unfoldable pub drop_old : Settings → ℕ → List (Bytes × Failure) → List (Bytes × Failure)
drop_old s now [] = []
drop_old s now ((k, f) ∷ entries) =
    let rest = drop_old s now entries in if is_old s now f then rest else (k, f) ∷ rest

unfoldable pub sweep : Settings → ℕ → Limiter → Limiter
sweep s now l =
    if ltb (now - l.last_sweep) minute
    then l
    else record { entries = drop_old s now l.entries; last_sweep = now }

-- The failure that is counted on.
unfoldable pub current : Settings → ℕ → Option Failure → Failure
current s now none = record { count = 0; last = 0; until = 0 }
current s now (some f) = if is_old s now f then record { count = 0; last = 0; until = 0 } else f

unfoldable pub counted : Settings → ℕ → Failure → Failure
counted s now f =
    let count = f.count + 1 in
    record {
      count = count;
      last = now;
      until = if leb s.free count then add_duration now (delay s count) else f.until;
    }

unfoldable pub fail : Settings → ℕ → Bytes → Limiter → Limiter
fail s now key l =
    let swept = sweep s now l in
    let f = counted s now (current s now (lookup key swept.entries)) in
    record swept { entries = insert key f swept.entries }

unfoldable pub clear : Bytes → Limiter → Limiter
clear key l = record l { entries = erase key l.entries }
