-- ===== src/Backoff.antt =====
-- tellus/src/backoff.rs: the bounds of an exponential backoff. A `Duration` is its number of
-- nanoseconds; `serde`'s deserialisation goes through `new`.
pub mod Bounds
pub mod Doubling
mod Tests
use tellus.Prelude.{
  ℕ, ◌+◌, ◌*◌, ◌≤◌, ◌≡◌, min, Option, none, some, Result, ok, err, ltb, checked_shl, u32_max,
  u64_max, if◌then◌else◌,
}

abbrev pub Duration : Type 0
Duration = ℕ

-- `Duration::MAX`: `u64::MAX` seconds and 999_999_999 nanoseconds.
abbrev pub duration_max : Duration
duration_max = 18446744073709551615999999999

-- `Duration::saturating_mul`
abbrev pub saturating_mul : Duration → ℕ → Duration
saturating_mul d k = min (d * k) duration_max

pub record Backoff : Type 0 where
  pub min : Duration
  pub max : Duration

pub record InvalidBackoff : Type 0 where
  pub min : Duration
  pub max : Duration

unfoldable pub new : Duration → Duration → Result Backoff InvalidBackoff
new min max =
    if ltb max min
    then err (record { min = min; max = max })
    else ok (record { min = min; max = max })

abbrev unwrap_or : Option ℕ → ℕ → ℕ
unwrap_or none d = d
unwrap_or (some n) d = n

unfoldable pub factor : ℕ → ℕ
factor step = unwrap_or (checked_shl 1 step) u32_max

-- The delay for the zero-based `step`.
unfoldable pub duration : Backoff → ℕ → Duration
duration b step = min (saturating_mul b.min (factor step)) b.max

abbrev pub default_min : Duration
default_min = 250000000

abbrev pub default_max : Duration
default_max = 4000000000

unfoldable pub default : Result Backoff InvalidBackoff
unfolding new
default = new default_min default_max

-- `try_from` of the unchecked pair that `serde` reads.
unfoldable pub try_from : InvalidBackoff → Result Backoff InvalidBackoff
unfolding new
try_from unchecked = new unchecked.min unchecked.max

-- What `new` grants, and that the cap is a `Duration`.
pub record IsValid (b : Backoff) : Type 0 where
  pub ordered : b.min ≤ b.max
  pub fits : b.max ≤ duration_max
