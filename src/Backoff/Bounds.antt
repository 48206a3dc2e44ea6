-- ===== src/Backoff/Bounds.antt =====
-- tellus/src/backoff.rs: what `new` grants, and the range and the order of the delays.
use native.Mathlib.Nat.{pow-le-pow_right, mul-le-mul_left}
use native.Mathlib.Decide.{dec_lt}
use tellus.Prelude.{ℕ, ◌^◌, ◌≤◌, ◌<◌, ◌≡◌, ◌↔◌, ok, arith, u32_max}
use tellus.Backoff.{Backoff, Duration, duration_max, new, try_from, factor, duration, IsValid}

pow_pos : (s : ℕ) → 1 ≤ 2 ^ s
pow_pos s = pow-le-pow_right {n = 2} (omega arith) {i = 0} {j = s} (omega arith)

pow-lt : (s : ℕ) → s < 32 → 2 ^ s ≤ 2147483648
pow-lt s h = pow-le-pow_right {n = 2} (omega arith) {i = s} {j = 31} (omega arith)

pub factor-eq-pow : (s : ℕ) → s < 32 → factor s ≡ 2 ^ s
unfolding factor
factor-eq-pow s h = ground (arith, pow-lt s h)

pub factor_saturates : (s : ℕ) → 32 ≤ s → factor s ≡ u32_max
unfolding factor
factor_saturates s h = ground arith

pub factor_pos : (s : ℕ) → 1 ≤ factor s
factor_pos s = ground (arith, factor-eq-pow s, factor_saturates s, pow_pos s)

-- The factor grows with the step, also where it goes over to saturation.
factor_mono : (s t : ℕ) → s ≤ t → factor s ≤ factor t
factor_mono s t h = elim (dec_lt t 32) [
  | yes p ↦
      rw (factor-eq-pow t p, factor-eq-pow s (omega arith))
        (pow-le-pow_right {n = 2} (omega arith) {i = s} {j = t} h)
  | no p ↦ ground (arith, factor_saturates t, factor_saturates s, factor-eq-pow s, pow-lt s)
]

-- A backoff comes out of `new`, and out of the deserialisation of a pair of bounds alike, exactly where
-- its minimum and maximum are the given ones and the maximum is not below the minimum.
pub accepts_iff :
    (min max : Duration) (b : Backoff)
    → ((new min max ≡ ok b) ↔ ((b.min ≡ min) × (b.max ≡ max) × (min ≤ max)))
      × ((try_from (record { min = min; max = max }) ≡ ok b) ↔ (new min max ≡ ok b))
unfolding new try_from
accepts_iff min max b = (ground arith, (λ h. h, λ h. h))

pub new-IsValid :
    (min max : Duration) {b : Backoff} → max ≤ duration_max → new min max ≡ ok b → IsValid b
unfolding new
new-IsValid min max h e = ground arith

-- Every delay lies between the minimum and the maximum.
pub duration_bounds :
    (b : Backoff) (s : ℕ) → IsValid b → (b.min ≤ duration b s) × (duration b s ≤ b.max)
unfolding duration
duration_bounds b s v = grind (arith, factor_pos s)

-- A later step is never delayed less.
pub duration_mono : (b : Backoff) (s t : ℕ) → s ≤ t → duration b s ≤ duration b t
unfolding duration
duration_mono b s t h = omega (arith, mul-le-mul_left b.min (factor_mono s t h))

-- The first step is not delayed beyond the minimum.
pub duration-zero : (b : Backoff) → IsValid b → duration b 0 ≡ b.min
unfolding duration factor
duration-zero b v = omega arith
