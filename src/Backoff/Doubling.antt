-- ===== src/Backoff/Doubling.antt =====
-- tellus/src/backoff.rs and the documentation of `RestartPolicy`: the delay of a step is the
-- minimum, doubled at each step, capped at the maximum.
use native.Mathlib.Decide.{dec_lt, ℕ_discrete}
use native.Mathlib.Nat.{pow-le-pow_right, mul-le-mul_left}
use tellus.Prelude.{ℕ, ◌+◌, ◌*◌, ◌^◌, ◌≤◌, ◌<◌, ◌≡◌, ◌⊎◌, ◌↔◌, inl, inr, ap, min, arith, u32_max}
use tellus.Backoff.{Backoff, duration, IsValid}
use tellus.Backoff.Bounds.{factor-eq-pow, factor_saturates}

-- The documented delay, with no machine integer in it.
abbrev pub doubled : Backoff → ℕ → ℕ
doubled b step = min (b.min * 2 ^ step) b.max

pub duration-eq-doubled : (b : Backoff) (s : ℕ) → IsValid b → s < 32 → duration b s ≡ doubled b s
unfolding duration
duration-eq-doubled b s v h = rw (factor-eq-pow s h) (grind arith)

-- Where the 32-bit factor does not change the delay.
abbrev pub InReach : Backoff → ℕ → Type 0
InReach b s = (s < 32) ⊎ (b.min ≡ 0) ⊎ (b.max ≤ b.min * u32_max)

big_pow : (s : ℕ) → 32 ≤ s → u32_max + 1 ≤ 2 ^ s
big_pow s h = pow-le-pow_right {n = 2} (omega arith) {i = 32} {j = s} h

late :
    (b : Backoff) (s : ℕ)
    → 32 ≤ s
    → IsValid b
    → (duration b s ≡ min (b.min * u32_max) b.max) × (b.min * u32_max + b.min ≤ b.min * 2 ^ s)
unfolding duration
late b s h v =
    (rw (factor_saturates s h) (omega arith), omega (arith, mul-le-mul_left b.min (big_pow s h)))

InReach-of_eq : (b : Backoff) (s : ℕ) → IsValid b → duration b s ≡ doubled b s → InReach b s
InReach-of_eq b s v e = elim (dec_lt s 32) [
  | yes p ↦ inl p
  | no p ↦ inr (elim (ℕ_discrete b.min 0) [
    | yes z ↦ inl z
    | no z ↦ inr (omega (arith, late b s (omega arith) v))
  ])
]

eq_of_InReach : (b : Backoff) (s : ℕ) → IsValid b → InReach b s → duration b s ≡ doubled b s
eq_of_InReach b s v r = elim (dec_lt s 32) [
  | yes p ↦ duration-eq-doubled b s v p
  | no p ↦ elim r [
    | inl q ↦ absurd (omega arith)
    | inr (inl z) ↦ omega (arith, late b s (omega arith) v, ap (λ (k : ℕ). k * 2 ^ s) z)
    | inr (inr q) ↦ omega (arith, late b s (omega arith) v)
  ]
]

-- The delay is the documented `min * 2 ^ step`, capped, exactly in these cases: the step is
-- below 32, the minimum is zero, or the cap is reached with the factor `u32::MAX`.
pub duration-eq-doubled_iff :
    (b : Backoff) (s : ℕ) → IsValid b → (duration b s ≡ doubled b s) ↔ InReach b s
duration-eq-doubled_iff b s v = (InReach-of_eq b s v, eq_of_InReach b s v)
