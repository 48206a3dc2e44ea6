-- ===== src/Prelude/Int.antt =====
-- Signed machine integers: an integer, its order and the conversions of Rust's `std`.
use Prim.Native.Nat.{ℕ, suc, ◌+◌, ◌-◌}
use mathlib.Core.Path.{◌≡◌}
use mathlib.Core.Logic.{◌↔◌}
use mathlib.Core.Bool.{Bool, true, false}
use mathlib.Core.Option.{Option, none, some}
use native.Mathlib.Omega.{arith}
use tellus.Prelude.Tests.{nat_eq, leb, if◌then◌else◌}

-- `negsuc n` is -(n + 1).
pub data ℤ : Type 0 where
  pos : ℕ → ℤ
  negsuc : ℕ → ℤ

abbrev pub i64_max : ℕ
i64_max = 9223372036854775807

abbrev pub u16_max : ℕ
u16_max = 65535

abbrev pub int_eq : ℤ → ℤ → Bool
int_eq (pos a) (pos b) = nat_eq a b
int_eq (pos a) (negsuc b) = false
int_eq (negsuc a) (pos b) = false
int_eq (negsuc a) (negsuc b) = nat_eq a b

abbrev pub int_leb : ℤ → ℤ → Bool
int_leb (pos a) (pos b) = leb a b
int_leb (pos a) (negsuc b) = false
int_leb (negsuc a) (pos b) = true
int_leb (negsuc a) (negsuc b) = leb b a

pub int_eq_iff : (a b : ℤ) → (int_eq a b ≡ true) ↔ (a ≡ b)
int_eq_iff (pos a) (pos b) = ground arith
int_eq_iff (pos a) (negsuc b) = ground arith
int_eq_iff (negsuc a) (pos b) = ground arith
int_eq_iff (negsuc a) (negsuc b) = ground arith

-- `i64::try_from` of an unsigned integer.
abbrev pub to_i64 : ℕ → Option ℤ
to_i64 n = if leb n i64_max then some (pos n) else none

-- `try_from` of a signed integer, for an unsigned target whose largest value is given.
abbrev pub to_unsigned : ℕ → ℤ → Option ℕ
to_unsigned limit (pos n) = if leb n limit then some n else none
to_unsigned limit (negsuc n) = none

-- a - b, as an integer.
abbrev pub sub_ℕ : ℕ → ℕ → ℤ
sub_ℕ a b = if leb b a then pos (a - b) else negsuc (b - a - 1)

-- `i64::checked_add` with an addend that is not negative.
abbrev pub checked_add : ℤ → ℕ → Option ℤ
checked_add (pos a) n = to_i64 (a + n)
checked_add (negsuc a) n = some (sub_ℕ n (suc a))
