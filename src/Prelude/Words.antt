-- ===== src/Prelude/Words.antt =====
-- The ranges of the machine integers, and the saturating operations of Rust's `std`.
use Prim.Native.Nat.{ℕ, ◌+◌, ◌*◌, ◌%◌, ◌^◌, min}
use mathlib.Core.Option.{Option, none, some}
use tellus.Prelude.Tests.{ltb, if◌then◌else◌}

abbrev pub u32_max : ℕ
u32_max = 4294967295

abbrev pub u64_max : ℕ
u64_max = 18446744073709551615

-- `usize` is 64 bits wide.
abbrev pub usize_mod : ℕ
usize_mod = 18446744073709551616

-- `u64::saturating_add`
abbrev pub saturating_add : ℕ → ℕ → ℕ
saturating_add a b = min (a + b) u64_max

-- `u32::checked_shl`: bits shifted out are lost, a shift by the width or more is refused.
abbrev pub checked_shl : ℕ → ℕ → Option ℕ
checked_shl a s = if ltb s 32 then some ((a * 2 ^ s) % 2 ^ 32) else none
