-- ===== src/Backoff/Tests.antt =====
-- tellus/src/backoff.rs: runs, and the theorems at test data.
use tellus.Prelude.{◌≡◌, ◌↔◌, ok, arith, refl}
use tellus.Config.{default_backoff}
use tellus.Backoff.{Backoff, new, default, duration, IsValid}
use tellus.Backoff.Doubling.{doubled, InReach, duration-eq-doubled_iff}

default_backoff-IsValid : IsValid default_backoff
default_backoff-IsValid = record { ordered = omega arith; fits = omega arith }

-- The default bounds are accepted.
default_ok : default ≡ ok default_backoff
unfolding default new
default_ok = refl

-- Bounds so far apart that the factor saturates before the delay is capped.
abbrev wide : Backoff
wide = record { min = 1; max = 100000000000 }

wide-IsValid : IsValid wide
wide-IsValid = record { ordered = omega arith; fits = omega arith }

duration-eq-doubled_iff_example : (duration wide 32 ≡ doubled wide 32) ↔ InReach wide 32
duration-eq-doubled_iff_example = duration-eq-doubled_iff wide 32 wide-IsValid
