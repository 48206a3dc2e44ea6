-- ===== src/Report/Tests.antt =====
-- tellus-comparison/src/bin/report.rs: runs, and the theorem at test data.
use tellus.Prelude.{ℕ, ◌≡◌, refl, some, List, [], ◌∷◌, nat_eq, if◌then◌else◌}
use tellus.Report.{
  Text, Measurement, parse, parse_digits, parse_rest, checked_digit, parameter_order, ordered,
  parsed, cmp, cmp_number, cmp_text, cmp_order, insert_sorted, sort,
}

abbrev measured : ℕ → ℕ → Measurement
measured framework digit = record {
  group = b'a' ∷ [];
  framework = framework ∷ [];
  parameter = some (digit ∷ b'0' ∷ []);
  elements = 1;
}

abbrev measurements : List Measurement
measurements = measured b't' b'2' ∷ measured b'k' b'1' ∷ measured b'k' b'2' ∷ []

-- How the two numbers are printed.
abbrev digits : ℕ → Text
digits n = (if nat_eq n 10 then b'1' else b'2') ∷ b'0' ∷ []

parse_run : parse (b'+' ∷ b'2' ∷ b'0' ∷ []) ≡ some 20
unfolding parse parse_digits parse_rest checked_digit
parse_run = refl

sort_run : sort measurements ≡ measured b'k' b'1' ∷ measured b'k' b'2' ∷ measured b't' b'2' ∷ []
unfolding sort insert_sorted cmp cmp_text cmp_order cmp_number parameter_order ordered parsed parse
    parse_digits parse_rest checked_digit
sort_run = refl
