-- ===== src/Report.antt =====
-- tellus-comparison/src/bin/report.rs: the report over the results of benchmarks, as far as it is not
-- files, processes and floating-point numbers.
pub mod Order
pub mod Sorting
pub mod Sections
pub mod Escaping
mod Tests
use tellus.Prelude.{
  ℕ, ◌+◌, ◌*◌, ◌-◌, Bool, true, false, ◌&&◌, Option, none, some, List, [], ◌∷◌, ◌++◌, u64_max, ltb,
  leb, nat_eq, if◌then◌else◌,
}
use tellus.Prelude.Dict.{list_eq, nat_key}

-- The bytes of a string.
abbrev pub Text : Type 0
Text = List ℕ

-- Without the estimated times.
pub record Measurement : Type 0 where
  pub group : Text
  pub framework : Text
  pub parameter : Option Text
  pub elements : ℕ

abbrev pub Key : Type 0
Key = Text × Option Text

abbrev pub key : Measurement → Key
key m = (m.group, m.parameter)

-- `u64::from_str`, behind the sign.
checked_digit : ℕ → ℕ → Option ℕ
checked_digit n b =
    if leb b'0' b && leb b b'9' && leb (n * 10 + (b - b'0')) u64_max
    then some (n * 10 + (b - b'0'))
    else none

parse_rest : Option ℕ → Text → Option ℕ
unfolding checked_digit
parse_rest none bs = none
parse_rest (some n) [] = some n
parse_rest (some n) (b ∷ bs) = parse_rest (checked_digit n b) bs

-- At least one digit.
parse_digits : Text → Option ℕ
unfolding parse_rest
parse_digits [] = none
parse_digits (b ∷ bs) = parse_rest (some 0) (b ∷ bs)

-- `u64::from_str`: a plus sign may stand first.
unfoldable pub parse : Text → Option ℕ
unfolding parse_digits
parse [] = none
parse (b ∷ bs) = if nat_eq b b'+' then parse_digits bs else parse_digits (b ∷ bs)

pub data ParameterOrder : Type 0 where
  missing : ParameterOrder
  number : ℕ → ParameterOrder
  text : Text → ParameterOrder

parsed : Text → Option ℕ → ParameterOrder
parsed t (some n) = number n
parsed t none = text t

ordered : Option Text → ParameterOrder
unfolding parsed parse
ordered none = missing
ordered (some t) = parsed t (parse t)

unfoldable pub parameter_order : Measurement → ParameterOrder
unfolding ordered
parameter_order m = ordered m.parameter

-- The language's `Ordering`.
pub data Ordering : Type 0 where
  less equal greater : Ordering

abbrev pub then_with : Ordering → Ordering → Ordering
then_with less o = less
then_with equal o = o
then_with greater o = greater

unfoldable pub cmp_number : ℕ → ℕ → Ordering
cmp_number m n = if ltb m n then less else if nat_eq m n then equal else greater

unfoldable pub cmp_text : Text → Text → Ordering
cmp_text [] [] = equal
cmp_text [] (y ∷ ys) = less
cmp_text (x ∷ xs) [] = greater
cmp_text (x ∷ xs) (y ∷ ys) = then_with (cmp_number x y) (cmp_text xs ys)

-- The derived `Ord`.
unfoldable pub cmp_order : ParameterOrder → ParameterOrder → Ordering
cmp_order missing missing = equal
cmp_order missing (number n) = less
cmp_order missing (text t) = less
cmp_order (number m) missing = greater
cmp_order (number m) (number n) = cmp_number m n
cmp_order (number m) (text t) = less
cmp_order (text s) missing = greater
cmp_order (text s) (number n) = greater
cmp_order (text s) (text t) = cmp_text s t

-- What the sections go by, and then the framework.
abbrev pub Rank : Type 0
Rank = Text × ParameterOrder

abbrev pub rank : Measurement → Rank
rank m = (m.group, parameter_order m)

abbrev pub cmp_rank : Rank → Rank → Ordering
cmp_rank a b = then_with (cmp_text a.0 b.0) (cmp_order a.1 b.1)

unfoldable pub cmp : Measurement → Measurement → Ordering
cmp a b = then_with (cmp_text a.group b.group) (
    then_with (cmp_order (parameter_order a) (parameter_order b))
      (cmp_text a.framework b.framework))

abbrev pub is_greater : Ordering → Bool
is_greater greater = true
is_greater less = false
is_greater equal = false

-- `sort_by`, which is stable.
unfoldable pub insert_sorted : Measurement → List Measurement → List Measurement
insert_sorted m [] = m ∷ []
insert_sorted m (x ∷ xs) =
    let rest = insert_sorted m xs in if is_greater (cmp m x) then x ∷ rest else m ∷ x ∷ xs

unfoldable pub sort : List Measurement → List Measurement
unfolding insert_sorted
sort [] = []
sort (m ∷ ms) = insert_sorted m (sort ms)

abbrev parameter_eq : Option Text → Option Text → Bool
parameter_eq none none = true
parameter_eq none (some t) = false
parameter_eq (some s) none = false
parameter_eq (some s) (some t) = list_eq s t

unfoldable pub key_eq : Key → Key → Bool
key_eq a b = list_eq a.0 b.0 && parameter_eq a.1 b.1

-- A section is its first measurement and the others.
abbrev pub Section : Type 0
Section = Measurement × List Measurement

attach : Measurement → List Section → List Section
attach m [] = (m, []) ∷ []
attach m ((x, xs) ∷ cs) =
    if key_eq (key m) (key x) then (m, x ∷ xs) ∷ cs else (m, []) ∷ (x, xs) ∷ cs

-- `chunk_by`
unfoldable pub sections : List Measurement → List Section
unfolding attach
sections [] = []
sections (m ∷ ms) = attach m (sections ms)

-- `str::replace` of one character.
unfoldable pub replace : ℕ → Text → Text → Text
replace b by [] = []
replace b by (x ∷ xs) = let rest = replace b by xs in if nat_eq x b then by ++ rest else x ∷ rest

abbrev pub amp : Text
amp = b'&' ∷ b'a' ∷ b'm' ∷ b'p' ∷ b';' ∷ []

abbrev pub lt : Text
lt = b'&' ∷ b'l' ∷ b't' ∷ b';' ∷ []

abbrev pub gt : Text
gt = b'&' ∷ b'g' ∷ b't' ∷ b';' ∷ []

unfoldable pub escape : Text → Text
escape value = replace b'>' gt (replace b'<' lt (replace b'&' amp value))
