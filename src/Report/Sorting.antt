-- ===== src/Report/Sorting.antt =====
-- tellus-comparison/src/bin/report.rs, `read_measurements`: what the sort gives.
use mathlib.Core.List.{Perm}
use mathlib.Core.List.Perm
use mathlib.Core.Path.{subst}
use tellus.Prelude.{
  ℕ, ◌≡◌, ◌⊎◌, inl, inr, refl, ap, sym, ◌∙◌, true, false, Bool-cases, Option, none, some, List, [],
  ◌∷◌,
}
use tellus.Report.{
  Text, Measurement, Ordering, less, equal, greater, then_with, cmp_text, ParameterOrder, missing,
  number, text, parameter_order, cmp_order, cmp_rank, rank, cmp, is_greater, insert_sorted, sort,
}
use tellus.Report.Order.{reverse, rank-IsOrder}

abbrev pub AtMost : Measurement → Measurement → Type 0
AtMost x y = (cmp_rank (rank x) (rank y) ≡ less) ⊎ (cmp_rank (rank x) (rank y) ≡ equal)

abbrev pub AllAtMost : Measurement → List Measurement → Type 0
AllAtMost x [] = Unit {0}
AllAtMost x (y ∷ ys) = AtMost x y × AllAtMost x ys

-- By group and then by parameter.
abbrev pub IsSorted : List Measurement → Type 0
IsSorted [] = Unit {0}
IsSorted (x ∷ xs) = AllAtMost x xs × IsSorted xs

pub less-AtMost :
    (x y z : Measurement)
    → cmp_rank (rank x) (rank y) ≡ less
    → AtMost y z
    → cmp_rank (rank x) (rank z) ≡ less
less-AtMost x y z lt (inl lt') = rank-IsOrder.trans (rank x) (rank y) (rank z) lt lt'
less-AtMost x y z lt (inr e) =
    subst (λ r. cmp_rank (rank x) r ≡ less) (rank-IsOrder.same (rank y) (rank z) e) lt

AtMost-trans : (x y z : Measurement) → AtMost x y → AtMost y z → AtMost x z
AtMost-trans x y z (inl lt) h = inl (less-AtMost x y z lt h)
AtMost-trans x y z (inr e) h =
    subst (λ r. (cmp_rank r (rank z) ≡ less) ⊎ (cmp_rank r (rank z) ≡ equal))
      (sym (rank-IsOrder.same (rank x) (rank y) e)) h

AllAtMost-trans :
    (x y : Measurement) (zs : List Measurement) → AtMost x y → AllAtMost y zs → AllAtMost x zs
AllAtMost-trans x y [] h k = tt
AllAtMost-trans x y (z ∷ zs) h (k, ks) = (AtMost-trans x y z h k, AllAtMost-trans x y zs h ks)

-- The comparison goes by the rank first.
then_with_assoc : (o p q : Ordering) → then_with (then_with o p) q ≡ then_with o (then_with p q)
then_with_assoc less p q = refl
then_with_assoc equal p q = refl
then_with_assoc greater p q = refl

cmp-eq-ranked :
    (x y : Measurement)
    → cmp x y ≡ then_with (cmp_rank (rank x) (rank y)) (cmp_text x.framework y.framework)
unfolding cmp
cmp-eq-ranked x y = sym (
    then_with_assoc (cmp_text x.group y.group) (cmp_order (parameter_order x) (parameter_order y))
      (cmp_text x.framework y.framework))

not_greater : (o p : Ordering) → is_greater (then_with o p) ≡ false → (o ≡ less) ⊎ (o ≡ equal)
not_greater less p h = inl refl
not_greater equal p h = inr refl
not_greater greater p h = absurd (cc h)

is_greater_cases :
    (o p : Ordering) → is_greater (then_with o p) ≡ true → (reverse o ≡ less) ⊎ (reverse o ≡ equal)
is_greater_cases less p h = absurd (cc h)
is_greater_cases equal p h = inr refl
is_greater_cases greater p h = inl refl

AtMost-of_cmp : (x y : Measurement) → is_greater (cmp x y) ≡ false → AtMost x y
AtMost-of_cmp x y h =
    not_greater (cmp_rank (rank x) (rank y)) (cmp_text x.framework y.framework)
      (ap is_greater (sym (cmp-eq-ranked x y)) ∙ h)

AtMost-of_greater : (x y : Measurement) → is_greater (cmp x y) ≡ true → AtMost y x
AtMost-of_greater x y h =
    subst (λ o. (o ≡ less) ⊎ (o ≡ equal)) (sym (rank-IsOrder.flip (rank x) (rank y)))
      (is_greater_cases (cmp_rank (rank x) (rank y)) (cmp_text x.framework y.framework)
        (ap is_greater (sym (cmp-eq-ranked x y)) ∙ h))

insert_sorted-AllAtMost :
    (x m : Measurement) (ys : List Measurement)
    → AtMost x m
    → AllAtMost x ys
    → AllAtMost x (insert_sorted m ys)
unfolding insert_sorted
insert_sorted-AllAtMost x m [] h k = (h, tt)
insert_sorted-AllAtMost x m (y ∷ ys) h (k, ks) = elim (Bool-cases (is_greater (cmp m y))) [
  | inl e ↦ rw e (k, insert_sorted-AllAtMost x m ys h ks)
  | inr e ↦ rw e (h, (k, ks))
]

insert_sorted-IsSorted :
    (m : Measurement) (xs : List Measurement) → IsSorted xs → IsSorted (insert_sorted m xs)
unfolding insert_sorted
insert_sorted-IsSorted m [] h = (tt, tt)
insert_sorted-IsSorted m (x ∷ xs) (h, hs) = elim (Bool-cases (is_greater (cmp m x))) [
  | inl e ↦
      rw e
        (insert_sorted-AllAtMost x m xs (AtMost-of_greater m x e) h, insert_sorted-IsSorted m xs hs)
  | inr e ↦ let le = AtMost-of_cmp m x e in rw e ((le, AllAtMost-trans m x xs le h), (h, hs))
]

pub sort-IsSorted : (ms : List Measurement) → IsSorted (sort ms)
unfolding sort
sort-IsSorted [] = tt
sort-IsSorted (m ∷ ms) = insert_sorted-IsSorted m (sort ms) (sort-IsSorted ms)

insert_sorted-perm : (m : Measurement) (xs : List Measurement) → Perm (insert_sorted m xs) (m ∷ xs)
unfolding insert_sorted
insert_sorted-perm m [] = Perm.rfl
insert_sorted-perm m (x ∷ xs) = elim (Bool-cases (is_greater (cmp m x))) [
  | inl e ↦ rw e (Perm.trans (Perm.cons x (insert_sorted-perm m xs)) (Perm.swap m x xs))
  | inr e ↦ rw e Perm.rfl
]

pub sort-perm : (ms : List Measurement) → Perm (sort ms) ms
unfolding sort
sort-perm [] = Perm.rfl
sort-perm (m ∷ ms) = Perm.trans (insert_sorted-perm m (sort ms)) (Perm.cons m (sort-perm ms))

-- The parameters that are numbers are printed in one way.
abbrev pub printed : (ℕ → Text) → ParameterOrder → Option Text
printed text_of missing = none
printed text_of (number n) = some (text_of n)
printed text_of (text t) = some t

module _ (text_of : ℕ → Text) where
  abbrev pub IsPrinted : Measurement → Type 0
  IsPrinted m = m.parameter ≡ printed text_of (parameter_order m)

  abbrev pub ArePrinted : List Measurement → Type 0
  ArePrinted [] = Unit {0}
  ArePrinted (m ∷ ms) = IsPrinted m × ArePrinted ms

  insert_sorted-ArePrinted :
      (m : Measurement) (xs : List Measurement)
      → IsPrinted m
      → ArePrinted xs
      → ArePrinted (insert_sorted m xs)
  unfolding insert_sorted
  insert_sorted-ArePrinted m [] p h = (p, tt)
  insert_sorted-ArePrinted m (x ∷ xs) p (h, hs) = elim (Bool-cases (is_greater (cmp m x))) [
    | inl e ↦ rw e (h, insert_sorted-ArePrinted m xs p hs)
    | inr e ↦ rw e (p, (h, hs))
  ]

  pub sort-ArePrinted : (ms : List Measurement) → ArePrinted ms → ArePrinted (sort ms)
  unfolding sort
  sort-ArePrinted [] h = tt
  sort-ArePrinted (m ∷ ms) (h, hs) = insert_sorted-ArePrinted m (sort ms) h (sort-ArePrinted ms hs)
