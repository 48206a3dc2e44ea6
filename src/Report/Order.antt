-- ===== src/Report/Order.antt =====
-- tellus-comparison/src/bin/report.rs, `sort_by`: the comparison is a total order of the ranks.
use tellus.Prelude.{◌≡◌, ◌⊎◌, inl, inr, refl, ap, sym, ◌∙◌, [], ◌∷◌, arith}
use tellus.Report.{
  Text, Ordering, less, equal, greater, then_with, cmp_number, cmp_text, ParameterOrder, missing,
  number, text, cmp_order, cmp_rank,
}

abbrev pub reverse : Ordering → Ordering
reverse less = greater
reverse equal = equal
reverse greater = less

pub record IsOrder {A : Type 0} (cmp : A → A → Ordering) : Type 0 where
  pub same : (a b : A) → cmp a b ≡ equal → a ≡ b
  pub flip : (a b : A) → cmp b a ≡ reverse (cmp a b)
  pub trans : (a b c : A) → cmp a b ≡ less → cmp b c ≡ less → cmp a c ≡ less

then_with-equal : (o p : Ordering) → then_with o p ≡ equal → (o ≡ equal) × (p ≡ equal)
then_with-equal less p h = absurd (cc h)
then_with-equal equal p h = (refl, h)
then_with-equal greater p h = absurd (cc h)

then_with-less : (o p : Ordering) → then_with o p ≡ less → (o ≡ less) ⊎ ((o ≡ equal) × (p ≡ less))
then_with-less less p h = inl refl
then_with-less equal p h = inr (refl, h)
then_with-less greater p h = absurd (cc h)

then_with-reverse : (o p : Ordering) → then_with (reverse o) (reverse p) ≡ reverse (then_with o p)
then_with-reverse less p = refl
then_with-reverse equal p = refl
then_with-reverse greater p = refl

module _ {A B : Type 0} (cmp_a : A → A → Ordering) (cmp_b : B → B → Ordering)
    (P : IsOrder cmp_a) where
  abbrev pair : A × B → A × B → Ordering
  pair x y = then_with (cmp_a x.0 y.0) (cmp_b x.1 y.1)

  -- One step of transitivity, from that of the second components.
  pub pair_trans :
      (a a' a'' : A) (b b' b'' : B)
      → (cmp_b b b' ≡ less → cmp_b b' b'' ≡ less → cmp_b b b'' ≡ less)
      → then_with (cmp_a a a') (cmp_b b b') ≡ less
      → then_with (cmp_a a' a'') (cmp_b b' b'') ≡ less
      → then_with (cmp_a a a'') (cmp_b b b'') ≡ less
  pair_trans a a' a'' b b' b'' later h k = elim (then_with-less (cmp_a a a') (cmp_b b b') h) [
    | inl lt ↦ elim (then_with-less (cmp_a a' a'') (cmp_b b' b'') k) [
      | inl lt' ↦ rw (P.trans a a' a'' lt lt') refl
      | inr (e, l) ↦ rw (sym (P.same a' a'' e), lt) refl
    ]
    | inr (e, l) ↦ elim (then_with-less (cmp_a a' a'') (cmp_b b' b'') k) [
      | inl lt' ↦ rw (P.same a a' e, lt') refl
      | inr (e', l') ↦ rw (P.same a a' e, e', later l l') refl
    ]
  ]

  pub pair-IsOrder : IsOrder cmp_b → IsOrder pair
  pair-IsOrder Q = record {
    same = λ x y h.
        let (e, f) = then_with-equal (cmp_a x.0 y.0) (cmp_b x.1 y.1) h in
        ap (λ a. (a, x.1)) (P.same x.0 y.0 e) ∙ ap (λ b. (y.0, b)) (Q.same x.1 y.1 f);
    flip = λ x y.
        rw (P.flip x.0 y.0, Q.flip x.1 y.1) (then_with-reverse (cmp_a x.0 y.0) (cmp_b x.1 y.1));
    trans = λ x y z. pair_trans x.0 y.0 z.0 x.1 y.1 z.1 (Q.trans x.1 y.1 z.1);
  }

number-IsOrder : IsOrder cmp_number
unfolding cmp_number
number-IsOrder = record {
  same = λ a b h. ground arith;
  flip = λ a b. ground arith;
  trans = λ a b c h k. ground arith;
}

text-same : (s t : Text) → cmp_text s t ≡ equal → s ≡ t
unfolding cmp_text
text-same [] [] h = refl
text-same [] (y ∷ t) h = absurd (cc h)
text-same (x ∷ s) [] h = absurd (cc h)
text-same (x ∷ s) (y ∷ t) h =
    let (e, f) = then_with-equal (cmp_number x y) (cmp_text s t) h in
    ap (λ b. b ∷ s) (number-IsOrder.same x y e) ∙ ap (λ u. y ∷ u) (text-same s t f)

text-flip : (s t : Text) → cmp_text t s ≡ reverse (cmp_text s t)
unfolding cmp_text
text-flip [] [] = refl
text-flip [] (y ∷ t) = refl
text-flip (x ∷ s) [] = refl
text-flip (x ∷ s) (y ∷ t) =
    rw (number-IsOrder.flip x y, text-flip s t) (then_with-reverse (cmp_number x y) (cmp_text s t))

text_trans : (s t u : Text) → cmp_text s t ≡ less → cmp_text t u ≡ less → cmp_text s u ≡ less
unfolding cmp_text
text_trans s [] [] h k = absurd (cc k)
text_trans [] [] (z ∷ u) h k = absurd (cc h)
text_trans (x ∷ s) [] (z ∷ u) h k = absurd (cc h)
text_trans s (y ∷ t) [] h k = absurd (cc k)
text_trans [] (y ∷ t) (z ∷ u) h k = refl
text_trans (x ∷ s) (y ∷ t) (z ∷ u) h k =
    pair_trans cmp_number cmp_text number-IsOrder x y z s t u (text_trans s t u) h k

pub text-IsOrder : IsOrder cmp_text
text-IsOrder = record { same = text-same; flip = text-flip; trans = text_trans }

order-same : (a b : ParameterOrder) → cmp_order a b ≡ equal → a ≡ b
unfolding cmp_order
order-same missing missing h = refl
order-same missing (number n) h = absurd (cc h)
order-same missing (text t) h = absurd (cc h)
order-same (number m) missing h = absurd (cc h)
order-same (number m) (number n) h = ap number (number-IsOrder.same m n h)
order-same (number m) (text t) h = absurd (cc h)
order-same (text s) missing h = absurd (cc h)
order-same (text s) (number n) h = absurd (cc h)
order-same (text s) (text t) h = ap text (text-same s t h)

order-flip : (a b : ParameterOrder) → cmp_order b a ≡ reverse (cmp_order a b)
unfolding cmp_order
order-flip missing missing = refl
order-flip missing (number n) = refl
order-flip missing (text t) = refl
order-flip (number m) missing = refl
order-flip (number m) (number n) = number-IsOrder.flip m n
order-flip (number m) (text t) = refl
order-flip (text s) missing = refl
order-flip (text s) (number n) = refl
order-flip (text s) (text t) = text-flip s t

order_trans :
    (a b c : ParameterOrder) → cmp_order a b ≡ less → cmp_order b c ≡ less → cmp_order a c ≡ less
unfolding cmp_order
order_trans a missing missing h k = absurd (cc k)
order_trans missing missing c h k = absurd (cc h)
order_trans (number m) missing c h k = absurd (cc h)
order_trans (text s) missing c h k = absurd (cc h)
order_trans a (number n) missing h k = absurd (cc k)
order_trans missing (number n) (number p) h k = refl
order_trans missing (number n) (text u) h k = refl
order_trans (number m) (number n) (number p) h k = number-IsOrder.trans m n p h k
order_trans (number m) (number n) (text u) h k = refl
order_trans (text s) (number n) c h k = absurd (cc h)
order_trans a (text t) missing h k = absurd (cc k)
order_trans a (text t) (number p) h k = absurd (cc k)
order_trans missing (text t) (text u) h k = refl
order_trans (number m) (text t) (text u) h k = refl
order_trans (text s) (text t) (text u) h k = text_trans s t u h k

cmp_order-IsOrder : IsOrder cmp_order
cmp_order-IsOrder = record { same = order-same; flip = order-flip; trans = order_trans }

pub rank-IsOrder : IsOrder cmp_rank
rank-IsOrder = pair-IsOrder cmp_text cmp_order text-IsOrder cmp_order-IsOrder
