-- ===== src/Report/Escaping.antt =====
-- tellus-comparison/src/bin/report.rs, `escape`: three replacements in a row are one pass.
use tellus.Prelude.{
  ℕ, ◌≡◌, refl, ap, sym, ◌∙◌, Bool-cases, inl, inr, [], ◌∷◌, ◌++◌, nat_eq, arith, if◌then◌else◌,
}
use mathlib.Core.List.{append_assoc}
use tellus.Report.{Text, replace, amp, lt, gt, escape}

-- What stands for a character in HTML.
abbrev entity : ℕ → Text
entity b =
    if nat_eq b b'&'
    then amp
    else if nat_eq b b'<'
    then lt
    else if nat_eq b b'>'
    then gt
    else b ∷ []

abbrev pub escaped : Text → Text
escaped [] = []
escaped (b ∷ bs) = let rest = escaped bs in entity b ++ rest

replace-append :
    (b : ℕ) (by xs ys : Text) → replace b by (xs ++ ys) ≡ replace b by xs ++ replace b by ys
unfolding replace
replace-append b by [] ys = refl
replace-append b by (x ∷ xs) ys = elim (Bool-cases (nat_eq x b)) [
  | inl e ↦ rw e (
      ap (λ t. by ++ t) (replace-append b by xs ys)
      ∙ sym (append_assoc by (replace b by xs) (replace b by ys)))
  | inr e ↦ rw e (ap (λ t. x ∷ t) (replace-append b by xs ys))
]

-- The replacements of one character.
abbrev pass : Text → Text
pass t = replace b'>' gt (replace b'<' lt t)

pass-append : (xs ys : Text) → pass (xs ++ ys) ≡ pass xs ++ pass ys
pass-append xs ys =
    ap (replace b'>' gt) (replace-append b'<' lt xs ys)
    ∙ replace-append b'>' gt (replace b'<' lt xs) (replace b'<' lt ys)

escape-entity : (b : ℕ) → pass (replace b'&' amp (b ∷ [])) ≡ entity b
unfolding replace
escape-entity b = ground arith

-- The replacements do not disturb each other: `escape` is one pass that puts for each character its
-- entity.
pub escape-eq-escaped : (value : Text) → escape value ≡ escaped value
unfolding escape replace
escape-eq-escaped [] = refl
escape-eq-escaped (b ∷ bs) =
    ap pass (replace-append b'&' amp (b ∷ []) bs)
    ∙ pass-append (replace b'&' amp (b ∷ [])) (replace b'&' amp bs)
    ∙ ap (λ t. t ++ escape bs) (escape-entity b)
    ∙ ap (λ t. entity b ++ t) (escape-eq-escaped bs)
