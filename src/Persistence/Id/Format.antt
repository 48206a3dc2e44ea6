-- ===== src/Persistence/Id/Format.antt =====
-- tellus/src/persistence/persistence_id.rs: the text form and the validation.
use tellus.Prelude.{
  ℕ, ◌≤◌, ◌≡◌, refl, false, inl, inr, ◌↔◌, Option, none, some, [], ◌∷◌, ◌++◌, ok, length, arith,
  Result-cases, Option-cases,
}
use tellus.Persistence.Id.{
  Text, slash, max_segment_len, PersistenceId, PersistenceIdSegment, is_empty, has_slash,
  valid_segment, new, split_once, from_str, display, entity_type, entity_id, parse, cons_left,
}

-- The rule for one segment.
pub record IsSegment (s : Text) : Type 0 where
  pub nonempty : is_empty s ≡ false
  pub short : length s ≤ max_segment_len
  pub plain : has_slash s ≡ false

pub record IsId (id : PersistenceId) : Type 0 where
  pub type_ok : IsSegment id.entity_type
  pub id_ok : IsSegment id.entity_id

valid_segment_of : (s : Text) (g : PersistenceIdSegment) → IsSegment s → valid_segment s g ≡ ok s
unfolding valid_segment
valid_segment_of s g v = ground arith

of_valid_segment :
    (s t : Text) (g : PersistenceIdSegment) → valid_segment s g ≡ ok t → (t ≡ s) × IsSegment s
unfolding valid_segment
of_valid_segment s t g e = ground arith

new_of :
    (t i : Text)
    → IsSegment t
    → IsSegment i
    → new t i ≡ ok (record { entity_type = t; entity_id = i })
unfolding new
new_of t i vt vi = rw (valid_segment_of t entity_type vt, valid_segment_of i entity_id vi)

of_new :
    (t i : Text) (id : PersistenceId)
    → new t i ≡ ok id
    → IsId id × (id.entity_type ≡ t) × (id.entity_id ≡ i)
unfolding new
of_new t i id e = elim (Result-cases (valid_segment t entity_type)) [
  | inr (x, p) ↦ absurd (ground (arith, p))
  | inl (t', p) ↦ elim (Result-cases (valid_segment i entity_id)) [
    | inr (x, q) ↦ absurd (ground (arith, p, q))
    | inl (i', q) ↦
        let (ep, vt) = of_valid_segment t t' entity_type p in
        let (eq, vi) = of_valid_segment i i' entity_id q in
        let et : id.entity_type ≡ t = ground (arith, p, q, ep) in
        let ei : id.entity_id ≡ i = ground (arith, p, q, eq) in
        (record { type_ok = rw et vt; id_ok = rw ei vi }, et, ei)
  ]
]

-- `new` succeeds on exactly the valid pairs of segments, and with these segments.
pub new_iff :
    (t i : Text) (id : PersistenceId)
    → (new t i ≡ ok id) ↔ (IsId id × (id.entity_type ≡ t) × (id.entity_id ≡ i))
new_iff t i id = (of_new t i id, λ (v, p, q). rw (← p, ← q) (new_of _ _ v.type_ok v.id_ok))

split_once-display : (a b : Text) → has_slash a ≡ false → split_once (a ++ slash ∷ b) ≡ some (a, b)
unfolding split_once
split_once-display [] b h = refl
split_once-display (c ∷ a) b h = ground (arith, split_once-display a b)

append-cons_left :
    (c : ℕ) (r : Option (Text × Text)) (s a b : Text)
    → ((x y : Text) → r ≡ some (x, y) → x ++ slash ∷ y ≡ s)
    → cons_left c r ≡ some (a, b)
    → a ++ slash ∷ b ≡ c ∷ s
unfolding cons_left
append-cons_left c none s a b h e = cc
append-cons_left c (some (x, y)) s a b h e = ground (arith, h x y)

append-split_once : (s a b : Text) → split_once s ≡ some (a, b) → a ++ slash ∷ b ≡ s
unfolding split_once
append-split_once [] a b e = cc
append-split_once (c ∷ s) a b e =
    let ih = append-split_once s in ground (arith, append-cons_left c (split_once s) s a b ih)

from_str-display : (id : PersistenceId) → IsId id → from_str (display id) ≡ ok id
unfolding from_str display
from_str-display id v =
    rw (split_once-display id.entity_type id.entity_id v.type_ok.plain, parse)
      (new_of _ _ v.type_ok v.id_ok)

parse_lem :
    (s : Text) (id : PersistenceId)
    → from_str s ≡ ok id
    → (t : Text) × (i : Text) × (split_once s ≡ some (t, i)) × (new t i ≡ ok id)
unfolding from_str
parse_lem s id e = elim (Option-cases (split_once s)) [
  | inl p ↦ absurd (ground (arith, p))
  | inr ((t, i), p) ↦ (t, i, p, ground (arith, p))
]

display-from_str : (s : Text) (id : PersistenceId) → from_str s ≡ ok id → IsId id × (display id ≡ s)
unfolding display
display-from_str s id e =
    let (t, i, p, q) = parse_lem s id e in
    let (v, et, ei) = of_new t i id q in (v, rw (et, ei) (append-split_once s t i p))

-- A text is parsed as an identity exactly if the identity is valid and the text is its display: a valid
-- identity is parsed back from its display, and no other text stands for it.
pub from_str_iff :
    (s : Text) (id : PersistenceId) → (from_str s ≡ ok id) ↔ (IsId id × (display id ≡ s))
from_str_iff s id = (display-from_str s id, λ (v, e). rw (← e) (from_str-display id v))
