-- ===== src/Persistence/Id.antt =====
-- tellus/src/persistence/persistence_id.rs: the identity of an event stream. A text is the list of
-- its UTF-8 bytes, among which the slash's byte stands for slashes only.
pub mod Format
mod Tests
use tellus.Prelude.Dict.{Key, nat_key, list_eq, list_eq_iff}
use tellus.Prelude.{
  ℕ, Bool, true, false, ◌||◌, ◌&&◌, ◌≡◌, ◌↔◌, arith, Option, none, some, List, [], ◌∷◌, ◌++◌,
  Result, ok, err, ◌>>=◌, length, ltb, nat_eq, if◌then◌else◌,
}

abbrev pub Text : Type 0
Text = List ℕ

abbrev pub slash : ℕ
slash = b'/'

abbrev pub max_segment_len : ℕ
max_segment_len = 255

pub record PersistenceId : Type 0 where
  pub entity_type : Text
  pub entity_id : Text

abbrev pub id_beq : PersistenceId → PersistenceId → Bool
id_beq a b = list_eq a.entity_type b.entity_type && list_eq a.entity_id b.entity_id

pub id_beq_iff : (a b : PersistenceId) → (id_beq a b ≡ true) ↔ (a ≡ b)
id_beq_iff a b =
    ground (arith, list_eq_iff a.entity_type b.entity_type, list_eq_iff a.entity_id b.entity_id)

-- The derived `PartialEq`.
instance abbrev pub id_key : Key PersistenceId
id_key = record { same = id_beq; same_iff = id_beq_iff }

pub data PersistenceIdSegment : Type 0 where
  entity_type entity_id : PersistenceIdSegment

pub data InvalidPersistenceId : Type 0 where
  empty_segment : PersistenceIdSegment → InvalidPersistenceId
  segment_too_long : PersistenceIdSegment → InvalidPersistenceId
  slash_in_segment : PersistenceIdSegment → InvalidPersistenceId
  missing_separator : InvalidPersistenceId

abbrev pub is_empty : Text → Bool
is_empty [] = true
is_empty (c ∷ s) = false

-- `str::contains('/')`
abbrev pub has_slash : Text → Bool
has_slash [] = false
has_slash (c ∷ s) = nat_eq c slash || has_slash s

unfoldable pub valid_segment : Text → PersistenceIdSegment → Result Text InvalidPersistenceId
valid_segment value segment =
    if is_empty value
    then err (empty_segment segment)
    else if ltb max_segment_len (length value)
    then err (segment_too_long segment)
    else if has_slash value
    then err (slash_in_segment segment)
    else ok value

unfoldable pub new : Text → Text → Result PersistenceId InvalidPersistenceId
new t i = do
  t' ← valid_segment t entity_type
  i' ← valid_segment i entity_id
  ok (record { entity_type = t'; entity_id = i' })

cons_left : ℕ → Option (Text × Text) → Option (Text × Text)
cons_left c none = none
cons_left c (some (a, b)) = some (c ∷ a, b)

-- `str::split_once('/')`
unfoldable pub split_once : Text → Option (Text × Text)
unfolding cons_left
split_once [] = none
split_once (c ∷ s) =
    let rest = split_once s in if nat_eq c slash then some ([], s) else cons_left c rest

parse : Option (Text × Text) → Result PersistenceId InvalidPersistenceId
parse none = err missing_separator
parse (some (t, i)) = new t i

unfoldable pub from_str : Text → Result PersistenceId InvalidPersistenceId
unfolding parse
from_str s = parse (split_once s)

-- `Display`
unfoldable pub display : PersistenceId → Text
display id = id.entity_type ++ slash ∷ id.entity_id
