-- ===== src/Persistence/Id/Tests.antt =====
-- tellus/src/persistence/persistence_id.rs: runs, and the theorems at test data.
use tellus.Prelude.{◌↔◌, ◌≡◌, ◌∷◌, [], ok, refl}
use tellus.Persistence.Id.{
  PersistenceId, new, from_str, display, valid_segment, split_once, parse, cons_left,
}
use tellus.Persistence.Id.Format.{IsId, from_str_iff}

abbrev account : PersistenceId
account = record { entity_type = b'a' ∷ b'c' ∷ []; entity_id = b'7' ∷ [] }

from_str_iff_example :
    (from_str (b'a' ∷ b'c' ∷ b'/' ∷ b'7' ∷ []) ≡ ok account)
    ↔ (IsId account × (display account ≡ b'a' ∷ b'c' ∷ b'/' ∷ b'7' ∷ []))
from_str_iff_example = from_str_iff (b'a' ∷ b'c' ∷ b'/' ∷ b'7' ∷ []) account

parsed : from_str (b'a' ∷ b'c' ∷ b'/' ∷ b'7' ∷ []) ≡ ok account
unfolding from_str split_once parse cons_left new valid_segment
parsed = refl
