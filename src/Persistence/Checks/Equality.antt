-- ===== src/Persistence/Checks/Equality.antt =====
-- tellus/src/persistence/store.rs: the derived `PartialEq` of what is stored.
use tellus.Prelude.{
  ◌≡◌, ◌↔◌, Bool, true, false, ◌&&◌, nat_eq, nat_eq_iff, arith, Option, none, some,
}
use tellus.Prelude.Dict.{Key, nat_key, list_eq, list_eq_iff}
use tellus.Persistence.Store.{EncodedEvent, EncodedSnapshot, StoredSnapshot}

abbrev pub event_eq : EncodedEvent → EncodedEvent → Bool
event_eq a b =
    list_eq a.manifest b.manifest
    && nat_eq a.schema_version b.schema_version
    && list_eq a.payload b.payload

pub event_eq_iff : (a b : EncodedEvent) → (event_eq a b ≡ true) ↔ (a ≡ b)
event_eq_iff a b = ground (
  arith,
  list_eq_iff a.manifest b.manifest,
  nat_eq_iff a.schema_version b.schema_version,
  list_eq_iff a.payload b.payload,
)

instance abbrev pub event_key : Key EncodedEvent
event_key = record { same = event_eq; same_iff = event_eq_iff }

abbrev pub snapshot_eq : EncodedSnapshot → EncodedSnapshot → Bool
snapshot_eq a b =
    list_eq a.manifest b.manifest
    && nat_eq a.schema_version b.schema_version
    && list_eq a.payload b.payload

-- Of two loaded snapshots.
abbrev pub loaded_eq : Option StoredSnapshot → Option StoredSnapshot → Bool
loaded_eq none none = true
loaded_eq none (some b) = false
loaded_eq (some a) none = false
loaded_eq (some a) (some b) =
    nat_eq a.next_seq_no b.next_seq_no && snapshot_eq a.snapshot b.snapshot

pub loaded_eq_refl : (a : Option StoredSnapshot) → loaded_eq a a ≡ true
loaded_eq_refl none = ground arith
loaded_eq_refl (some a) = ground (
  arith,
  nat_eq_iff a.next_seq_no a.next_seq_no,
  list_eq_iff a.snapshot.manifest a.snapshot.manifest,
  nat_eq_iff a.snapshot.schema_version a.snapshot.schema_version,
  list_eq_iff a.snapshot.payload a.snapshot.payload,
)
