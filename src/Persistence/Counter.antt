-- ===== src/Persistence/Counter.antt =====
-- Test data: an actor that adds up what it is told, and the in-memory store that it persists in.
use mathlib.Core.Path.{subst}
use tellus.Prelude.{
  done-injective, ℕ, ◌+◌, ◌≡◌, refl, false, arith, Option, some, List, [], ◌∷◌, Caught, returned,
  panicked, Attempt, done, failed, if◌then◌else◌, nat_eq,
}
use tellus.Prelude.Dict.{lookup}
use tellus.Persistence.Id.{PersistenceId, Text}
use tellus.Persistence.Store.{EncodedEvent, EncodedSnapshot, StoredEvent, StoredSnapshot, Payload}
use tellus.Persistence.Versioned.{Codec, PayloadError, not_decodable, default_decode}
use tellus.Persistence.Effect.{Effect}
use tellus.Actor.{Incoming, message, terminated}
use tellus.Persistence.EventSourced.{EventSourced, Persistence}
use tellus.Persistence.InMemory.{
  InMemoryStore, in_memory_events, in_memory_snapshots, empty_store, events, load, read,
}
use tellus.Persistence.InMemory.Contract.{in_memory-IsEventStore, empty-IsGapless}
use tellus.Persistence.Recovery.{decode_snapshot}
use tellus.Persistence.Recovery.Replay.{replayed}
use tellus.Persistence.Recovery.Loop.{IsReadable}
use tellus.Persistence.Recovery.Snapshots.{IsCoherent}
use tellus.Persistence.Settle.Apply.{EventsRoundTrip}
use tellus.Persistence.Settle.Live.{SnapshotsRestore, IsLive}

abbrev pub number : Payload → Attempt ℕ PayloadError
number [] = failed not_decodable
number (n ∷ bytes) = done n

abbrev pub number_codec : Codec ℕ
number_codec = record { encode = λ n. done (n ∷ []); decode = number }

abbrev pub added : Text
added = b'a' ∷ []

abbrev pub total : Text
total = b't' ∷ []

abbrev pub counter_id : PersistenceId
counter_id = record { entity_type = b'c' ∷ []; entity_id = b'1' ∷ [] }

abbrev pub other_id : PersistenceId
other_id = record { entity_type = b'c' ∷ []; entity_id = b'2' ∷ [] }

-- An event of 0 is refused by a panic.
abbrev pub add : ℕ → ℕ → Caught ℕ
add s n = if nat_eq n 0 then panicked else returned (s + n)

abbrev pub adding : List ℕ → Effect ℕ ℕ ℕ
adding ns = record { events = ns; stop = false; thens = (λ s. returned s) ∷ [] }

abbrev pub on : Incoming ℕ → ℕ → Attempt (Effect ℕ ℕ ℕ) (⊥)
on (message n) s = done (adding (n ∷ []))
on (terminated id) s = done (adding [])

abbrev pub Counter : EventSourced
Counter = record {
  Command = ℕ;
  Event = ℕ;
  State = ℕ;
  Snapshot = ℕ;
  Error = ⊥;
  Out = ℕ;
  event = record { manifest = added; version = 1; decode = default_decode number_codec added 1 };
  snapshot_type = record {
    manifest = total;
    version = 1;
    decode = default_decode number_codec total 1;
  };
  persistence_id = returned counter_id;
  init = done 0;
  init_from_snapshot = λ n. done n;
  recovered = λ s. done s;
  handle = on;
  apply = add;
  snapshot = λ s. done (some s);
}

abbrev pub in_memory : Persistence InMemoryStore Counter
in_memory = record {
  event_store = in_memory_events;
  snapshot_store = in_memory_snapshots;
  event_codec = number_codec;
  snapshot_codec = number_codec;
}

abbrev pub event_of : ℕ → EncodedEvent
event_of n = record { manifest = added; schema_version = 1; payload = n ∷ [] }

abbrev pub total_of : ℕ → EncodedSnapshot
total_of n = record { manifest = total; schema_version = 1; payload = n ∷ [] }

abbrev pub stored_at : ℕ → ℕ → StoredEvent
stored_at k n = record { seq_no = k; event = event_of n }

number_round_trip :
    (m : Text) (x : ℕ) (payload : Payload)
    → number_codec.encode x ≡ done payload
    → default_decode number_codec m 1 1 payload ≡ done x
unfolding default_decode
number_round_trip m x payload h =
    subst (λ p. default_decode number_codec m 1 1 p ≡ done x) (done-injective h) refl

pub counter-EventsRoundTrip : EventsRoundTrip Counter in_memory
counter-EventsRoundTrip e payload h = number_round_trip added e payload h

pub counter-SnapshotsRestore : SnapshotsRestore Counter in_memory
counter-SnapshotsRestore = record {
  round_trip = number_round_trip total;
  restore = λ s x h. cc (done-injective h);
}

pub counter-IsLive : IsLive Counter in_memory in_memory-IsEventStore empty_store counter_id 0 0
unfolding events lookup load IsCoherent decode_snapshot replayed
counter-IsLive = record {
  valid = empty-IsGapless;
  position = refl;
  state = refl;
  coherent =
      λ stored h. subst {A = Option StoredSnapshot} (IsCoherent Counter []) (done-injective h) tt;
}

pub counter-IsReadable : IsReadable Counter in_memory in_memory-IsEventStore empty_store counter_id
unfolding events lookup read
counter-IsReadable = record {
  valid = empty-IsGapless;
  fits = omega arith;
  reads = λ n le. (_, refl);
}
