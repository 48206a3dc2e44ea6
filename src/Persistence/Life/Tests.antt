-- ===== src/Persistence/Life/Tests.antt =====
-- tellus/src/persistence/spawn.rs: the theorems at test data.
use tellus.Prelude.{ℕ, ◌≡◌, ◌≤◌, refl, Option, some, List, [], ◌∷◌, length, arith, false}
use tellus.Prelude.Dict.{lookup, list_eq, insert}
use tellus.Config.{RestartPolicy, restart, default_backoff}
use tellus.Supervision.{Parent}
use tellus.Actor.{Incoming, message, terminated}
use tellus.Lifecycle.{Pause}
use tellus.Persistence.Effect.{Effect}
use tellus.Persistence.InMemory.{empty_store, events, append, push_all, read, load, save}
use tellus.Persistence.InMemory.Contract.{in_memory-IsEventStore, stream}
use tellus.Persistence.InMemory.Together.{in_memory-AreStores}
use tellus.Persistence.Recovery.{
  recover, initial, replay_from, replay_page, page_limit, decode_snapshot,
}
use tellus.Persistence.Settle.{
  settle, encode_events, apply_events, run_thens, save_snapshot, encode_snapshot,
}
use tellus.Persistence.SeqNo.{advanced_by}
use tellus.Persistence.Settle.Restarts.{IsKept}
use tellus.Persistence.Counter.{
  Counter, in_memory, counter_id, counter-EventsRoundTrip, counter-SnapshotsRestore, counter-IsLive,
}
use tellus.Persistence.Life.{Incarnation, Ended, life, handle, waiting}
use tellus.Persistence.Life.Turn.{IsReliable}
use tellus.Persistence.Life.Incarnations.{AllFine, life-AllFine}

few_events :
    (incoming : Incoming ℕ) (s : ℕ) (e : Effect ℕ ℕ ℕ)
    → handle Counter in_memory incoming s ≡ some e
    → length e.events ≤ 1
unfolding handle
few_events (message n) s e h = ground (arith, h)
few_events (terminated id) s e h = ground (arith, h)

counter-IsReliable : IsReliable Counter in_memory in_memory-IsEventStore counter_id 1
unfolding read load
counter-IsReliable = record {
  readable = λ w v fits. record { valid = v; fits = fits; reads = λ n le. (_, refl) };
  loads = λ w. (_, refl);
  keeps = λ s s' h. cc;
  few = few_events;
}

nothing-IsKept : IsKept Counter in_memory in_memory-IsEventStore empty_store counter_id
nothing-IsKept = record { valid = counter-IsLive.valid; coherent = counter-IsLive.coherent }

nothing_stored : length (stream empty_store counter_id) ≡ 0
unfolding events lookup
nothing_stored = refl

abbrev undisturbed : Parent
undisturbed = record { changed_before = some false; changed_after = some false; stop_wins = false }

abbrev soon : Pause
soon = record { elapsed = 5; parent = undisturbed }

abbrev once : RestartPolicy
once = record { max_restarts = 1; backoff = default_backoff; reset_after = 1000 }

abbrev turns : List (Option (Incoming ℕ))
turns = some (message 4) ∷ some (message 5) ∷ []

life-AllFine_example :
    AllFine Counter in_memory in_memory-IsEventStore in_memory-AreStores counter-EventsRoundTrip
      counter-SnapshotsRestore counter_id refl 1 2 3 counter-IsReliable
      (omega arith)
      (omega arith)
      (life Counter in_memory 3 (restart once) (soon ∷ []) 0 empty_store turns)
life-AllFine_example =
    life-AllFine Counter in_memory in_memory-IsEventStore in_memory-AreStores
      counter-EventsRoundTrip counter-SnapshotsRestore counter_id refl 1 2 3 counter-IsReliable
      (omega arith) (omega arith) (restart once) (soon ∷ []) 0 empty_store turns nothing-IsKept
      (rw nothing_stored (omega arith))

ends_of : List (Incarnation Counter in_memory) → List (Ended Counter in_memory)
ends_of [] = []
ends_of (i ∷ is) = i.ended ∷ ends_of is

counts :
    ends_of (life Counter in_memory 3 (restart once) (soon ∷ []) 0 empty_store turns)
    ≡ waiting counter_id 9 2 ∷ []
unfolding ends_of life recover load initial decode_snapshot lookup replay_from read replay_page
    page_limit settle encode_events append apply_events run_thens save_snapshot encode_snapshot
    insert list_eq events push_all advanced_by save
counts = refl
