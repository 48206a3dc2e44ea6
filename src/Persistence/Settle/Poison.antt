-- ===== src/Persistence/Settle/Poison.antt =====
-- tellus/src/persistence/spawn.rs, `settle`, with an event that `apply` does not take, against what
-- tellus/src/persistence/event_sourced.rs asks of it.
use mathlib.Core.List.{append_assoc}
use tellus.Prelude.{
  ◌+◌, ◌≤◌, ◌≡◌, ◌⊎◌, ap, ◌∙◌, inl, inr, none, List, [], ◌++◌, length, u64_max, done, panicked,
  catch_panic_and_log, and_then,
}
use tellus.Persistence.SeqNo.{SeqNo}
use tellus.Persistence.Id.{PersistenceId}
use tellus.Persistence.Store.{EncodedEvent}
use tellus.Persistence.Store.Contract.{IsEventStore}
use tellus.Persistence.Store.Together.{AreStores}
use tellus.Persistence.Effect.{Effect}
use tellus.Persistence.EventSourced.{EventSourced, Persistence}
use tellus.Persistence.Recovery.Replay.{replayed, replayed-append}
use tellus.Persistence.Recovery.Snapshots.{full_replay}
use tellus.Persistence.Settle.{apply_events, encode_events, settle}
use tellus.Persistence.Settle.Apply.{EventsRoundTrip, replayed-encode_events}
use tellus.Persistence.Settle.Live.{IsLive, full_replay-append}
use tellus.Persistence.Settle.Failure.{settle-Landed}
use tellus.Persistence.Settle.AsTested.{settle-eq-tested}
use tellus.Testing.{run_applied}
use tellus.Testing

module _ {World : Type 0} (A : EventSourced) (P : Persistence World A)
    (L : IsEventStore P.event_store) (together : AreStores P.event_store P.snapshot_store L)
    (events_round_trip : EventsRoundTrip A P) where
  emitted_of_panic :
      (w : World) (id : PersistenceId) (s : A.State) (n : SeqNo)
      (effect : Effect A.Event A.State A.Out)
      → apply_events A s effect.events ≡ panicked
      → (settle A P w id s n effect).emitted ≡ []
  unfolding tellus.Testing.settle run_applied
  emitted_of_panic w id s n effect refused = elim (settle-eq-tested A P w id s n effect) [
    | inl (_, _, silent) ↦ silent
    | inr (_, silent) ↦ silent ∙ ap (λ r. (run_applied A effect r).emitted) refused
  ]

  replayed-none :
      (s : A.State) (events : List A.Event) (xs later : List EncodedEvent)
      → encode_events A P events ≡ done xs
      → apply_events A s events ≡ panicked
      → replayed A s (xs ++ later) ≡ none
  replayed-none s events xs later encoded refused =
      let none_left =
        replayed-encode_events A P events_round_trip s events xs encoded
        ∙ ap catch_panic_and_log refused in
      replayed-append A s xs later ∙ ap (λ o. and_then o (λ t. replayed A t later)) none_left

  -- Where `apply` panics on an event of a live actor's effect, nothing is emitted, and either the
  -- stream is as it was, or no replay of it succeeds any more, whatever is appended later: so `apply`
  -- has to be total, as its documentation asks. It is asked that the stores keep their laws, that
  -- events decode to what was encoded and that the stream stays within a `u64`.
  pub settle_poisoned :
      (w : World) (id : PersistenceId) (s : A.State) (n : SeqNo)
      (effect : Effect A.Event A.State A.Out) (later : List EncodedEvent)
      → IsLive A P L w id s n
      → length (L.stream w id) + length effect.events ≤ u64_max
      → apply_events A s effect.events ≡ panicked
      → ((settle A P w id s n effect).emitted ≡ [])
        × ((L.stream (settle A P w id s n effect).world id ≡ L.stream w id)
            ⊎ (full_replay A (L.stream (settle A P w id s n effect).world id ++ later) ≡ none))
  settle_poisoned w id s n effect later live room refused = (
    emitted_of_panic w id s n effect refused,
    elim (settle-Landed A P L together w id s n effect live.valid room) [
      | inl (_, _, same) ↦ inl same
      | inr (xs, encoded, grown) ↦ inr (
          ap (λ es. full_replay A (es ++ later)) grown
          ∙ ap (full_replay A) (append_assoc (L.stream w id) xs later)
          ∙ full_replay-append A (L.stream w id) (xs ++ later) s live.state
          ∙ replayed-none s effect.events xs later encoded refused)
    ],
  )
