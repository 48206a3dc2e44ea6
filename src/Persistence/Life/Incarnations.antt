-- ===== src/Persistence/Life/Incarnations.antt =====
-- tellus/src/persistence/spawn.rs: what holds of the stores and of the actor through all incarnations.
use mathlib.Core.Path.{subst}
use tellus.Prelude.{
  ℕ, ◌+◌, ◌*◌, ◌≤◌, ◌<◌, ◌≡◌, inl, inr, ap, sym, ◌∙◌, Bool, true, false, none, some, Option-cases,
  List, [], ◌∷◌, length, u64_max, arith, catch_and_log, returned,
}
use tellus.Config.{SupervisionStrategy}
use tellus.Lifecycle.{Pause}
use tellus.Persistence.Id.{PersistenceId}
use tellus.Persistence.Store.Contract.{IsEventStore}
use tellus.Persistence.Store.Together.{AreStores}
use tellus.Persistence.EventSourced.{EventSourced, Persistence}
use tellus.Persistence.Recovery.{Recovered, recover}
use tellus.Persistence.Recovery.Snapshots.{recover-full_replay, recovered_at, full_replay}
use tellus.Persistence.Settle.Apply.{EventsRoundTrip}
use tellus.Persistence.Settle.Live.{SnapshotsRestore, IsLive}
use tellus.Persistence.Settle.Durable.{recover-IsLive}
use tellus.Persistence.Settle.Restarts.{IsKept}
use tellus.Persistence.Life.{
  Turns, Ended, stopped_by_parent, stopped_itself, failed, waiting, out_of_fuel, Incarnation, serve,
  reconcile, after_recover, incarnate, goes_on, life,
}
use tellus.Persistence.Life.Turn.{IsReliable, IsFine, serve-IsFine}

module _ {World : Type 0} (A : EventSourced) (P : Persistence World A)
    (L : IsEventStore P.event_store) (together : AreStores P.event_store P.snapshot_store L)
    (events_round_trip : EventsRoundTrip A P) (snapshots : SnapshotsRestore A P)
    (id : PersistenceId) (named : A.persistence_id ≡ returned id) (most limit fuel : ℕ)
    (reliable : IsReliable A P L id most) (fits : limit ≤ u64_max) (enough : limit < fuel) where
  reconcile-IsFine :
      (w : World) (r : Recovered A.State) (turns : Turns A P)
      → (r.id ≡ id) × IsLive A P L w id r.state r.next_seq_no
      → IsKept A P L w id
      → length (L.stream w id) + most * length turns ≤ limit
      → IsFine A P L id most limit (reconcile A P w r turns)
  unfolding reconcile
  reconcile-IsFine w r turns (same, live) kept room =
      elim (Option-cases (catch_and_log (A.recovered r.state))) [
        | inl e ↦ rw (e, reconcile) (record { kept = kept; room = room; tells = tt })
        | inr (state, e) ↦
            rw (e, reconcile)
              (subst (λ j. IsFine A P L id most limit (serve A P w j state r.next_seq_no turns))
                (sym same)
                (subst (λ s. IsFine A P L id most limit (serve A P w id s r.next_seq_no turns))
                  (sym (reliable.keeps r.state state e))
                  (serve-IsFine A P L together events_round_trip snapshots id most limit reliable
                    fits w r.state r.next_seq_no turns live room)))
      ]

  recovers :
      (w : World) (turns : Turns A P)
      → IsKept A P L w id
      → length (L.stream w id) + most * length turns ≤ limit
      → IsFine A P L id most limit (after_recover A P w (recover A P fuel w) turns)
  unfolding after_recover
  recovers w turns kept room =
      let (stored, loaded) = reliable.loads w in
      let readable = reliable.readable w kept.valid (omega arith) in
      let coherent = kept.coherent stored loaded in
      let ended =
        recover-full_replay A P L w id readable fuel stored named loaded coherent (omega arith) in
      elim (Option-cases
        (recovered_at A id (length (L.stream w id)) (full_replay A (L.stream w id)))) [
          | inl e ↦
              rw (ended ∙ ap some e, after_recover)
                (record { kept = kept; room = room; tells = tt })
          | inr (r, e) ↦
              rw (ended ∙ ap some e, after_recover)
                (reconcile-IsFine w r turns
                  (recover-IsLive A P L fuel w id stored r readable named loaded coherent
                    (omega arith) (ended ∙ ap some e))
                  kept room)
        ]

  incarnate-IsFine :
      (w : World) (turns : Turns A P)
      → IsKept A P L w id
      → length (L.stream w id) + most * length turns ≤ limit
      → IsFine A P L id most limit (incarnate A P fuel w turns)
  unfolding incarnate
  incarnate-IsFine w [] kept room = recovers w [] kept room
  incarnate-IsFine w (none ∷ turns) kept room = record { kept = kept; room = room; tells = tt }
  incarnate-IsFine w (some incoming ∷ turns) kept room =
      recovers w (some incoming ∷ turns) kept room

  abbrev pub AllFine : List (Incarnation A P) → Type 0
  AllFine [] = Unit
  AllFine (i ∷ is) = IsFine A P L id most limit i × AllFine is

  goes_on-AllFine :
      (i : Incarnation A P) (ended : Ended A P) (restarting : Bool) (again : List (Incarnation A P))
      → IsFine A P L id most limit i
      → AllFine again
      → AllFine (goes_on A P i ended restarting again)
  unfolding goes_on
  goes_on-AllFine i failed true again f fs = (f, fs)
  goes_on-AllFine i failed false again f fs = (f, tt)
  goes_on-AllFine i stopped_by_parent restarting again f fs = (f, tt)
  goes_on-AllFine i stopped_itself restarting again f fs = (f, tt)
  goes_on-AllFine i (waiting j s n) restarting again f fs = (f, tt)
  goes_on-AllFine i out_of_fuel restarting again f fs = (f, tt)

  -- Over its whole life, whatever fails in it and however often it is restarted, an event-sourced
  -- actor leaves its stores sound at the end of each incarnation, and where it waits for its next
  -- turn its state is exactly what its durable stream replays to; fuel above what the stream may come
  -- to is enough for every recovery. It is asked that reads do not fail, that the stores keep their
  -- laws, that events and snapshots decode to what was encoded, that the snapshot of a state
  -- initialises it, that `recovered` leaves the state, that no effect has more than `most` events and
  -- that the stream stays within a `u64`.
  pub life-AllFine :
      (strategy : SupervisionStrategy) (pauses : List Pause) (restarts : ℕ) (w : World)
      (turns : Turns A P)
      → IsKept A P L w id
      → length (L.stream w id) + most * length turns ≤ limit
      → AllFine (life A P fuel strategy pauses restarts w turns)
  unfolding life
  life-AllFine strategy [] restarts w turns kept room = (incarnate-IsFine w turns kept room, tt)
  life-AllFine strategy (pause ∷ pauses) restarts w turns kept room =
      let i = incarnate A P fuel w turns in
      let fine = incarnate-IsFine w turns kept room in
      goes_on-AllFine i i.ended _ _ fine
        (life-AllFine strategy pauses _ i.world i.rest fine.kept fine.room)
