-- ===== src/Persistence/Life/Turn.antt =====
-- tellus/src/persistence/spawn.rs: what holds of the stores and of the actor through the turns of one
-- incarnation.
use tellus.Prelude.{
  ℕ, ◌+◌, ◌*◌, ◌≤◌, ◌≡◌, inl, inr, refl, ap, Bool-cases, Option, none, some, Option-cases, [], ◌∷◌,
  length, length-append, u64_max, arith, done, catch_and_log,
}
use tellus.Actor.{Incoming}
use tellus.Persistence.SeqNo.{SeqNo}
use tellus.Persistence.Id.{PersistenceId}
use tellus.Persistence.Store.{StoredSnapshot}
use tellus.Persistence.Store.Contract.{IsEventStore}
use tellus.Persistence.Store.Together.{AreStores}
use tellus.Persistence.Effect.{Effect}
use tellus.Persistence.EventSourced.{EventSourced, Persistence}
use tellus.Persistence.Recovery.Loop.{IsReadable}
use tellus.Persistence.Settle.{settle}
use tellus.Persistence.Settle.Apply.{EventsRoundTrip, length-encode_events}
use tellus.Persistence.Settle.Live.{SnapshotsRestore, IsLive}
use tellus.Persistence.Settle.Invariant.{settle-IsLive}
use tellus.Persistence.Settle.Failure.{settle-Landed}
use tellus.Persistence.Settle.Restarts.{IsKept, settle-IsKept}
use tellus.Persistence.Life.{
  Turns, Ended, stopped_by_parent, stopped_itself, failed, waiting, out_of_fuel, Incarnation,
  handle, serve,
}

-- What is asked of the stores and the actor: reads do not fail, what the actor does when it has
-- recovered leaves its state, and no effect has more than `most` events.
pub record IsReliable {World : Type 0} (A : EventSourced) (P : Persistence World A)
    (L : IsEventStore P.event_store) (id : PersistenceId) (most : ℕ) : Type 0 where
  pub readable : (w : World) → L.Valid w → length (L.stream w id) ≤ u64_max → IsReadable A P L w id
  pub loads :
      (w : World) → (stored : Option StoredSnapshot) × (P.snapshot_store.load w id ≡ done stored)
  pub keeps : (s s' : A.State) → catch_and_log (A.recovered s) ≡ some s' → s' ≡ s
  pub few :
      (incoming : Incoming A.Command) (s : A.State) (e : Effect A.Event A.State A.Out)
      → handle A P incoming s ≡ some e
      → length e.events ≤ most

module _ {World : Type 0} (A : EventSourced) (P : Persistence World A)
    (L : IsEventStore P.event_store) (id : PersistenceId) where
  -- An actor that waits for its next turn has exactly the state that its durable stream replays to.
  abbrev pub Tells : World → Ended A P → Type 0
  Tells w stopped_by_parent = Unit
  Tells w stopped_itself = Unit
  Tells w failed = Unit
  Tells w (waiting j s n) = (j ≡ id) × IsLive A P L w id s n
  Tells w out_of_fuel = ⊥

  -- What holds at the end of an incarnation, where `limit` bounds what the stream may come to.
  pub record IsFine (most limit : ℕ) (i : Incarnation A P) : Type 0 where
    pub kept : IsKept A P L i.world id
    pub room : length (L.stream i.world id) + most * length i.rest ≤ limit
    pub tells : Tells i.world i.ended

module _ {World : Type 0} (A : EventSourced) (P : Persistence World A)
    (L : IsEventStore P.event_store) (together : AreStores P.event_store P.snapshot_store L)
    (events_round_trip : EventsRoundTrip A P) (snapshots : SnapshotsRestore A P)
    (id : PersistenceId) (most limit : ℕ) (reliable : IsReliable A P L id most)
    (fits : limit ≤ u64_max) where
  live-IsKept : (w : World) (s : A.State) (n : SeqNo) → IsLive A P L w id s n → IsKept A P L w id
  live-IsKept w s n v = record { valid = v.valid; coherent = v.coherent }

  failed-length :
      (w : World) (s : A.State) (n : SeqNo) (effect : Effect A.Event A.State A.Out)
      → IsLive A P L w id s n
      → length (L.stream w id) + length effect.events ≤ u64_max
      → length (L.stream (settle A P w id s n effect).world id)
        ≤ length (L.stream w id) + length effect.events
  failed-length w s n effect live room =
      elim (settle-Landed A P L together w id s n effect live.valid room) [
        | inl (_, _, same) ↦ omega (arith, ap length same)
        | inr (xs, encoded, grown) ↦ omega (
          arith,
          ap length grown,
          length-append (L.stream w id) xs,
          length-encode_events A P effect.events xs encoded,
        )
      ]

  pub serve-IsFine :
      (w : World) (s : A.State) (n : SeqNo) (turns : Turns A P)
      → IsLive A P L w id s n
      → length (L.stream w id) + most * length turns ≤ limit
      → IsFine A P L id most limit (serve A P w id s n turns)
  unfolding serve
  serve-IsFine w s n [] live room = record {
    kept = live-IsKept w s n live;
    room = room;
    tells = (refl, live);
  }
  serve-IsFine w s n (none ∷ turns) live room = record {
    kept = live-IsKept w s n live;
    room = room;
    tells = tt;
  }
  serve-IsFine w s n (some incoming ∷ turns) live room =
      elim (Option-cases (handle A P incoming s)) [
        | inl e ↦
            rw (e, serve) (record { kept = live-IsKept w s n live; room = grind arith; tells = tt })
        | inr (effect, e) ↦
            let count = reliable.few incoming s effect e in
            let behind : length (L.stream w id) + most + most * length turns ≤ limit =
              grind arith in
            let here : length (L.stream w id) + length effect.events ≤ u64_max =
              omega (arith, behind, count) in
            elim (Option-cases (settle A P w id s n effect).outcome) [
              | inl f ↦
                  rw (e, serve)
                    (rw f (record {
                      kept =
                          settle-IsKept A P L together w id s n effect (live-IsKept w s n live) here
                            f;
                      room = omega (arith, behind, count, failed-length w s n effect live here);
                      tells = tt;
                    }))
              | inr (settled, f) ↦
                  let (now, size) =
                    settle-IsLive A P L together events_round_trip snapshots w id s n effect settled
                      live here f in
                  let later : length (L.stream (settle A P w id s n effect).world id)
                        + most * length turns
                      ≤ limit =
                    omega (arith, behind, count, size) in
                  elim (Bool-cases settled.stop) [
                    | inl g ↦
                        rw (e, serve)
                          (rw f (
                            rw g (record {
                              kept =
                                  live-IsKept (settle A P w id s n effect).world settled.state
                                    settled.next_seq_no now;
                              room = later;
                              tells = tt;
                            })))
                    | inr g ↦
                        rw (e, serve)
                          (rw f (
                            rw g (
                              serve-IsFine (settle A P w id s n effect).world settled.state
                                settled.next_seq_no turns now later)))
                  ]
            ]
      ]
