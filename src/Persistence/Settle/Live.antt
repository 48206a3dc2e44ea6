-- ===== src/Persistence/Settle/Live.antt =====
-- tellus/src/persistence/spawn.rs: a running actor and its stored stream agree after each step of
-- `settle`.
use mathlib.Core.Path.{subst}
use tellus.Prelude.{
  ◌+◌, ◌≤◌, ◌≡◌, refl, ap, sym, ◌∙◌, Option, none, some, List, ◌++◌, length, length-append,
  take_all, take-append_le, u64_max, arith, done, catch_and_log, catch_panic_and_log, and_then,
  bind_attempt-eq-done, done-injective, map_failed, done_of_map_failed,
}
use tellus.Prelude.Dict.{nat_key, list_eq_iff}
use tellus.Persistence.SeqNo.{SeqNo, advanced_by_exact}
use tellus.Persistence.Id.{PersistenceId}
use tellus.Persistence.Store.{EncodedEvent, EncodedSnapshot, StoredSnapshot, Payload}
use tellus.Persistence.Store.Contract.{IsEventStore}
use tellus.Persistence.Store.Together.{AreStores}
use tellus.Persistence.Versioned.{decode_versioned}
use tellus.Persistence.EventSourced.{EventSourced, Persistence}
use tellus.Persistence.Recovery.{decode_snapshot, keep_decoded}
use tellus.Persistence.Recovery.Replay.{replayed, replayed-append}
use tellus.Persistence.Recovery.Snapshots.{full_replay, IsCoherent, StandsFor}
use tellus.Persistence.Settle.{encode_some, encode, with_snapshot_tags}
use tellus.Persistence.Settle.Apply.{EventsRoundTrip, replayed-encode_events, length-encode_events}
use tellus.Persistence.Settle.Persist.{Persisted}

-- What the documentation of `EventSourced` asks of snapshots: one that was encoded decodes, and the
-- state that it was taken of is initialised from it.
pub record SnapshotsRestore {World : Type 0} (A : EventSourced) (P : Persistence World A)
    : Type 0 where
  pub round_trip :
      (x : A.Snapshot) (payload : Payload)
      → P.snapshot_codec.encode x ≡ done payload
      → A.snapshot_type.decode A.snapshot_type.version payload ≡ done x
  pub restore :
      (s : A.State) (x : A.Snapshot)
      → A.snapshot s ≡ done (some x)
      → A.init_from_snapshot x ≡ done s

-- The actor's state is what its stream replays to, its position is the stream's end, and a stored
-- snapshot stands for a state on the way.
pub record IsLive {World : Type 0} (A : EventSourced) (P : Persistence World A)
    (L : IsEventStore P.event_store) (w : World) (id : PersistenceId) (s : A.State) (n : SeqNo)
    : Type 0 where
  pub valid : L.Valid w
  pub position : n ≡ length (L.stream w id)
  pub state : full_replay A (L.stream w id) ≡ some s
  pub coherent :
      (stored : Option StoredSnapshot)
      → P.snapshot_store.load w id ≡ done stored
      → IsCoherent A (L.stream w id) stored

module _ (A : EventSourced) where
  StandsFor-append :
      (xs ys : List EncodedEvent) (d : Option (A.Snapshot × SeqNo))
      → StandsFor A xs d
      → StandsFor A (xs ++ ys) d
  StandsFor-append xs ys none h = tt
  StandsFor-append xs ys (some (x, n)) (le, same) = (
    omega (arith, length-append xs ys),
    same ∙ ap (full_replay A) (sym (take-append_le n xs ys le)),
  )

  -- A snapshot keeps its place while the stream grows.
  pub IsCoherent-append :
      (xs ys : List EncodedEvent) (stored : Option StoredSnapshot)
      → IsCoherent A xs stored
      → IsCoherent A (xs ++ ys) stored
  unfolding IsCoherent
  IsCoherent-append xs ys stored = StandsFor-append xs ys (decode_snapshot A stored)

  pub full_replay-append :
      (xs ys : List EncodedEvent) (s : A.State)
      → full_replay A xs ≡ some s
      → full_replay A (xs ++ ys) ≡ replayed A s ys
  full_replay-append xs ys s h = go (catch_and_log A.init) h
    where
      go :
          (o : Option A.State)
          → and_then o (λ s. replayed A s xs) ≡ some s
          → and_then o (λ s. replayed A s (xs ++ ys)) ≡ replayed A s ys
      go none h = cc
      go (some x) h = replayed-append A x xs ys ∙ ap (λ r. and_then r (λ s. replayed A s ys)) h

module _ {World : Type 0} (A : EventSourced) (P : Persistence World A)
    (snapshots : SnapshotsRestore A P) where
  tagged : Payload → EncodedSnapshot
  tagged payload = record {
    manifest = A.snapshot_type.manifest;
    schema_version = A.snapshot_type.version;
    payload = payload;
  }

  decode_snapshot-tagged :
      (x : A.Snapshot) (payload : Payload) (n : SeqNo)
      → P.snapshot_codec.encode x ≡ done payload
      → decode_snapshot A (some (record { next_seq_no = n; snapshot = tagged payload }))
        ≡ some (x, n)
  unfolding decode_snapshot decode_versioned keep_decoded tagged
  decode_snapshot-tagged x payload n e =
      rw ((list_eq_iff A.snapshot_type.manifest A.snapshot_type.manifest).1 refl)
        (rw (snapshots.round_trip x payload e) refl)

  StandsFor-taken :
      (s : A.State) (x : A.Snapshot) (n : SeqNo) (es : List EncodedEvent)
      → A.snapshot s ≡ done (some x)
      → full_replay A es ≡ some s
      → n ≡ length es
      → StandsFor A es (some (x, n))
  StandsFor-taken s x n es taken live end = (
    omega (arith, end),
    ap catch_and_log (snapshots.restore s x taken)
        ∙ sym (ap (full_replay A) (take_all n es (omega (arith, end))) ∙ live),
  )

  pub encode_some_StandsFor :
      (s : A.State) (o : Option A.Snapshot) (x : EncodedSnapshot) (n : SeqNo)
      (es : List EncodedEvent)
      → A.snapshot s ≡ done o
      → encode_some A P o ≡ done (some x)
      → full_replay A es ≡ some s
      → n ≡ length es
      → IsCoherent A es (some (record { next_seq_no = n; snapshot = x }))
  unfolding encode_some IsCoherent tagged
  encode_some_StandsFor s none x n es taken h live end = absurd (cc h)
  encode_some_StandsFor s (some y) x n es taken h live end =
      let (payload, e, same) =
        bind_attempt-eq-done (map_failed encode (P.snapshot_codec.encode y)) (with_snapshot_tags A)
          h in
      let is_x : tagged payload ≡ x = cc (done-injective same) in
      subst (λ z. IsCoherent A es (some (record { next_seq_no = n; snapshot = z }))) is_x
        (subst (StandsFor A es)
          (sym (
            decode_snapshot-tagged y payload n
              (done_of_map_failed encode (P.snapshot_codec.encode y) e)))
          (StandsFor-taken s y n es taken live end))

module _ {World : Type 0} (A : EventSourced) (P : Persistence World A)
    (L : IsEventStore P.event_store) (together : AreStores P.event_store P.snapshot_store L)
    (events_round_trip : EventsRoundTrip A P) where
  pub Persisted-IsLive :
      (w : World) (id : PersistenceId) (s : A.State) (n : SeqNo) (events : List A.Event)
      (s' : A.State) (n' : SeqNo) (w' : World)
      → IsLive A P L w id s n
      → length (L.stream w id) + length events ≤ u64_max
      → Persisted A P w id s n events s' n' w'
      → IsLive A P L w' id s' n'
        × (length (L.stream w' id) ≡ length (L.stream w id) + length events)
  Persisted-IsLive w id s n events s' n' w' live room p =
      let xs = p.encoded in
      let count = length-encode_events A P events xs p.are_encoded in
      let fits : length (L.stream w id) + length xs ≤ u64_max = omega (arith, count, room) in
      let (at_end, grown) = L.append_ok w id n xs live.valid fits p.accepted in
      let grown' = ap (λ v. L.stream v id) p.left ∙ grown in
      let size = ap length grown' ∙ length-append (L.stream w id) xs in
      (
        record {
          valid = subst L.Valid (sym p.left) (L.append_Valid w id n xs live.valid fits);
          position = omega (
            arith,
            p.advanced,
            advanced_by_exact n (length events) (omega (arith, live.position, room)),
            live.position,
            size,
            count,
          );
          state =
              ap (full_replay A) grown'
              ∙ full_replay-append A (L.stream w id) xs s live.state
              ∙ replayed-encode_events A P events_round_trip s events xs p.are_encoded
              ∙ ap catch_panic_and_log p.are_applied;
          coherent = λ stored loaded.
              subst (λ es. IsCoherent A es stored) (sym grown')
                (IsCoherent-append A (L.stream w id) xs stored (
                  live.coherent stored (
                    sym (together.load-append w id id n xs)
                    ∙ sym (ap (λ v. P.snapshot_store.load v id) p.left)
                    ∙ loaded)));
        },
        omega (arith, size, count),
      )
