-- ===== src/Host/Hosting.antt =====
-- tellus/src/host.rs: the two maps of a host agree after whatever it receives.
use tellus.Prelude.{
  ℕ, ◌-◌, ◌≤◌, ◌≡◌, ◌↔◌, refl, ap, Bool, true, false, Bool-cases, inl, inr, Option, none, some, [],
  ◌∷◌, ◌++◌, length, length-append, ltb, ltb→lt, arith,
}
use tellus.Prelude.Dict.{
  Key, ◌==◌, nat_key, Dict, lookup, insert, erase, lookup-insert, lookup-erase,
}
use tellus.Actor.{ActorId, Incoming, message, terminated}
use tellus.Backoff.{Duration}
use tellus.Host.{
  HostConfig, HostEnvelope, Entry, live, stopping, State, Surroundings, route_to, route, respawn,
  entity_terminated, passivated, passivate_entry, sweep, sweep_idle, passivate_idle, tick,
  tick_later, signalled, receive, is_ticker,
}

abbrev pub actor_of : {M : Type 0} → Entry M → ActorId
actor_of (live actor last_message) = actor
actor_of (stopping actor buffered) = actor

abbrev pub buffered_in : {M : Type 0} → Option (Entry M) → ℕ
buffered_in none = 0
buffered_in (some (live actor last_message)) = 0
buffered_in (some (stopping actor buffered)) = length buffered

abbrev pub actor_in : {M : Type 0} → Option (Entry M) → Option ActorId
actor_in none = none
actor_in (some e) = some (actor_of e)

-- One entity for each key, found from its ID and from its key alike, and no more than the buffer
-- for any of them.
pub record IsHosting {K M : Type 0} ⦃key : Key K⦄ (config : HostConfig) (st : State K M)
    : Type 0 where
  pub agree :
      (k : K) (id : ActorId)
      → (actor_in (lookup k st.entries) ≡ some id) ↔ (lookup id st.keys ≡ some k)
  pub fits : (k : K) → buffered_in (lookup k st.entries) ≤ config.buffer

module _ {World K M : Type 0} ⦃key : Key K⦄ (config : HostConfig) (passivate : M)
    (S : Surroundings World K M) where
  -- An entry that keeps its actor changes nothing for the keys.
  replaced-IsHosting :
      (st : State K M) (k : K) (e : Entry M)
      → IsHosting config st
      → actor_in (lookup k st.entries) ≡ some (actor_of e)
      → buffered_in (some e) ≤ config.buffer
      → IsHosting config (record st { entries = insert k e st.entries })
  replaced-IsHosting st k e v same le = record {
    agree = λ j id. ground (
      arith,
      lookup-insert k j e st.entries,
      v.agree j id,
      key.same_iff k j,
      ap (λ i. lookup i st.entries),
    );
    fits = λ j. ground (arith, lookup-insert k j e st.entries, v.fits j);
  }

  -- A fresh entity under a key that has none.
  spawned-IsHosting :
      (st : State K M) (k : K) (actor : ActorId) (t : Duration)
      → IsHosting config st
      → lookup k st.entries ≡ none
      → lookup actor st.keys ≡ none
      → IsHosting config (record st {
        keys = insert actor k st.keys;
        entries = insert k (live actor t) st.entries;
      })
  spawned-IsHosting st k actor t v vacant fresh = record {
    agree = λ j id. ground (
      arith,
      lookup-insert k j (live actor t) st.entries,
      lookup-insert actor id k st.keys,
      v.agree j id,
      v.agree k id,
      v.agree j actor,
      key.same_iff k j,
    );
    fits = λ j. ground (arith, lookup-insert k j (live actor t) st.entries, v.fits j);
  }

  -- An entity that is gone from both maps.
  removed-IsHosting :
      (st : State K M) (k : K) (id : ActorId)
      → IsHosting config st
      → lookup id st.keys ≡ some k
      → IsHosting config (record st { keys = erase id st.keys; entries = erase k st.entries })
  removed-IsHosting st k id v known = record {
    agree = λ j i. ground (
      arith,
      lookup-erase k j st.entries,
      lookup-erase id i st.keys,
      v.agree j i,
      v.agree k i,
      v.agree j id,
      v.agree k id,
      key.same_iff k j,
    );
    fits = λ j. ground (arith, lookup-erase k j st.entries, v.fits j);
  }

  route_to-IsHosting :
      (st : State K M) (w : World) (k : K) (m : M) (o : Option (Entry M))
      → IsHosting config st
      → lookup k st.entries ≡ o
      → lookup (S.spawn_entity w k).0 st.keys ≡ none
      → IsHosting config (route_to config passivate S st w k m o).0
  unfolding route_to
  route_to-IsHosting st w k m (some (live actor t)) v e fresh =
      replaced-IsHosting st k (live actor (S.now (S.tell w actor m))) v (ap actor_in e)
        (omega arith)
  route_to-IsHosting st w k m (some (stopping actor b)) v e fresh =
      elim (Bool-cases (ltb (length b) config.buffer)) [
        | inl t ↦ rw t (
            replaced-IsHosting st k (stopping actor (b ++ m ∷ [])) v (ap actor_in e)
              (omega (arith, ltb→lt (length b) config.buffer t, length-append b (m ∷ []))))
        | inr t ↦ rw t v
      ]
  route_to-IsHosting st w k m none v e fresh =
      let (actor, w₁) = S.spawn_entity w k in
      spawned-IsHosting st k actor (S.now (S.tell w₁ actor m)) v e fresh

  respawn-IsHosting :
      (st : State K M) (w : World) (k : K) (o : Option (Entry M))
      → IsHosting config st
      → lookup k st.entries ≡ none
      → lookup (S.spawn_entity w k).0 st.keys ≡ none
      → IsHosting config (respawn config passivate S st w k o).0
  unfolding respawn
  respawn-IsHosting st w k none v e fresh = v
  respawn-IsHosting st w k (some (live actor t)) v e fresh = v
  respawn-IsHosting st w k (some (stopping actor [])) v e fresh = v
  respawn-IsHosting st w k (some (stopping actor (m ∷ ms))) v e fresh =
      spawned-IsHosting st k (S.spawn_entity w k).0 _ v e fresh

  entity_terminated-IsHosting :
      (st : State K M) (w : World) (id : ActorId) (o : Option K)
      → IsHosting config st
      → lookup id st.keys ≡ o
      → ((k : K) → lookup (S.spawn_entity w k).0 st.keys ≡ none)
      → IsHosting config (entity_terminated config passivate S st w id o).0
  unfolding entity_terminated
  entity_terminated-IsHosting st w id none v e fresh = v
  entity_terminated-IsHosting st w id (some k) v e fresh =
      respawn-IsHosting (record st { keys = erase id st.keys; entries = erase k st.entries }) w k
        (lookup k st.entries) (removed-IsHosting st k id v e)
        (ground (arith, lookup-erase k k st.entries, key.same_iff k k))
        (ground (arith, lookup-erase id (S.spawn_entity w k).0 st.keys, fresh k))

  passivated_lem :
      (actor : ActorId) (t : Duration) (r : Bool × World)
      → (actor_of (passivated config passivate S actor t r).0 ≡ actor)
        × (buffered_in (some (passivated config passivate S actor t r).0) ≤ 0)
  unfolding passivated
  passivated_lem actor t (true, w') = (refl, omega arith)
  passivated_lem actor t (false, w') = (refl, omega arith)

  passivate_entry_lem :
      (idle : Duration) (w : World) (e : Entry M)
      → (actor_of (passivate_entry config passivate S idle w e).0 ≡ actor_of e)
        × (buffered_in (some (passivate_entry config passivate S idle w e).0)
            ≤ buffered_in (some e))
  unfolding passivate_entry
  passivate_entry_lem idle w (stopping actor b) = (refl, omega arith)
  passivate_entry_lem idle w (live actor t) = elim (Bool-cases (ltb (S.now w - t) idle)) [
    | inl h ↦ rw h (refl, omega arith)
    | inr h ↦ rw h (passivated_lem actor t (S.try_tell w actor passivate))
  ]

  sweep_lem :
      (idle : Duration) (w : World) (d : Dict K (Entry M)) (k : K)
      → (actor_in (lookup k (sweep config passivate S idle w d).0) ≡ actor_in (lookup k d))
        × (buffered_in (lookup k (sweep config passivate S idle w d).0) ≤ buffered_in (lookup k d))
  unfolding sweep lookup
  sweep_lem idle w [] k = (refl, omega arith)
  sweep_lem idle w ((j, e) ∷ d) k =
      let (e', w') = passivate_entry config passivate S idle w e in
      let (same, le) = passivate_entry_lem idle w e in
      let ih = sweep_lem idle w' d k in
      elim (Bool-cases (j == k)) [ inl h ↦ rw h (ap some same, le) | inr h ↦ rw h ih ]

  sweep_idle-IsHosting :
      (st : State K M) (w : World) (o : Option Duration)
      → IsHosting config st
      → IsHosting config (sweep_idle config passivate S st w o).0
  unfolding sweep_idle
  sweep_idle-IsHosting st w none v = v
  sweep_idle-IsHosting st w (some idle) v = record {
    agree = λ k id. rw (sweep_lem idle w st.entries k).0 (v.agree k id);
    fits = λ k. omega (arith, v.fits k, (sweep_lem idle w st.entries k).1);
  }

  tick-IsHosting :
      (st : State K M) (w : World) (o : Option Duration)
      → IsHosting config st
      → IsHosting config (tick config passivate S st w o).0
  unfolding tick
  tick-IsHosting st w none v = record { agree = v.agree; fits = v.fits }
  tick-IsHosting st w (some idle) v = record { agree = v.agree; fits = v.fits }

  -- A host of which each key has at most one entity, found alike from its ID and from its key, and at
  -- most the configured number of buffered messages, is such a host again after any message and any
  -- signal, its ticker's included, on every branch. It is asked that the spawn function returns an
  -- actor that is not hosted already.
  pub receive-IsHosting :
      (st : State K M) (w : World) (incoming : Incoming (HostEnvelope K M))
      → IsHosting config st
      → ((k : K) → lookup (S.spawn_entity w k).0 st.keys ≡ none)
      → IsHosting config (receive config passivate S st w incoming).0
  unfolding receive route signalled passivate_idle tick_later
  receive-IsHosting st w (message envelope) v fresh =
      route_to-IsHosting st w envelope.key envelope.message (lookup envelope.key st.entries) v refl
        (fresh envelope.key)
  receive-IsHosting st w (terminated id) v fresh =
      elim (Bool-cases (is_ticker config passivate S st.ticker id)) [
        | inl t ↦ rw t (
            let r = sweep_idle config passivate S st w config.idle_timeout in
            tick-IsHosting r.0 r.1 config.idle_timeout
              (sweep_idle-IsHosting st w config.idle_timeout v))
        | inr t ↦ rw t (entity_terminated-IsHosting st w id (lookup id st.keys) v refl fresh)
      ]
