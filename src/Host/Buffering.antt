-- ===== src/Host/Buffering.antt =====
-- tellus/src/host.rs: messages that arrive while an entity stops.
use mathlib.Core.Path.{subst}
use mathlib.Core.List.{append_assoc}
use tellus.Prelude.{
  ◌+◌, ◌≤◌, ◌≡◌, ◌≢◌, refl, ap, sym, ◌∙◌, Bool, true, false, some, List, map, [], ◌∷◌, ◌++◌,
  append_nil, length, length-append, ltb, lt→ltb, arith,
}
use tellus.Prelude.Dict.{Key, nat_key, Dict, lookup, insert, erase, lookup-insert}
use tellus.Actor.{ActorId, message, terminated}
use tellus.Host.{
  HostConfig, Entry, live, stopping, State, Surroundings, route_to, route, deliver_one, deliver,
  respawn, entity_terminated, is_ticker, signalled, receive,
}
use tellus.Host.Hosting.{IsHosting, actor_in}

-- A trace of what has been told past a full mailbox, and to whom: a forced tell adds to it, whether the
-- entity is there or not, and what is logged does not.
pub record IsTrace {World K M : Type 0} (S : Surroundings World K M)
    (told : World → List (ActorId × M)) : Type 0 where
  pub told-try_tell_forced :
      (w : World) (actor : ActorId) (m : M)
      → told (S.try_tell_forced w actor m).1 ≡ told w ++ (actor, m) ∷ []
  pub told-dead_letter : (w : World) (actor : ActorId) → told (S.dead_letter w actor) ≡ told w

module _ {World K M : Type 0} ⦃key : Key K⦄ (config : HostConfig) (passivate : M)
    (S : Surroundings World K M) (told : World → List (ActorId × M)) (T : IsTrace S told) where
  told-deliver_one :
      (w : World) (actor : ActorId) (r : Bool × World)
      → told (deliver_one config passivate S w actor r) ≡ told r.1
  told-deliver_one w actor (true, w') = refl
  told-deliver_one w actor (false, w') = T.told-dead_letter w' actor

  pub told-deliver :
      (w : World) (actor : ActorId) (ms : List M)
      → told (deliver config passivate S w actor ms) ≡ told w ++ map (λ m. (actor, m)) ms
  unfolding deliver
  told-deliver w actor [] = sym (append_nil (told w))
  told-deliver w actor (m ∷ ms) =
      let r = S.try_tell_forced w actor m in
      told-deliver (deliver_one config passivate S w actor r) actor ms
      ∙ ap (λ xs. xs ++ map (λ m. (actor, m)) ms)
          (told-deliver_one w actor r ∙ T.told-try_tell_forced w actor m)
      ∙ append_assoc (told w) ((actor, m) ∷ []) (map (λ m. (actor, m)) ms)

module _ {World K M : Type 0} ⦃key : Key K⦄ (config : HostConfig) (passivate : M)
    (S : Surroundings World K M) where
  inserted : (k : K) (e : Entry M) (d : Dict K (Entry M)) → lookup k (insert k e d) ≡ some e
  inserted k e d = ground (arith, lookup-insert k k e d, key.same_iff k k)

  -- Messages for one key, one after the other.
  abbrev pub route_all : State K M × World → K → List M → State K M × World
  route_all r k [] = r
  route_all r k (m ∷ ms) =
      route_all (receive config passivate S r.0 r.1 (message (record { key = k; message = m }))) k
        ms

  -- What the messages leave: they stand in the buffer, and nothing else has happened.
  record IsBuffered (st : State K M) (w : World) (k : K) (actor : ActorId) (b : List M)
      (r : State K M × World) : Type 0 where
    entry : lookup k r.0.entries ≡ some (stopping actor b)
    keys : r.0.keys ≡ st.keys
    ticker : r.0.ticker ≡ st.ticker
    world : r.1 ≡ w

  route_stopping :
      (st : State K M) (w : World) (k : K) (actor : ActorId) (b : List M) (m : M)
      → lookup k st.entries ≡ some (stopping actor b)
      → length b + 1 ≤ config.buffer
      → receive config passivate S st w (message (record { key = k; message = m }))
        ≡ (record st { entries = insert k (stopping actor (b ++ m ∷ [])) st.entries }, w)
  unfolding receive route route_to
  route_stopping st w k actor b m e room =
      let t : ltb (length b) config.buffer ≡ true =
        lt→ltb (length b) config.buffer (omega (arith, room)) in
      ap (route_to config passivate S st w k m) e ∙ rw t refl

  route_all-IsBuffered :
      (ms : List M) (st : State K M) (w : World) (k : K) (actor : ActorId) (b : List M)
      → lookup k st.entries ≡ some (stopping actor b)
      → length b + length ms ≤ config.buffer
      → IsBuffered st w k actor (b ++ ms) (route_all (st, w) k ms)
  route_all-IsBuffered [] st w k actor b e room = record {
    entry = e ∙ ap (λ c. some (stopping actor c)) (sym (append_nil b));
    keys = refl;
    ticker = refl;
    world = refl;
  }
  route_all-IsBuffered (m ∷ ms) st w k actor b e room =
      let st' : State K M = record st {
        entries = insert k (stopping actor (b ++ m ∷ [])) st.entries;
      } in
      let ih =
        route_all-IsBuffered ms st' w k actor (b ++ m ∷ [])
          (inserted k (stopping actor (b ++ m ∷ [])) st.entries)
          (omega (arith, room, length-append b (m ∷ []))) in
      subst (λ r. IsBuffered st w k actor (b ++ m ∷ ms) (route_all r k ms))
        (sym (route_stopping st w k actor b m e (omega (arith, room))))
        (record {
          entry = ih.entry ∙ ap (λ c. some (stopping actor c)) (append_assoc b (m ∷ []) ms);
          keys = ih.keys;
          ticker = ih.ticker;
          world = ih.world;
        })

  -- What a respawn leaves of an entity that has stopped.
  terminated_stopping :
      (st : State K M) (w : World) (k : K) (actor : ActorId) (b : List M)
      → lookup k st.entries ≡ some (stopping actor b)
      → lookup actor st.keys ≡ some k
      → is_ticker config passivate S st.ticker actor ≡ false
      → b ≢ []
      → let next = S.spawn_entity w k in
        let r = receive config passivate S st w (terminated actor) in
        (r.1 ≡ deliver config passivate S next.1 next.0 b)
        × (lookup k r.0.entries ≡ some (live next.0 (S.now r.1)))
  unfolding receive signalled entity_terminated
  terminated_stopping st w k actor b e known t some_message =
      rw t (rw known (rw e (go b some_message)))
    where
      go :
          (b : List M)
          → b ≢ []
          → let next = S.spawn_entity w k in
            let r =
              respawn config passivate S
                (record st { keys = erase actor st.keys; entries = erase k st.entries })
                w
                k
                (some (stopping actor b)) in
            (r.1 ≡ deliver config passivate S next.1 next.0 b)
            × (lookup k r.0.entries ≡ some (live next.0 (S.now r.1)))
      go [] h = absurd (h refl)
      go (m ∷ ms) h = (refl, inserted k (live (S.spawn_entity w k).0 _) (erase k st.entries))

  -- Messages that arrive while an entity stops, as many as the buffer takes, change nothing until its
  -- signal comes; then they are told to the next incarnation past a full mailbox, all of them, once
  -- and in order, with nothing else told in this way, and the key's entry is that incarnation, live.
  pub route_all-terminated :
      (told : World → List (ActorId × M)) (st : State K M) (w : World) (k : K) (actor : ActorId)
      (ms : List M)
      → IsTrace S told
      → IsHosting config st
      → lookup k st.entries ≡ some (stopping actor [])
      → is_ticker config passivate S st.ticker actor ≡ false
      → ms ≢ []
      → length ms ≤ config.buffer
      → let waiting = route_all (st, w) k ms in
        let next = S.spawn_entity w k in
        let r = receive config passivate S waiting.0 waiting.1 (terminated actor) in
        (waiting.1 ≡ w)
        × (told r.1 ≡ told next.1 ++ map (λ m. (next.0, m)) ms)
        × (lookup k r.0.entries ≡ some (live next.0 (S.now r.1)))
  route_all-terminated told st w k actor ms trace v e t some_message room =
      let b = route_all-IsBuffered ms st w k actor [] e (omega (arith, room)) in
      let waiting = route_all (st, w) k ms in
      let known = ap (λ d. lookup actor d) b.keys ∙ (v.agree k actor).0 (ap actor_in e) in
      let r = receive config passivate S waiting.0 waiting.1 (terminated actor) in
      let (delivered, entry) =
        terminated_stopping waiting.0 waiting.1 k actor ms b.entry known
          (ap (λ o. is_ticker config passivate S o actor) b.ticker ∙ t) some_message in
      (
        b.world,
        ap told (
              delivered
              ∙ ap
                  (λ v. deliver config passivate S (S.spawn_entity v k).1 (S.spawn_entity v k).0 ms)
                  b.world)
            ∙ told-deliver config passivate S told trace (S.spawn_entity w k).1
                (S.spawn_entity w k).0 ms,
        entry ∙ ap (λ v. some (live (S.spawn_entity v k).0 (S.now r.1))) b.world,
      )
