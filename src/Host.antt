-- ===== src/Host.antt =====
-- tellus/src/host.rs: an actor that hosts entities under keys. An entity's reference is its ID, and a
-- sweep goes through the entries in the order of the list, where the source's map has an arbitrary one.
use tellus.Prelude.{
  ℕ, ◌+◌, ◌-◌, Bool, true, false, ◌||◌, not, Option, none, some, List, [], ◌∷◌, ◌++◌, Result, ok,
  err, length, ltb, nat_eq, if◌then◌else◌,
}
pub mod Hosting
pub mod Buffering
mod Tests
use tellus.Prelude.Dict.{Key, nat_key, Dict, lookup, insert, erase}
use tellus.Actor.{ActorId, Incoming, message, terminated}
use tellus.Backoff.{Duration}

pub record HostConfig : Type 0 where
  pub idle_timeout : Option Duration
  pub buffer : ℕ

pub data InvalidHostConfig : Type 0 where
  zero_idle_timeout : InvalidHostConfig

unfoldable pub new_config : ℕ → HostConfig
new_config buffer = record { idle_timeout = none; buffer = buffer }

unfoldable pub with_idle_timeout : HostConfig → Duration → Result HostConfig InvalidHostConfig
with_idle_timeout config idle_timeout =
    if nat_eq idle_timeout 0
    then err zero_idle_timeout
    else ok (record config { idle_timeout = some idle_timeout })

pub record HostEnvelope (K M : Type 0) : Type 0 where
  pub key : K
  pub message : M

pub data Entry (M : Type 0) : Type 0 where
  live : ActorId → Duration → Entry M
  stopping : ActorId → List M → Entry M

pub record State (K M : Type 0) : Type 0 where
  pub entries : Dict K (Entry M)
  pub keys : Dict ActorId K
  pub ticker : Option ActorId

-- `Default`
abbrev pub no_entities : (K M : Type 0) → State K M
no_entities K M = record { entries = []; keys = []; ticker = none }

-- What the host's calls reach: the spawn function and the context (both spawns are followed by a
-- watch), the entities' mailboxes, the clock and the log.
pub record Surroundings (World K M : Type 0) : Type 0 where
  pub spawn_entity : World → K → ActorId × World
  pub spawn_ticker : World → Duration → ActorId × World
  pub tell : World → ActorId → M → World
  pub try_tell : World → ActorId → M → Bool × World
  pub try_tell_forced : World → ActorId → M → Bool × World
  pub now : World → Duration
  pub dead_letter : World → ActorId → World

-- `passivate` is a message that is built anew for each entity.
module _ {World K M : Type 0} ⦃key : Key K⦄ (config : HostConfig) (passivate : M)
    (S : Surroundings World K M) where
  pub route_to : State K M → World → K → M → Option (Entry M) → State K M × World
  route_to st w k m (some (live actor last_message)) =
      let w' = S.tell w actor m in
      (record st { entries = insert k (live actor (S.now w')) st.entries }, w')
  route_to st w k m (some (stopping actor buffered)) =
      if ltb (length buffered) config.buffer
      then (record st { entries = insert k (stopping actor (buffered ++ m ∷ [])) st.entries }, w)
      else (st, S.dead_letter w actor)
  route_to st w k m none =
      let (actor, w₁) = S.spawn_entity w k in
      let w₂ = S.tell w₁ actor m in
      (
        record st {
          keys = insert actor k st.keys;
          entries = insert k (live actor (S.now w₂)) st.entries;
        },
        w₂,
      )

  unfoldable pub route : State K M → World → K → M → State K M × World
  unfolding route_to
  route st w k m = route_to st w k m (lookup k st.entries)

  -- The messages that a host has buffered, told past a full mailbox, in order.
  abbrev pub deliver_one : World → ActorId → Bool × World → World
  deliver_one w actor (true, w') = w'
  deliver_one w actor (false, w') = S.dead_letter w' actor

  unfoldable pub deliver : World → ActorId → List M → World
  deliver w actor [] = w
  deliver w actor (m ∷ ms) = deliver (deliver_one w actor (S.try_tell_forced w actor m)) actor ms

  pub respawn : State K M → World → K → Option (Entry M) → State K M × World
  unfolding deliver
  respawn st w k none = (st, w)
  respawn st w k (some (live actor last_message)) = (st, w)
  respawn st w k (some (stopping actor [])) = (st, w)
  respawn st w k (some (stopping actor (m ∷ ms))) =
      let (next, w₁) = S.spawn_entity w k in
      let w₂ = deliver w₁ next (m ∷ ms) in
      (
        record st {
          keys = insert next k st.keys;
          entries = insert k (live next (S.now w₂)) st.entries;
        },
        w₂,
      )

  pub entity_terminated : State K M → World → ActorId → Option K → State K M × World
  unfolding respawn
  entity_terminated st w actor_id none = (st, w)
  entity_terminated st w actor_id (some k) =
      respawn (record st { keys = erase actor_id st.keys; entries = erase k st.entries }) w k
        (lookup k st.entries)

  -- An entity that has been told is stopping; one that cannot be told is left for the next sweep.
  pub passivated : ActorId → Duration → Bool × World → Entry M × World
  passivated actor last_message (true, w) = (stopping actor [], w)
  passivated actor last_message (false, w) = (live actor last_message, w)

  pub passivate_entry : Duration → World → Entry M → Entry M × World
  unfolding passivated
  passivate_entry idle w (stopping actor buffered) = (stopping actor buffered, w)
  passivate_entry idle w (live actor last_message) =
      if ltb (S.now w - last_message) idle
      then (live actor last_message, w)
      else passivated actor last_message (S.try_tell w actor passivate)

  pub sweep : Duration → World → Dict K (Entry M) → Dict K (Entry M) × World
  unfolding passivate_entry
  sweep idle w [] = ([], w)
  sweep idle w ((k, e) ∷ rest) =
      let (e', w') = passivate_entry idle w e in
      let (rest', w'') = sweep idle w' rest in ((k, e') ∷ rest', w'')

  pub sweep_idle : State K M → World → Option Duration → State K M × World
  unfolding sweep
  sweep_idle st w none = (st, w)
  sweep_idle st w (some idle) =
      let (entries, w') = sweep idle w st.entries in (record st { entries = entries }, w')

  unfoldable pub passivate_idle : State K M → World → State K M × World
  unfolding sweep_idle
  passivate_idle st w = sweep_idle st w config.idle_timeout

  pub tick : State K M → World → Option Duration → State K M × World
  tick st w none = (record st { ticker = none }, w)
  tick st w (some idle) =
      let (ticker, w') = S.spawn_ticker w idle in (record st { ticker = some ticker }, w')

  unfoldable pub tick_later : State K M → World → State K M × World
  unfolding tick
  tick_later st w = tick st w config.idle_timeout

  abbrev pub is_ticker : Option ActorId → ActorId → Bool
  is_ticker none actor_id = false
  is_ticker (some ticker) actor_id = nat_eq ticker actor_id

  unfoldable pub signalled : State K M → World → ActorId → State K M × World
  unfolding entity_terminated passivate_idle tick_later
  signalled st w actor_id =
      if is_ticker st.ticker actor_id
      then (let (st', w') = passivate_idle st w in tick_later st' w')
      else entity_terminated st w actor_id (lookup actor_id st.keys)

  unfoldable pub init : World → State K M × World
  unfolding tick_later
  init w = tick_later (no_entities K M) w

  unfoldable pub receive : State K M → World → Incoming (HostEnvelope K M) → State K M × World
  unfolding route signalled
  receive st w (message envelope) = route st w envelope.key envelope.message
  receive st w (terminated actor_id) = signalled st w actor_id
