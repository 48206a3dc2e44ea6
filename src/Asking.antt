-- ===== src/Asking.antt =====
-- tellus/src/actor_ref.rs and tellus/src/ask.rs: `tell`, `reply_to` and `ask`, and the dead letters
-- that are logged. The replies of one `ask` go through a one-shot channel, which the asker polls until
-- the reply is there or the time is over.
pub mod Settling
pub mod Ending
pub mod Replies
pub mod Telling
mod Tests
use tellus.Prelude.{
  ℕ, Bool, true, false, Option, none, some, List, [], ◌∷◌, ◌++◌, Result, ok, err, if◌then◌else◌,
}
use tellus.Backoff.{Duration}
use tellus.Actor.{ActorId, Incoming}
use tellus.Channel.{Channel}
use tellus.Quota.{Shared}
use tellus.Mailbox.{SendError, mailbox_full, is_terminated, try_send_message}
use tellus.Oneshot.{Oneshot, Polled, pending, ready, closed}

-- What is logged of a message or a reply that is dropped.
pub data DeadLetter : Type 0 where
  undelivered : ActorId → SendError → DeadLetter
  not_awaited : ActorId → DeadLetter

pub data AskError : Type 0 where
  no_room : AskError
  gone : AskError
  no_reply : AskError
  timeout : Duration → AskError

-- `From<SendError>`
unfoldable pub ask_error : SendError → AskError
ask_error (mailbox_full e) = no_room
ask_error (is_terminated e) = gone

module _ {M : Type 0} (C : Channel (Incoming M)) (id : ActorId) where
  -- The actor's mailbox, and the log.
  abbrev pub Outgoing : Type 0
  Outgoing = Shared C × List DeadLetter

  logged : Result (Unit {0}) SendError → List DeadLetter → List DeadLetter
  logged (ok _) log = log
  logged (err e) log = log ++ undelivered id e ∷ []

  unfoldable pub tell : M → Outgoing → Outgoing
  unfolding logged
  tell message (s, log) = let (reply, s') = try_send_message C s message in (s', logged reply log)

  -- A `ReplyTo` made by `ActorContext::reply_to`, used with a reply.
  unfoldable pub reply_to : {R : Type 0} → (R → M) → R → Outgoing → Outgoing
  unfolding tell
  reply_to into_message reply s = tell (into_message reply) s

-- Where the `ReplyTo` of a request is: it can be used once, or dropped.
pub data ReplyTo (R : Type 0) : Type 0 where
  held : ReplyTo R
  replied : R → ReplyTo R
  dropped : ReplyTo R

-- The caller's side: it awaits the future of `ask`, has its result, or has dropped it before. While the
-- future is polled, it has found the receiver empty and looks at the clock, or it has what it resolves
-- with and drops the receiver.
pub data Asker (R : Type 0) : Type 0 where
  waiting : Asker R
  at_clock : Asker R
  dropping : Result R AskError → Asker R
  resolved : Result R AskError → Asker R
  given_up : Asker R

module _ {R : Type 0} (O : Oneshot R) (id : ActorId) (within : Duration) where
  pub record Asking : Type 0 where
    pub responder : ReplyTo R
    pub channel : O.Chan
    pub asker : Asker R
    pub log : List DeadLetter

  pub data Move : Type 0 where
    replies : R → Move
    drops_reply_to : Move
    -- The asker does its next step, before or after the time is over.
    polled : Bool → Move
    gives_up : Move

  -- A request that cannot be sent is dropped with its `ReplyTo`.
  unfoldable pub asked : Result (Unit {0}) SendError → Asking
  unfolding ask_error
  asked (ok _) = record { responder = held; channel = O.channel; asker = waiting; log = [] }
  asked (err e) = record {
    responder = dropped;
    channel = O.drop_receiver (O.drop_sender O.channel);
    asker = resolved (err (ask_error e));
    log = [];
  }

  unfoldable pub unless_sent : Result (Unit {0}) R → List DeadLetter → List DeadLetter
  unless_sent (ok _) log = log
  unless_sent (err r) log = log ++ not_awaited id ∷ []

  send_reply : R → ReplyTo R → Asking → Asking
  unfolding unless_sent
  send_reply r held a =
      let (sent, c) = O.send a.channel r in
      record a { responder = replied r; channel = c; log = unless_sent sent a.log }
  send_reply r (replied x) a = a
  send_reply r dropped a = a

  drop_reply_to : ReplyTo R → Asking → Asking
  drop_reply_to held a = record a { responder = dropped; channel = O.drop_sender a.channel }
  drop_reply_to (replied x) a = a
  drop_reply_to dropped a = a

  -- `timeout` polls the receiver before the clock. These and the drop of the receiver are a step each,
  -- since the responder may reply between them.
  poll_reply : Polled R → Asking → Asking
  poll_reply (ready r) a = record a { asker = dropping (ok r) }
  poll_reply closed a = record a { asker = dropping (err no_reply) }
  poll_reply pending a = record a { asker = at_clock }

  poll_clock : Bool → Asking → Asking
  poll_clock true a = record a { asker = dropping (err (timeout within)) }
  poll_clock false a = record a { asker = waiting }

  -- The future that has resolved is dropped, and the receiver with it.
  resolve : Result R AskError → Asking → Asking
  resolve r a = record a { asker = resolved r; channel = O.drop_receiver a.channel }

  poll_asker : Asker R → Bool → Asking → Asking
  unfolding poll_reply poll_clock resolve
  poll_asker waiting over a = poll_reply (O.poll a.channel) a
  poll_asker at_clock over a = poll_clock over a
  poll_asker (dropping r) over a = resolve r a
  poll_asker (resolved r) over a = a
  poll_asker given_up over a = a

  -- The caller can drop the future only between two polls.
  give_up : Asker R → Asking → Asking
  give_up waiting a = record a { asker = given_up; channel = O.drop_receiver a.channel }
  give_up at_clock a = a
  give_up (dropping r) a = a
  give_up (resolved r) a = a
  give_up given_up a = a

  unfoldable pub step : Move → Asking → Asking
  unfolding send_reply drop_reply_to poll_asker give_up
  step (replies r) a = send_reply r a.responder a
  step drops_reply_to a = drop_reply_to a.responder a
  step (polled over) a = poll_asker a.asker over a
  step gives_up a = give_up a.asker a

  abbrev pub run : List Move → Asking → Asking
  run [] a = a
  run (m ∷ ms) a = run ms (step m a)
