-- ===== src/Mailbox.antt =====
-- tellus/src/mailbox.rs: an actor's mailbox, the two halves of which share a channel, a quota and a
-- registry of watchers. The state that the halves share is passed on explicitly.
pub mod Registry
pub mod Race
pub mod Queued
mod Tests
use tellus.Prelude.{ℕ, Bool, true, false, Option, none, some, List, [], Result, ok, err, map_err}
use tellus.Config.{MailboxCapacity}
use tellus.Channel.{Channel}
use tellus.Quota.{
  Quota, CountedSendError, Full, Disconnected, no_capacity, gone, Shared, unreserve, with_capacity,
  try_send_counted, try_send_forced, try_send_uncounted,
}
use tellus.Actor.{ActorId, Incoming, message, terminated}

pub data ActorTerminated : Type 0 where
  actor_terminated : ActorTerminated

pub data SendError : Type 0 where
  mailbox_full : Full → SendError
  is_terminated : ActorTerminated → SendError

-- `From<CountedSendError>`
unfoldable pub from : CountedSendError → SendError
from (no_capacity e) = mailbox_full e
from (gone e) = is_terminated actor_terminated

-- The quota of `make_mailbox`.
unfoldable pub make_quota : MailboxCapacity → Quota
make_quota MailboxCapacity.unbounded = Quota.unbounded
make_quota (MailboxCapacity.bounded capacity) = with_capacity capacity

module _ {M : Type 0} (C : Channel (Incoming M)) where
  unfoldable pub try_send_message : Shared C → M → Result (Unit {0}) SendError × Shared C
  unfolding try_send_counted from
  try_send_message s m =
      let (reply, s') = try_send_counted C s (message m) in (map_err from reply, s')

  unfoldable pub try_send_forced_message : Shared C → M → Result (Unit {0}) SendError × Shared C
  unfolding try_send_forced
  try_send_forced_message s m =
      let (reply, s') = try_send_forced C s (message m) in
      (map_err (λ _. is_terminated actor_terminated) reply, s')

  -- `send_terminated` of `TerminatedSink`.
  unfoldable pub send_terminated : Shared C → ActorId → Result (Unit {0}) ActorTerminated × Shared C
  unfolding try_send_uncounted
  send_terminated s id =
      let (reply, s') = try_send_uncounted C s (terminated id) in
      (map_err (λ _. actor_terminated) reply, s')

  unfoldable pub received : Quota → Option (Incoming M) × C.Chan → Option (Incoming M) × Shared C
  unfolding unreserve
  received q (none, c) = (none, (q, c))
  received q (some (message m), c) = (some (message m), (unreserve q, c))
  received q (some (terminated id), c) = (some (terminated id), (q, c))

  unfoldable pub try_recv : Shared C → Option (Incoming M) × Shared C
  unfolding received
  try_recv (q, c) = received q (C.try_recv c)
