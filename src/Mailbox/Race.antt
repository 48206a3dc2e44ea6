-- ===== src/Mailbox/Race.antt =====
-- tellus/src/quota.rs and tellus/src/mailbox.rs as they run concurrently: many senders and the one
-- receiver, each in steps that are one atomic access to what they share.
pub mod Alone
pub mod Described
pub mod Counting
pub mod Capacity
pub mod Order
pub mod Fresh
use tellus.Prelude.{
  ℕ, Bool, true, false, Option, none, some, List, [], ◌∷◌, ◌++◌, get_elem?, set, Result, ok, err,
  if◌then◌else◌,
}
use tellus.Actor.{ActorId, Incoming, message, terminated}
use tellus.Channel.{Channel}
use tellus.Quota.{
  Quota, CountedSendError, Full, full, Disconnected, disconnected, no_capacity, gone, Reservation,
  held, Shared, unreserve, reserve, reserve_forced,
}

-- What a sender has been asked to send, and how.
pub data Sending (M : Type 0) : Type 0 where
  counted : M → Sending M
  forced : M → Sending M
  uncounted : ActorId → Sending M

abbrev pub item : {M : Type 0} → Sending M → Incoming M
item (counted m) = message m
item (forced m) = message m
item (uncounted id) = terminated id

-- Where a sender stands: before its reservation, before its send, before it gives a reservation
-- back, before it looks whether a full quota is one that never drains, and done.
pub data Phase (M : Type 0) : Type 0 where
  starting : Sending M → Phase M
  sending : Sending M → Phase M
  releasing : Phase M
  probing : Phase M
  finished : Result (Unit {0}) CountedSendError → Phase M

-- The receiver has nothing to do, or has taken a message whose reservation it still holds, or is gone.
pub data Receiver (M : Type 0) : Type 0 where
  waiting : Receiver M
  owing : Receiver M
  dropped : Receiver M

module _ {M : Type 0} (C : Channel (Incoming M)) where
  pub after_reserve : M → C.Chan → Result Reservation Full × Quota → Phase M × Shared C
  after_reserve m c (ok r, q) = (sending (counted m), (q, c))
  after_reserve m c (err e, q) = (probing, (q, c))

  -- An uncounted send holds nothing to give back.
  pub failed_send : Sending M → Phase M
  failed_send (counted m) = releasing
  failed_send (forced m) = releasing
  failed_send (uncounted id) = finished (err (gone disconnected))

  pub after_send : Sending M → Quota → Result (Unit {0}) (Incoming M) × C.Chan → Phase M × Shared C
  unfolding failed_send
  after_send k q (ok _, c) = (finished (ok tt), (q, c))
  after_send k q (err x, c) = (failed_send k, (q, c))

  unfoldable pub sender_step : Phase M → Shared C → Phase M × Shared C
  unfolding after_reserve after_send reserve reserve_forced unreserve
  sender_step (starting (counted m)) (q, c) = after_reserve m c (reserve q)
  sender_step (starting (forced m)) (q, c) = (sending (forced m), ((reserve_forced q).1, c))
  sender_step (starting (uncounted id)) s = (sending (uncounted id), s)
  sender_step (sending k) (q, c) = after_send k q (C.send c (item k))
  sender_step releasing (q, c) = (finished (err (gone disconnected)), (unreserve q, c))
  sender_step probing (q, c) =
      if C.is_disconnected c
      then (finished (err (gone disconnected)), (q, c))
      else (finished (err (no_capacity full)), (q, c))
  sender_step (finished r) s = (finished r, s)

  pub record System : Type 0 where
    pub shared : Shared C
    pub senders : List (Phase M)
    pub receiver : Receiver M
    -- What `recv` has returned, in order.
    pub delivered : List (Incoming M)

  pub data Move : Type 0 where
    sender : ℕ → Move
    receive : Move
    drop_receiver : Move

  pub move_sender : ℕ → Option (Phase M) → System → System
  unfolding sender_step
  move_sender i none s = s
  move_sender i (some p) s =
      let (p', shared') = sender_step p s.shared in
      record s { shared = shared'; senders = set s.senders i p' }

  pub taken : System → Option (Incoming M) × C.Chan → System
  taken s (none, c) = record s { shared = (s.shared.0, c) }
  taken s (some (message m), c) = record s {
    shared = (s.shared.0, c);
    receiver = owing;
    delivered = s.delivered ++ message m ∷ [];
  }
  taken s (some (terminated id), c) = record s {
    shared = (s.shared.0, c);
    delivered = s.delivered ++ terminated id ∷ [];
  }

  pub move_receiver : Receiver M → System → System
  unfolding taken unreserve
  move_receiver waiting s = taken s (C.try_recv s.shared.1)
  move_receiver owing s = record s {
    shared = (unreserve s.shared.0, s.shared.1);
    receiver = waiting;
  }
  move_receiver dropped s = s

  -- The mailbox is not dropped between a dequeue and its release.
  pub move_drop : Receiver M → System → System
  move_drop waiting s = record s {
    shared = (s.shared.0, C.disconnect s.shared.1);
    receiver = dropped;
  }
  move_drop owing s = s
  move_drop dropped s = s

  unfoldable pub step : Move → System → System
  unfolding move_sender move_receiver move_drop
  step (sender i) s = move_sender i (get_elem? s.senders i) s
  step receive s = move_receiver s.receiver s
  step drop_receiver s = move_drop s.receiver s

  -- The moves in the order in which they happen.
  abbrev pub run : List Move → System → System
  run [] s = s
  run (m ∷ ms) s = run ms (step m s)
