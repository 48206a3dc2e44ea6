-- ===== src/Quota.antt =====
-- tellus/src/quota.rs: the capacity in front of a channel. The shared atomic count is part of the
-- state that the calls pass on; a `usize` wraps.
pub mod Sending
use tellus.Prelude.{
  ℕ, suc, ◌+◌, ◌-◌, ◌%◌, Bool, true, false, Result, ok, err, ltb, usize_mod, if◌then◌else◌,
}
use tellus.Channel.{Channel}

-- `Quota` around `Repr`
pub data Quota : Type 0 where
  unbounded : Quota
  bounded : ℕ → ℕ → Quota

pub data Full : Type 0 where
  full : Full

pub data Disconnected : Type 0 where
  disconnected : Disconnected

pub data CountedSendError : Type 0 where
  no_capacity : Full → CountedSendError
  gone : Disconnected → CountedSendError

-- `Quota::bounded`
abbrev pub with_capacity : ℕ → Quota
with_capacity capacity = bounded capacity 0

unfoldable pub unreserve : Quota → Quota
unreserve unbounded = unbounded
unreserve (bounded capacity count) = bounded capacity ((count + usize_mod - 1) % usize_mod)

-- A reservation is held until it is committed.
pub data Reservation : Type 0 where
  held committed : Reservation

abbrev pub commit : Reservation → Reservation
commit r = committed

unfoldable pub reserve : Quota → Result Reservation Full × Quota
reserve unbounded = (ok held, unbounded)
reserve (bounded capacity count) =
    if ltb count capacity
    then (ok held, bounded capacity (count + 1))
    else (err full, bounded capacity count)

unfoldable pub reserve_forced : Quota → Reservation × Quota
reserve_forced unbounded = (held, unbounded)
reserve_forced (bounded capacity count) = (held, bounded capacity ((count + 1) % usize_mod))

-- `Drop for Reservation`
unfoldable pub drop_reservation : Reservation → Quota → Quota
unfolding unreserve
drop_reservation held q = unreserve q
drop_reservation committed q = q

module _ {T : Type 0} (C : Channel T) where
  -- What a sender shares.
  abbrev pub Shared : Type 0
  Shared = Quota × C.Chan

  -- A send under a reservation, which its failure drops and its success commits.
  unfoldable pub sent :
      Reservation → Quota → Result (Unit {0}) T × C.Chan → Result (Unit {0}) Disconnected × Shared
  unfolding drop_reservation
  sent r q (ok _, c) = (ok tt, (drop_reservation (commit r) q, c))
  sent r q (err item, c) = (err disconnected, (drop_reservation r q, c))

  unfoldable pub counted_reply :
      Result (Unit {0}) Disconnected × Shared → Result (Unit {0}) CountedSendError × Shared
  counted_reply (ok _, s) = (ok tt, s)
  counted_reply (err e, s) = (err (gone e), s)

  unfoldable pub send_reserved :
      T → C.Chan → Result Reservation Full × Quota → Result (Unit {0}) CountedSendError × Shared
  unfolding sent counted_reply
  send_reserved item c (ok r, q) = counted_reply (sent r q (C.send c item))
  send_reserved item c (err e, q) =
      if C.is_disconnected c
      then (err (gone disconnected), (q, c))
      else (err (no_capacity e), (q, c))

  unfoldable pub try_send_counted : Shared → T → Result (Unit {0}) CountedSendError × Shared
  unfolding send_reserved reserve
  try_send_counted (q, c) item = send_reserved item c (reserve q)

  unfoldable pub try_send_forced : Shared → T → Result (Unit {0}) Disconnected × Shared
  unfolding sent reserve_forced
  try_send_forced (q, c) item = let (r, q') = reserve_forced q in sent r q' (C.send c item)

  unfoldable pub uncounted_reply :
      Quota → Result (Unit {0}) T × C.Chan → Result (Unit {0}) Disconnected × Shared
  uncounted_reply q (ok _, c) = (ok tt, (q, c))
  uncounted_reply q (err item, c) = (err disconnected, (q, c))

  unfoldable pub try_send_uncounted : Shared → T → Result (Unit {0}) Disconnected × Shared
  unfolding uncounted_reply
  try_send_uncounted (q, c) item = uncounted_reply q (C.send c item)
