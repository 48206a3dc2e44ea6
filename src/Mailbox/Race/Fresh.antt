-- ===== src/Mailbox/Race/Fresh.antt =====
-- tellus/src/quota.rs and tellus/src/mailbox.rs: what a mailbox promises from its start on.
use tellus.Prelude.{
  ℕ, suc, ◌+◌, ◌≤◌, ◌<◌, ◌≡◌, refl, ap, some, List, [], ◌∷◌, map, length, get_elem?, arith,
  usize_mod,
}
use tellus.Actor.{Incoming}
use tellus.Config.{MailboxCapacity}
use tellus.Channel.{Channel, IsChannel}
use tellus.Mailbox.{make_quota}
use tellus.Mailbox.Race.{
  Sending, counted, forced, uncounted, starting, releasing, waiting, owing, System, Move, run,
}
use tellus.Mailbox.Race.Counting.{messages, holds, asks, forces, owed, total, total_ge}
use tellus.Mailbox.Race.Capacity.{IsAccounted, run-IsAccounted}

abbrev pub forced_sends : {M : Type 0} → List (Sending M) → ℕ
forced_sends [] = 0
forced_sends (counted m ∷ ks) = forced_sends ks
forced_sends (forced m ∷ ks) = suc (forced_sends ks)
forced_sends (uncounted id ∷ ks) = forced_sends ks

module _ {M : Type 0} where
  asks-starting : (ks : List (Sending M)) → total asks (map (λ k. starting k) ks) ≤ length ks
  asks-starting [] = omega arith
  asks-starting (counted m ∷ ks) = omega (arith, asks-starting ks)
  asks-starting (forced m ∷ ks) = omega (arith, asks-starting ks)
  asks-starting (uncounted id ∷ ks) = omega (arith, asks-starting ks)

  holds-starting : (ks : List (Sending M)) → total holds (map (λ k. starting k) ks) ≡ 0
  holds-starting [] = refl
  holds-starting (k ∷ ks) = omega (arith, holds-starting ks)

  forces-starting :
      (ks : List (Sending M)) → total forces (map (λ k. starting k) ks) ≡ forced_sends ks
  forces-starting [] = refl
  forces-starting (counted m ∷ ks) = omega (arith, forces-starting ks)
  forces-starting (forced m ∷ ks) = omega (arith, forces-starting ks)
  forces-starting (uncounted id ∷ ks) = omega (arith, forces-starting ks)

module _ {M : Type 0} (C : Channel (Incoming M)) (L : IsChannel C) where
  -- `make_mailbox`, around a channel that is still empty, and the sends that are to come.
  abbrev pub fresh : MailboxCapacity → C.Chan → List (Sending M) → System C
  fresh capacity c ks = record {
    shared = (make_quota capacity, c);
    senders = map (λ k. starting k) ks;
    receiver = waiting;
    delivered = [];
  }

  fresh-IsAccounted :
      (capacity : ℕ) (c : C.Chan) (ks : List (Sending M))
      → L.contents c ≡ []
      → length ks < usize_mod
      → IsAccounted C L capacity (forced_sends ks) (fresh (MailboxCapacity.bounded capacity) c ks)
  unfolding make_quota
  fresh-IsAccounted capacity c ks empty few = record {
    count = 0;
    quota_is = refl;
    accounts = omega (arith, ap messages empty, holds-starting ks);
    room = omega (arith, few, asks-starting ks);
    forced_le = omega (arith, forces-starting ks);
    within = omega (arith, forces-starting ks);
  }

  -- A bounded mailbox never holds more messages than its capacity and the number of forced sends
  -- together, whatever any number of concurrent sends and the receiver do and in whatever order, as
  -- long as the sends are fewer than a `usize` counts; signals are not counted.
  pub messages_bounded :
      (capacity : ℕ) (c : C.Chan) (ks : List (Sending M)) (ms : List (Move C))
      → L.contents c ≡ []
      → length ks < usize_mod
      → messages (L.contents (run C ms (fresh (MailboxCapacity.bounded capacity) c ks)).shared.1)
        ≤ capacity + forced_sends ks
  messages_bounded capacity c ks ms empty few =
      let v =
        run-IsAccounted C L capacity (forced_sends ks) ms
          (fresh (MailboxCapacity.bounded capacity) c ks)
          (fresh-IsAccounted capacity c ks empty few) in
      omega (arith, v.accounts, v.within)

-- Wherever the accounts are right, the count is above zero when the receiver is about to release a
-- message, and when a sender is about to give back a reservation: it never underflows.
count_pos :
    {M : Type 0} (C : Channel (Incoming M)) (L : IsChannel C) (capacity extra : ℕ) (s : System C)
    (v : IsAccounted C L capacity extra s)
    → (s.receiver ≡ owing → 0 < v.count)
      × ((i : ℕ) → get_elem? s.senders i ≡ some releasing → 0 < v.count)
count_pos C L capacity extra s v = (
  λ e. omega (arith, v.accounts, ap owed e),
  λ i e. omega (arith, v.accounts, total_ge holds s.senders i releasing e),
)
