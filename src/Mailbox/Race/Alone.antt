-- ===== src/Mailbox/Race/Alone.antt =====
-- tellus/src/quota.rs: a sender that nobody interrupts does what the whole call does.
use tellus.Prelude.{
  ◌+◌, ◌%◌, usize_mod, ◌≡◌, refl, Bool, true, false, Bool-cases, inl, inr, Result, ok, err, map_err,
  ltb,
}
use tellus.Actor.{ActorId, Incoming, message, terminated}
use tellus.Channel.{Channel}
use tellus.Quota.{
  Quota, unbounded, bounded, full, gone, held, Shared, CountedSendError, reserve, reserve_forced,
  drop_reservation, sent, counted_reply, send_reserved, uncounted_reply, try_send_counted,
  try_send_forced, try_send_uncounted,
}
use tellus.Mailbox.Race.{
  Sending, counted, forced, uncounted, Phase, starting, finished, after_reserve, failed_send,
  after_send, sender_step,
}

module _ {M : Type 0} (C : Channel (Incoming M)) where
  -- The call that a sender makes.
  abbrev pub try_send : Sending M → Shared C → Result (Unit {0}) CountedSendError × Shared C
  try_send (counted m) s = try_send_counted C s (message m)
  try_send (forced m) s = let (r, s') = try_send_forced C s (message m) in (map_err gone r, s')
  try_send (uncounted id) s =
      let (r, s') = try_send_uncounted C s (terminated id) in (map_err gone r, s')

  abbrev pub next : Phase M × Shared C → Phase M × Shared C
  next r = sender_step C r.0 r.1

  held_counted :
      (m : M) (q : Quota) (r : Result (Unit {0}) (Incoming M) × C.Chan)
      → next (after_send C (counted m) q r)
        ≡ (let (reply, s) = counted_reply C (sent C held q r) in (finished reply, s))
  unfolding sender_step after_send failed_send counted_reply sent drop_reservation
  held_counted m q (ok _, c) = refl
  held_counted m q (err x, c) = refl

  held_forced :
      (m : M) (q : Quota) (r : Result (Unit {0}) (Incoming M) × C.Chan)
      → next (after_send C (forced m) q r)
        ≡ (let (reply, s) = sent C held q r in (finished (map_err gone reply), s))
  unfolding sender_step after_send failed_send sent drop_reservation
  held_forced m q (ok _, c) = refl
  held_forced m q (err x, c) = refl

  not_held :
      (id : ActorId) (q : Quota) (r : Result (Unit {0}) (Incoming M) × C.Chan)
      → next (after_send C (uncounted id) q r)
        ≡ (let (reply, s) = uncounted_reply C q r in (finished (map_err gone reply), s))
  unfolding sender_step after_send failed_send uncounted_reply
  not_held id q (ok _, c) = refl
  not_held id q (err x, c) = refl

  refused :
      (m : M) (q : Quota) (c : C.Chan) (b : Bool)
      → C.is_disconnected c ≡ b
      → next (next (after_reserve C m c (err full, q)))
        ≡ (let (reply, s) = send_reserved C (message m) c (err full, q) in (finished reply, s))
  unfolding sender_step after_reserve send_reserved
  refused m q c true h = rw h refl
  refused m q c false h = rw h refl

  granted :
      (m : M) (q : Quota) (c : C.Chan)
      → next (next (after_reserve C m c (ok held, q)))
        ≡ (let (reply, s) = send_reserved C (message m) c (ok held, q) in (finished reply, s))
  unfolding sender_step after_reserve send_reserved
  granted m q c = held_counted m q (C.send c (message m))

  pub sender_step-try_send :
      (k : Sending M) (s : Shared C)
      → next (next (next (starting k, s)))
        ≡ (let (reply, s') = try_send k s in (finished reply, s'))
  unfolding sender_step reserve reserve_forced try_send_counted try_send_forced try_send_uncounted
  sender_step-try_send (counted m) (unbounded, c) = granted m unbounded c
  sender_step-try_send (counted m) (bounded k n, c) = elim (Bool-cases (ltb n k)) [
    | inl e ↦ rw e (granted m (bounded k (n + 1)) c)
    | inr e ↦ elim (Bool-cases (C.is_disconnected c)) [
      | inl d ↦ rw e (refused m (bounded k n) c true d)
      | inr d ↦ rw e (refused m (bounded k n) c false d)
    ]
  ]
  sender_step-try_send (forced m) (unbounded, c) = held_forced m unbounded (C.send c (message m))
  sender_step-try_send (forced m) (bounded k n, c) =
      held_forced m (bounded k ((n + 1) % usize_mod)) (C.send c (message m))
  sender_step-try_send (uncounted id) (q, c) = not_held id q (C.send c (terminated id))
