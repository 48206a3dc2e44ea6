-- ===== src/Quota/Sending.antt =====
-- tellus/src/quota.rs: one send that runs on its own, on every branch.
use tellus.Prelude.{
  ℕ, ◌+◌, ◌≤◌, ◌<◌, ◌≡◌, refl, ap, true, false, [], ◌∷◌, ◌++◌, Bool, Bool-cases, inl, inr,
  if◌then◌else◌, ok, err, arith, usize_mod, ltb,
}
use tellus.Channel.{Channel, IsChannel}
use tellus.Quota.{
  Quota, bounded, full, disconnected, no_capacity, gone, held, unreserve, reserve, sent,
  counted_reply, drop_reservation, send_reserved, try_send_counted,
}

-- What was reserved is given back: the count is as before.
pub unreserve-bounded : (k n : ℕ) → n < usize_mod → unreserve (bounded k (n + 1)) ≡ bounded k n
unfolding unreserve
unreserve-bounded k n h = ap (bounded k) (omega arith)

module _ {T : Type 0} (C : Channel T) (L : IsChannel C) where
  send_reserved_gone :
      (k n : ℕ) (c : C.Chan) (x : T)
      → n < usize_mod
      → C.is_disconnected c ≡ true
      → send_reserved C x c (ok held, bounded k (n + 1))
        ≡ (err (gone disconnected), (bounded k n, c))
  unfolding send_reserved sent counted_reply drop_reservation
  send_reserved_gone k n c x room h =
      rw (L.send_disconnected c x h)
        (ap (λ q. (err (gone disconnected), (q, c))) (unreserve-bounded k n room))

  send_reserved_ok :
      (q : Quota) (c : C.Chan) (x : T)
      → C.is_disconnected c ≡ false
      → send_reserved C x c (ok held, q) ≡ (ok tt, (q, (C.send c x).1))
  unfolding send_reserved sent counted_reply drop_reservation
  send_reserved_ok q c x h =
      ap (λ r. counted_reply C (sent C held q (r, (C.send c x).1))) (L.send_connected c x h).0

  send_reserved_full :
      (q : Quota) (c : C.Chan) (x : T) (b : Bool)
      → C.is_disconnected c ≡ b
      → send_reserved C x c (err full, q)
        ≡ (if b then err (gone disconnected) else err (no_capacity full), (q, c))
  unfolding send_reserved
  send_reserved_full q c x true h = rw h refl
  send_reserved_full q c x false h = rw h refl

  -- A counted send reports a receiver that is gone also where the quota is full, and then it has
  -- changed nothing; with the receiver there it is refused as full, changing nothing, exactly from
  -- the capacity on, and below the capacity the count goes up by one and the item stands last in the
  -- channel.
  pub try_send_counted_lem :
      (capacity count : ℕ) (c : C.Chan) (x : T)
      → count < usize_mod
      → (C.is_disconnected c ≡ true
          → try_send_counted C (bounded capacity count, c) x
            ≡ (err (gone disconnected), (bounded capacity count, c)))
        × (C.is_disconnected c ≡ false
            → capacity ≤ count
            → try_send_counted C (bounded capacity count, c) x
              ≡ (err (no_capacity full), (bounded capacity count, c)))
        × (C.is_disconnected c ≡ false
            → count < capacity
            → (try_send_counted C (bounded capacity count, c) x
                ≡ (ok tt, (bounded capacity (count + 1), (C.send c x).1)))
              × (L.contents (C.send c x).1 ≡ L.contents c ++ x ∷ []))
  unfolding try_send_counted reserve
  try_send_counted_lem k n c x room = (
    λ h. elim (Bool-cases (ltb n k)) [
      | inl e ↦ rw e (send_reserved_gone k n c x room h)
      | inr e ↦ rw e (send_reserved_full (bounded k n) c x true h)
    ],
    λ h le.
        let e : ltb n k ≡ false = ground arith in
        rw e (send_reserved_full (bounded k n) c x false h),
    λ h lt.
        let e : ltb n k ≡ true = ground arith in
        (rw e (send_reserved_ok (bounded k (n + 1)) c x h), (L.send_connected c x h).1),
  )
