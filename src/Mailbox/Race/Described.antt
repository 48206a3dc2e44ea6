-- ===== src/Mailbox/Race/Described.antt =====
-- tellus/src/quota.rs: what a send that nobody interrupts comes to, counted, forced or uncounted.
use tellus.Prelude.{
  ℕ, ◌+◌, ◌%◌, ◌≤◌, ◌<◌, ◌≡◌, ◌⊎◌, inl, inr, refl, ap, true, false, Bool, [], ◌∷◌, ◌++◌, Result, ok,
  err, arith, usize_mod,
}
use native.Mathlib.Decide.{dec_le}
use tellus.Actor.{ActorId, Incoming, message, terminated}
use tellus.Channel.{Channel, IsChannel}
use tellus.Quota.{
  Quota, unbounded, bounded, full, disconnected, no_capacity, gone, Shared, CountedSendError,
  unreserve, reserve, reserve_forced, drop_reservation, sent, counted_reply, send_reserved,
  uncounted_reply, try_send_counted, try_send_forced, try_send_uncounted,
}
use tellus.Quota.Sending.{try_send_counted_lem}
use tellus.Mailbox.Race.{Sending, counted, forced, uncounted, item, starting, finished}
use tellus.Mailbox.Race.Alone.{try_send, next, sender_step-try_send}

-- A count that a `usize` holds.
abbrev pub IsCount : Quota → Type 0
IsCount unbounded = Unit
IsCount (bounded capacity count) = count < usize_mod

module _ {M : Type 0} where
  -- Whether the quota lets a call send, and how it is left by one that does.
  abbrev pub HasRoom : Sending M → Quota → Type 0
  HasRoom (counted m) unbounded = Unit
  HasRoom (counted m) (bounded capacity count) = count < capacity
  HasRoom (forced m) q = Unit
  HasRoom (uncounted id) q = Unit

  abbrev pub IsFull : Sending M → Quota → Type 0
  IsFull (counted m) unbounded = ⊥
  IsFull (counted m) (bounded capacity count) = capacity ≤ count
  IsFull (forced m) q = ⊥
  IsFull (uncounted id) q = ⊥

  abbrev pub with_one_more : Sending M → Quota → Quota
  with_one_more x unbounded = unbounded
  with_one_more (counted m) (bounded capacity count) = bounded capacity (count + 1)
  with_one_more (forced m) (bounded capacity count) = bounded capacity ((count + 1) % usize_mod)
  with_one_more (uncounted id) (bounded capacity count) = bounded capacity count

module _ {M : Type 0} (C : Channel (Incoming M)) (L : IsChannel C) where
  -- With the receiver gone nothing changes; and with the receiver there nothing changes where the
  -- quota is full, and else the item stands last and is counted.
  abbrev pub Described :
      Sending M → Quota → C.Chan → Result (Unit {0}) CountedSendError × Shared C → Type 0
  Described x q c r =
      ((C.is_disconnected c ≡ true) × (r ≡ (err (gone disconnected), (q, c))))
      ⊎ ((C.is_disconnected c ≡ false) × IsFull x q × (r ≡ (err (no_capacity full), (q, c))))
      ⊎ ((C.is_disconnected c ≡ false)
          × HasRoom x q
          × (r ≡ (ok tt, (with_one_more x q, (C.send c (item x)).1)))
          × (L.contents (C.send c (item x)).1 ≡ L.contents c ++ item x ∷ []))

  counted-Described :
      (m : M) (q : Quota) (c : C.Chan) (gone_now : Bool)
      → IsCount q
      → C.is_disconnected c ≡ gone_now
      → Described (counted m) q c (try_send C (counted m) (q, c))
  counted-Described m unbounded c true room e = inl (
    e,
    unfold try_send_counted reserve send_reserved sent drop_reservation unreserve counted_reply in
        (rw (L.send_disconnected c (message m) e) refl),
  )
  counted-Described m unbounded c false room e =
      let (accepted, last, still) = L.send_connected c (message m) e in
      inr (
        inr (
          e,
          tt,
          unfold try_send_counted reserve send_reserved sent drop_reservation counted_reply in
              (rw accepted refl),
          last,
        ))
  counted-Described m (bounded k n) c true room e =
      inl (e, (try_send_counted_lem C L k n c (message m) room).0 e)
  counted-Described m (bounded k n) c false room e =
      let (refused, full_up, accepted) = try_send_counted_lem C L k n c (message m) room in
      elim (dec_le k n) [
        | yes le ↦ inr (inl (e, le, full_up e le))
        | no gt ↦
            let lt : n < k = omega arith in
            let (sends, last) = accepted e lt in inr (inr (e, lt, sends, last))
      ]

  given_back : (k n : ℕ) → n < usize_mod → unreserve (reserve_forced (bounded k n)).1 ≡ bounded k n
  unfolding unreserve reserve_forced
  given_back k n h = ap (bounded k) (omega (arith, h))

  forced-Described :
      (m : M) (q : Quota) (c : C.Chan) (gone_now : Bool)
      → IsCount q
      → C.is_disconnected c ≡ gone_now
      → Described (forced m) q c (try_send C (forced m) (q, c))
  unfolding try_send_forced sent drop_reservation
  forced-Described m unbounded c true room e =
      inl (e, rw (L.send_disconnected c (message m) e) (unfold reserve_forced unreserve in refl))
  forced-Described m (bounded k n) c true room e = inl (
    e,
    rw (L.send_disconnected c (message m) e)
        (ap (λ q. (err (gone disconnected), (q, c))) (given_back k n room)),
  )
  forced-Described m unbounded c false room e =
      let (accepted, last, still) = L.send_connected c (message m) e in
      inr (inr (e, tt, rw accepted (unfold reserve_forced in refl), last))
  forced-Described m (bounded k n) c false room e =
      let (accepted, last, still) = L.send_connected c (message m) e in
      inr (inr (e, tt, rw accepted (unfold reserve_forced in refl), last))

  uncounted-Described :
      (id : ActorId) (q : Quota) (c : C.Chan) (gone_now : Bool)
      → C.is_disconnected c ≡ gone_now
      → Described (uncounted id) q c (try_send C (uncounted id) (q, c))
  unfolding try_send_uncounted uncounted_reply
  uncounted-Described id q c true e = inl (e, rw (L.send_disconnected c (terminated id) e) refl)
  uncounted-Described id unbounded c false e =
      let (accepted, last, still) = L.send_connected c (terminated id) e in
      inr (inr (e, tt, rw accepted refl, last))
  uncounted-Described id (bounded k n) c false e =
      let (accepted, last, still) = L.send_connected c (terminated id) e in
      inr (inr (e, tt, rw accepted refl, last))

  try_send-Described :
      (x : Sending M) (q : Quota) (c : C.Chan) → IsCount q → Described x q c (try_send C x (q, c))
  try_send-Described (counted m) q c room = counted-Described m q c (C.is_disconnected c) room refl
  try_send-Described (forced m) q c room = forced-Described m q c (C.is_disconnected c) room refl
  try_send-Described (uncounted id) q c room = uncounted-Described id q c (C.is_disconnected c) refl

  -- Three steps with no other move between them end every call, counted, forced or uncounted, with
  -- the reply and in the state of the call as a whole. And these are what is promised: with the
  -- receiver gone the call says so and changes nothing, also where the quota is full; with the receiver
  -- there a counted call is refused as full, changing nothing, exactly from the capacity on; and every
  -- other call puts its item last, the count one higher if it is a message. It is asked that a `usize`
  -- holds the count.
  pub alone :
      (x : Sending M) (q : Quota) (c : C.Chan)
      → IsCount q
      → let r = try_send C x (q, c) in
        (next C (next C (next C (starting x, (q, c)))) ≡ (finished r.0, r.1)) × Described x q c r
  alone x q c room = (sender_step-try_send C x (q, c), try_send-Described x q c room)
