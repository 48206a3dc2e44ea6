-- ===== src/Asking/Telling.antt =====
-- tellus/src/actor_ref.rs, `tell`: no message is lost but as a dead letter.
use tellus.Prelude.{
  ℕ, ◌+◌, ◌≤◌, ◌<◌, ◌≡◌, ◌⊎◌, inl, inr, refl, true, false, Bool-cases, arith, usize_mod, List, [],
  ◌∷◌, ◌++◌,
}
use native.Mathlib.Decide.{dec_le}
use tellus.Actor.{ActorId, Incoming, message}
use tellus.Channel.{Channel, IsChannel}
use tellus.Quota.{full, bounded}
use tellus.Quota.Sending.{try_send_counted_lem}
use tellus.Mailbox.{mailbox_full, is_terminated, actor_terminated, from, try_send_message}
use tellus.Asking.{DeadLetter, undelivered, Outgoing, tell, logged}

module _ {M : Type 0} (C : Channel (Incoming M)) (L : IsChannel C) (id : ActorId) where
  -- What becomes of a message, by whether the receiver is gone and by the count: it is logged, and
  -- the mailbox is as it was; or it is counted and stands last in the mailbox, and nothing is logged.
  abbrev pub Told : ℕ → ℕ → M → C.Chan → List DeadLetter → Outgoing C id → Type 0
  Told capacity count m c log after =
      ((C.is_disconnected c ≡ true)
        × (after ≡ (
          (bounded capacity count, c),
          log ++ undelivered id (is_terminated actor_terminated) ∷ [],
        )))
      ⊎ ((C.is_disconnected c ≡ false)
          × (capacity ≤ count)
          × (after ≡ ((bounded capacity count, c), log ++ undelivered id (mailbox_full full) ∷ [])))
      ⊎ ((C.is_disconnected c ≡ false)
          × (count < capacity)
          × (after ≡ ((bounded capacity (count + 1), (C.send c (message m)).1), log))
          × (L.contents (C.send c (message m)).1 ≡ L.contents c ++ message m ∷ []))

  -- With the receiver gone a message is logged as a dead letter, also where the mailbox is full, and
  -- nothing else changes; with the receiver there it is logged as that exactly from the capacity on,
  -- and below the capacity it is counted and stands last in the mailbox, and nothing is logged.
  pub tell-Told :
      (capacity count : ℕ) (m : M) (c : C.Chan) (log : List DeadLetter)
      → count < usize_mod
      → Told capacity count m c log (tell C id m ((bounded capacity count, c), log))
  unfolding tell try_send_message logged from
  tell-Told k n m c log room =
      let (refused, full_up, accepted) = try_send_counted_lem C L k n c (message m) room in
      elim (Bool-cases (C.is_disconnected c)) [
        | inl e ↦ inl (e, rw (refused e) refl)
        | inr e ↦ elim (dec_le k n) [
          | yes le ↦ inr (inl (e, le, rw (full_up e le) refl))
          | no gt ↦
              let lt : n < k = omega arith in
              let (sent, last) = accepted e lt in inr (inr (e, lt, rw sent refl, last))
        ]
      ]
