-- ===== src/Testing/Taking.antt =====
-- tellus/src/testing.rs, `take_incoming`: what an actor under test has sent to itself.
use mathlib.Core.List.{append_assoc}
use tellus.Prelude.{
  ℕ, zero, suc, ◌<◌, ◌≡◌, refl, ap, sym, ◌∙◌, false, Option, none, some, List, [], ◌∷◌, ◌++◌,
  append_nil, length, arith,
}
use tellus.Actor.{Incoming, message, terminated}
use tellus.Channel.{Channel, IsChannel}
use tellus.Quota.{
  Quota, Shared, unreserve, reserve, sent, counted_reply, send_reserved, drop_reservation,
  uncounted_reply, try_send_counted, try_send_uncounted,
}
use tellus.Mailbox.{make_quota, received, try_recv, try_send_message, send_terminated}
use tellus.Testing.{new_mailbox, collected, take_incoming}

module _ {M : Type 0} (C : Channel (Incoming M)) (L : IsChannel C) where
  -- A message through `tell`, a signal through the sink of a watcher.
  abbrev sends : Incoming M → Shared C → Shared C
  sends (message m) s = (try_send_message C s m).1
  sends (terminated id) s = (send_terminated C s id).1

  abbrev pub sends_all : List (Incoming M) → Shared C → Shared C
  sends_all [] s = s
  sends_all (x ∷ xs) s = sends_all xs (sends x s)

  sends-sent :
      (x : Incoming M) (c : C.Chan)
      → C.is_disconnected c ≡ false
      → sends x (Quota.unbounded, c) ≡ (Quota.unbounded, (C.send c x).1)
  unfolding try_send_message try_send_counted send_reserved reserve sent counted_reply
      drop_reservation send_terminated try_send_uncounted uncounted_reply unreserve
  sends-sent (message m) c h = rw ((L.send_connected c (message m) h).0, sends) refl
  sends-sent (terminated id) c h = rw ((L.send_connected c (terminated id) h).0, sends) refl

  sends_all-contents :
      (xs : List (Incoming M)) (c : C.Chan)
      → C.is_disconnected c ≡ false
      → (c' : C.Chan) × (sends_all xs (Quota.unbounded, c) ≡ (Quota.unbounded, c'))
        × (L.contents c' ≡ L.contents c ++ xs)
  sends_all-contents [] c h = (c, refl, sym (append_nil (L.contents c)))
  sends_all-contents (x ∷ xs) c h =
      let (_, last, there) = L.send_connected c x h in
      let (c', all, stands) = sends_all-contents xs (C.send c x).1 there in
      (
        c',
        ap (sends_all xs) (sends-sent x c h) ∙ all,
        cc (last, stands, append_assoc (L.contents c) (x ∷ []) xs),
      )

  received-empty :
      (c : C.Chan)
      → L.contents c ≡ []
      → try_recv C (Quota.unbounded, c) ≡ (none, (Quota.unbounded, c))
  unfolding try_recv received
  received-empty c h = rw (L.try_recv_empty c h) refl

  -- A call of `take_incoming` goes on from what it receives.
  abbrev goes_on : ℕ → Option (Incoming M) × Shared C → Option (List (Incoming M) × Shared C)
  goes_on fuel r = collected C r.0 r.1 (take_incoming C fuel r.1)

  received-item :
      (x : Incoming M) (c : C.Chan)
      → (C.try_recv c).0 ≡ some x
      → try_recv C (Quota.unbounded, c) ≡ (some x, (Quota.unbounded, (C.try_recv c).1))
  unfolding try_recv received unreserve
  received-item (message m) c h = rw h refl
  received-item (terminated id) c h = rw h refl

  take_incoming-contents :
      (fuel : ℕ) (xs : List (Incoming M)) (c : C.Chan)
      → L.contents c ≡ xs
      → length xs < fuel
      → (c' : C.Chan) × (take_incoming C fuel (Quota.unbounded, c)
          ≡ some (xs, (Quota.unbounded, c')))
        × (L.contents c' ≡ [])
  unfolding take_incoming collected
  take_incoming-contents zero xs c h lt = absurd (omega arith)
  take_incoming-contents (suc fuel) [] c h lt = (c, ap (goes_on fuel) (received-empty c h), h)
  take_incoming-contents (suc fuel) (x ∷ xs) c h lt =
      let (item, rest) = L.try_recv_item c x xs h in
      let (c', took, empty) =
        take_incoming-contents fuel xs (C.try_recv c).1 rest (omega (arith, lt)) in
      (
        c',
        ap (goes_on fuel) (received-item x c item)
            ∙ ap (collected C (some x) (Quota.unbounded, (C.try_recv c).1)) took,
        empty,
      )

  -- Messages and signals that the actor under test is sent, its own among them, are what the next
  -- `take_incoming` gives, all of them, in order, and it leaves the mailbox empty; fuel above their
  -- number is enough. It is asked that the mailbox is new.
  pub take_incoming-sends_all :
      (fuel : ℕ) (xs : List (Incoming M)) (c : C.Chan)
      → C.is_disconnected c ≡ false
      → L.contents c ≡ []
      → length xs < fuel
      → (s : Shared C) × (take_incoming C fuel (sends_all xs (new_mailbox C c)) ≡ some (xs, s))
        × (L.contents s.1 ≡ [])
  unfolding new_mailbox make_quota
  take_incoming-sends_all fuel xs c there empty enough =
      let (c', sent, stands) = sends_all-contents xs c there in
      let (d, took, left) =
        take_incoming-contents fuel xs c' (stands ∙ ap (λ ys. ys ++ xs) empty) enough in
      ((Quota.unbounded, d), ap (take_incoming C fuel) sent ∙ took, left)
