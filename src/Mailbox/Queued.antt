-- ===== src/Mailbox/Queued.antt =====
-- tellus/src/mailbox.rs: what a send does to the messages
-- that are queued.
use tellus.Prelude.{
  map_err, ◌≡◌, refl, ap, sym, ◌∙◌, Bool-cases, inl, inr, List, [], ◌∷◌, ◌++◌, append_nil, Result,
  ok, err,
}
use tellus.Prelude.Dict.{nat_key}
use tellus.Actor.{ActorId, Incoming, message, terminated}
use tellus.Channel.{Channel, IsChannel}
use tellus.Quota.{
  Quota, Full, Reservation, Shared, reserve, sent, counted_reply, send_reserved, try_send_counted,
  uncounted_reply, try_send_uncounted,
}
use tellus.Mailbox.{SendError, from, try_send_message, send_terminated}

abbrev pub messages_of : {M : Type 0} → List (Incoming M) → List M
messages_of [] = []
messages_of (message m ∷ xs) = m ∷ messages_of xs
messages_of (terminated i ∷ xs) = messages_of xs

pub messages_of-append :
    {M : Type 0} (xs ys : List (Incoming M))
    → messages_of (xs ++ ys) ≡ messages_of xs ++ messages_of ys
messages_of-append [] ys = refl
messages_of-append (message m ∷ xs) ys = ap (◌∷◌ m) (messages_of-append xs ys)
messages_of-append (terminated i ∷ xs) ys = messages_of-append xs ys

-- A message whose send is accepted.
abbrev pub if_sent : {M : Type 0} → M → Result (Unit {0}) SendError → List M
if_sent m (ok _) = m ∷ []
if_sent m (err e) = []

module _ {M : Type 0} (C : Channel (Incoming M)) (L : IsChannel C) where
  abbrev pub queued_messages : Shared C → List M
  queued_messages s = messages_of (L.contents s.1)

  send_reserved-queued :
      (m : M) (c : C.Chan) (r : Result Reservation Full × Quota)
      → let (reply, s') = send_reserved C (message m) c r in
        queued_messages s' ≡ messages_of (L.contents c) ++ if_sent m (map_err from reply)
  unfolding send_reserved sent counted_reply
  send_reserved-queued m c (err e, q) = elim (Bool-cases (C.is_disconnected c)) [
    | inl gone ↦ rw gone (sym (append_nil (messages_of (L.contents c))))
    | inr there ↦ rw there (sym (append_nil (messages_of (L.contents c))))
  ]
  send_reserved-queued m c (ok r, q) = elim (Bool-cases (C.is_disconnected c)) [
    | inl gone ↦
        rw (L.send_disconnected c (message m) gone) (sym (append_nil (messages_of (L.contents c))))
    | inr there ↦
        let (accepted, last, _) = L.send_connected c (message m) there in
        rw accepted (ap messages_of last ∙ messages_of-append (L.contents c) (message m ∷ []))
  ]

  pub try_send_message-queued :
      (m : M) (s : Shared C)
      → let (reply, s') = try_send_message C s m in
        queued_messages s' ≡ queued_messages s ++ if_sent m reply
  unfolding try_send_message try_send_counted
  try_send_message-queued m (q, c) = send_reserved-queued m c (reserve q)

  pub send_terminated-queued :
      (i : ActorId) (s : Shared C) → queued_messages (send_terminated C s i).1 ≡ queued_messages s
  unfolding send_terminated try_send_uncounted uncounted_reply
  send_terminated-queued i (q, c) = elim (Bool-cases (C.is_disconnected c)) [
    | inl gone ↦ rw (L.send_disconnected c (terminated i) gone) refl
    | inr there ↦
        let (accepted, last, _) = L.send_connected c (terminated i) there in
        rw accepted (
          ap messages_of last
          ∙ messages_of-append (L.contents c) (terminated i ∷ [])
          ∙ append_nil (messages_of (L.contents c)))
  ]
