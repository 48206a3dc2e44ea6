-- ===== src/Mailbox/Race/Order.antt =====
-- tellus/src/quota.rs and tellus/src/mailbox.rs: one queue for messages and signals.
use tellus.Prelude.{
  ℕ, ◌≡◌, refl, ap, sym, ◌∙◌, Bool-cases, inl, inr, Option, none, some, List, [], ◌∷◌, ◌++◌,
  append_nil, get_elem?, Result, ok, err, ltb, if◌then◌else◌,
}
use mathlib.Core.Path.{subst}
use mathlib.Core.List.{append_assoc}
use tellus.Actor.{Incoming, message, terminated}
use tellus.Channel.{Channel, IsChannel}
use tellus.Quota.{Quota, unbounded, bounded, reserve}
use tellus.Mailbox.Race.{
  Sending, counted, forced, uncounted, item, Phase, starting, sending, releasing, probing, finished,
  Receiver, waiting, owing, dropped, after_reserve, after_send, sender_step, System, Move, sender,
  receive, drop_receiver, move_sender, taken, move_receiver, move_drop, step, run,
}

module _ {M : Type 0} (C : Channel (Incoming M)) (L : IsChannel C) where
  -- What was sent before and has been received or still stands in the queue, in order.
  abbrev pub line : System C → List (Incoming M)
  line s = s.delivered ++ L.contents s.shared.1

  -- What a step of a sender puts into the queue.
  abbrev pub sent_by : Phase M → C.Chan → List (Incoming M)
  sent_by (starting k) c = []
  sent_by (sending k) c = if C.is_disconnected c then [] else item k ∷ []
  sent_by releasing c = []
  sent_by probing c = []
  sent_by (finished r) c = []

  abbrev sent_at : Option (Phase M) → C.Chan → List (Incoming M)
  sent_at none c = []
  sent_at (some p) c = sent_by p c

  abbrev pub sends : Move C → System C → List (Incoming M)
  sends (sender i) s = sent_at (get_elem? s.senders i) s.shared.1
  sends receive s = []
  sends drop_receiver s = []

  abbrev pub all_sent : List (Move C) → System C → List (Incoming M)
  all_sent [] s = []
  all_sent (m ∷ ms) s = sends m s ++ all_sent ms (step C m s)

  contents-after_send :
      (k : Sending M) (q : Quota) (r : Result (Unit {0}) (Incoming M) × C.Chan)
      → (after_send C k q r).1.1 ≡ r.1
  unfolding after_send
  contents-after_send k q (ok _, c) = refl
  contents-after_send k q (err x, c) = refl

  send_line :
      (k : Sending M) (q : Quota) (c : C.Chan)
      → L.contents (after_send C k q (C.send c (item k))).1.1
        ≡ L.contents c ++ sent_by (sending k) c
  send_line k q c =
      ap L.contents (contents-after_send k q (C.send c (item k)))
      ∙ elim (Bool-cases (C.is_disconnected c)) [
        | inl e ↦
            ap (λ r. L.contents r.1) (L.send_disconnected c (item k) e)
            ∙ sym (rw e (append_nil (L.contents c)))
        | inr e ↦ (L.send_connected c (item k) e).1 ∙ sym (rw e refl)
      ]

  sender_line :
      (p : Phase M) (q : Quota) (c : C.Chan)
      → L.contents (sender_step C p (q, c)).1.1 ≡ L.contents c ++ sent_by p c
  unfolding sender_step after_reserve reserve
  sender_line (starting (counted m)) unbounded c = sym (append_nil (L.contents c))
  sender_line (starting (counted m)) (bounded k n) c = elim (Bool-cases (ltb n k)) [
    | inl e ↦ rw e (sym (append_nil (L.contents c)))
    | inr e ↦ rw e (sym (append_nil (L.contents c)))
  ]
  sender_line (starting (forced m)) q c = sym (append_nil (L.contents c))
  sender_line (starting (uncounted id)) q c = sym (append_nil (L.contents c))
  sender_line (sending k) q c = send_line k q c
  sender_line releasing q c = sym (append_nil (L.contents c))
  sender_line probing q c = elim (Bool-cases (C.is_disconnected c)) [
    | inl e ↦ rw e (sym (append_nil (L.contents c)))
    | inr e ↦ rw e (sym (append_nil (L.contents c)))
  ]
  sender_line (finished r) q c = sym (append_nil (L.contents c))

  line-taken :
      (s : System C) (items : List (Incoming M))
      → L.contents s.shared.1 ≡ items
      → line (taken C s (C.try_recv s.shared.1)) ≡ line s
  unfolding taken
  line-taken s [] e =
      subst (λ r. line (taken C s r) ≡ line s) (sym (L.try_recv_empty s.shared.1 e)) refl
  line-taken s (message m ∷ xs) e =
      let (first, rest) = L.try_recv_item s.shared.1 (message m) xs e in
      subst (λ o. line (taken C s (o, (C.try_recv s.shared.1).1)) ≡ line s) (sym first)
        (append_assoc s.delivered (message m ∷ []) (L.contents (C.try_recv s.shared.1).1)
          ∙ ap (λ ys. s.delivered ++ message m ∷ ys) rest
          ∙ ap (◌++◌ s.delivered) (sym e))
  line-taken s (terminated id ∷ xs) e =
      let (first, rest) = L.try_recv_item s.shared.1 (terminated id) xs e in
      subst (λ o. line (taken C s (o, (C.try_recv s.shared.1).1)) ≡ line s) (sym first)
        (append_assoc s.delivered (terminated id ∷ []) (L.contents (C.try_recv s.shared.1).1)
          ∙ ap (λ ys. s.delivered ++ terminated id ∷ ys) rest
          ∙ ap (◌++◌ s.delivered) (sym e))

  receive_line : (s : System C) (r : Receiver M) → line (move_receiver C r s) ≡ line s
  unfolding move_receiver
  receive_line s waiting = line-taken s (L.contents s.shared.1) refl
  receive_line s owing = refl
  receive_line s dropped = refl

  drop_line : (s : System C) (r : Receiver M) → line (move_drop C r s) ≡ line s
  unfolding move_drop
  drop_line s waiting = ap (◌++◌ s.delivered) (L.contents-disconnect s.shared.1)
  drop_line s owing = refl
  drop_line s dropped = refl

  move_line :
      (s : System C) (i : ℕ) (o : Option (Phase M))
      → line (move_sender C i o s) ≡ line s ++ sent_at o s.shared.1
  unfolding move_sender
  move_line s i none = sym (append_nil (line s))
  move_line s i (some p) =
      ap (◌++◌ s.delivered) (sender_line p s.shared.0 s.shared.1)
      ∙ sym (append_assoc s.delivered (L.contents s.shared.1) (sent_by p s.shared.1))

  line-step : (m : Move C) (s : System C) → line (step C m s) ≡ line s ++ sends m s
  unfolding step
  line-step (sender i) s = move_line s i (get_elem? s.senders i)
  line-step receive s = receive_line s s.receiver ∙ sym (append_nil (line s))
  line-step drop_receiver s = drop_line s s.receiver ∙ sym (append_nil (line s))

  -- In every run, what has been received and what is still queued are together, in order, what stood
  -- there at the start followed by everything that was sent while the receiver was there, messages
  -- and signals alike, in the order of the sends: nothing is lost, repeated or overtaken.
  pub line-run : (ms : List (Move C)) (s : System C) → line (run C ms s) ≡ line s ++ all_sent ms s
  line-run [] s = sym (append_nil (line s))
  line-run (m ∷ ms) s =
      line-run ms (step C m s)
      ∙ ap (λ xs. xs ++ all_sent ms (step C m s)) (line-step m s)
      ∙ append_assoc (line s) (sends m s) (all_sent ms (step C m s))
