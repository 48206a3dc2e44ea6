-- ===== src/Mailbox/Race/Capacity.antt =====
-- tellus/src/quota.rs and tellus/src/mailbox.rs: the capacity of a mailbox, in every run of its senders
-- and its receiver.
use mathlib.Core.Path.{subst}
use tellus.Prelude.{
  ℕ, ◌+◌, ◌-◌, ◌≤◌, ◌<◌, ◌≡◌, refl, ap, sym, ◌∙◌, inl, inr, Option-cases, some, List, [], ◌∷◌,
  get_elem?, arith, usize_mod,
}
use tellus.Actor.{Incoming, message, terminated}
use tellus.Channel.{Channel, IsChannel}
use tellus.Quota.{bounded, unreserve}
use tellus.Mailbox.Race.{
  Phase, Receiver, waiting, owing, dropped, sender_step, System, Move, sender, receive,
  drop_receiver, move_sender, taken, move_receiver, move_drop, step, run,
}
use tellus.Mailbox.Race.Counting.{
  messages, holds, asks, forces, owed, total, total_ge, total-set, Stepped, sender_step-Stepped,
}

module _ {M : Type 0} (C : Channel (Incoming M)) (L : IsChannel C) (capacity extra : ℕ) where
  -- The count is what is queued, what senders hold and what the receiver still has to give back;
  -- `extra` bounds the forced sends.
  pub record IsAccounted (s : System C) : Type 0 where
    pub count : ℕ
    pub quota_is : s.shared.0 ≡ bounded capacity count
    pub accounts :
        count ≡ messages (L.contents s.shared.1) + total holds s.senders + owed s.receiver
    pub room : count + total asks s.senders < usize_mod
    pub forced_le : total forces s.senders ≤ extra
    pub within : count + total forces s.senders ≤ capacity + extra

  sender-IsAccounted :
      (s : System C) (i : ℕ) (p : Phase M)
      → IsAccounted s
      → get_elem? s.senders i ≡ some p
      → IsAccounted (move_sender C i (some p) s)
  unfolding move_sender
  sender-IsAccounted s i p v e =
      let out = sender_step C p s.shared in
      let t : Stepped C L capacity v.count s.shared.1 p out =
        subst (λ q. Stepped C L capacity v.count s.shared.1 p (sender_step C p (q, s.shared.1)))
          (sym v.quota_is)
          (sender_step-Stepped C L capacity v.count s.shared.1 p
            (omega (arith, v.accounts, total_ge holds s.senders i p e))
            (omega (arith, v.room, total_ge asks s.senders i p e))) in
      record {
        count = t.count;
        quota_is = t.quota_is;
        accounts = omega (arith, v.accounts, t.balance, total-set holds s.senders i p out.0 e);
        room = omega (arith, v.room, t.asked, total-set asks s.senders i p out.0 e);
        forced_le = omega (arith, v.forced_le, t.forces_le, total-set forces s.senders i p out.0 e);
        within = elim t.grown [
          | inl h ↦ omega (arith, h, v.within, total-set forces s.senders i p out.0 e)
          | inr h ↦
              omega (arith, h, v.forced_le, t.forces_le, total-set forces s.senders i p out.0 e)
        ];
      }

  -- A receiver that has taken what the channel gave, if it gave anything.
  taken-IsAccounted :
      (s : System C) (items : List (Incoming M))
      → IsAccounted s
      → s.receiver ≡ waiting
      → L.contents s.shared.1 ≡ items
      → IsAccounted (taken C s (C.try_recv s.shared.1))
  unfolding taken
  taken-IsAccounted s [] v idle e =
      subst (λ r. IsAccounted (taken C s r)) (sym (L.try_recv_empty s.shared.1 e))
        (record {
          count = v.count;
          quota_is = v.quota_is;
          accounts = v.accounts;
          room = v.room;
          forced_le = v.forced_le;
          within = v.within;
        })
  taken-IsAccounted s (message m ∷ xs) v idle e =
      let c' = (C.try_recv s.shared.1).1 in
      let (first, rest) = L.try_recv_item s.shared.1 (message m) xs e in
      subst (λ o. IsAccounted (taken C s (o, c'))) (sym first)
        (record {
          count = v.count;
          quota_is = v.quota_is;
          accounts = omega (arith, v.accounts, ap messages e, ap messages rest, ap owed idle);
          room = v.room;
          forced_le = v.forced_le;
          within = v.within;
        })
  taken-IsAccounted s (terminated id ∷ xs) v idle e =
      let c' = (C.try_recv s.shared.1).1 in
      let (first, rest) = L.try_recv_item s.shared.1 (terminated id) xs e in
      subst (λ o. IsAccounted (taken C s (o, c'))) (sym first)
        (record {
          count = v.count;
          quota_is = v.quota_is;
          accounts = omega (arith, v.accounts, ap messages e, ap messages rest);
          room = v.room;
          forced_le = v.forced_le;
          within = v.within;
        })

  receiver-IsAccounted :
      (s : System C) (r : Receiver M)
      → IsAccounted s
      → s.receiver ≡ r
      → IsAccounted (move_receiver C r s)
  unfolding move_receiver unreserve
  receiver-IsAccounted s waiting v e = taken-IsAccounted s (L.contents s.shared.1) v e refl
  receiver-IsAccounted s owing v e = record {
    count = v.count - 1;
    quota_is =
        ap unreserve v.quota_is
        ∙ ap (bounded capacity) (omega (arith, v.accounts, ap owed e, v.room));
    accounts = omega (arith, v.accounts, ap owed e);
    room = omega (arith, v.room);
    forced_le = v.forced_le;
    within = omega (arith, v.within);
  }
  receiver-IsAccounted s dropped v e = v

  drop-IsAccounted :
      (s : System C) (r : Receiver M)
      → IsAccounted s
      → s.receiver ≡ r
      → IsAccounted (move_drop C r s)
  unfolding move_drop
  drop-IsAccounted s waiting v e = record {
    count = v.count;
    quota_is = v.quota_is;
    accounts = omega (arith, v.accounts, ap messages (L.contents-disconnect s.shared.1), ap owed e);
    room = v.room;
    forced_le = v.forced_le;
    within = v.within;
  }
  drop-IsAccounted s owing v e = v
  drop-IsAccounted s dropped v e = v

  step-IsAccounted : (m : Move C) (s : System C) → IsAccounted s → IsAccounted (step C m s)
  unfolding step move_sender
  step-IsAccounted (sender i) s v = elim (Option-cases (get_elem? s.senders i)) [
    | inl e ↦ subst (λ o. IsAccounted (move_sender C i o s)) (sym e) v
    | inr (p, e) ↦
        subst (λ o. IsAccounted (move_sender C i o s)) (sym e) (sender-IsAccounted s i p v e)
  ]
  step-IsAccounted receive s v = receiver-IsAccounted s s.receiver v refl
  step-IsAccounted drop_receiver s v = drop-IsAccounted s s.receiver v refl

  -- In every run of counted, forced and uncounted sends, receives and the drop of the receiver, in
  -- any order, the shared count stays the number of queued messages, of reservations that senders
  -- hold and of the one that the receiver owes; it never wraps around, and it is never above the
  -- capacity by more than the number of forced sends.
  pub run-IsAccounted :
      (ms : List (Move C)) (s : System C) → IsAccounted s → IsAccounted (run C ms s)
  run-IsAccounted [] s v = v
  run-IsAccounted (m ∷ ms) s v = run-IsAccounted ms (step C m s) (step-IsAccounted m s v)
