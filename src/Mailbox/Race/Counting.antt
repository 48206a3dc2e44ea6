-- ===== src/Mailbox/Race/Counting.antt =====
-- tellus/src/quota.rs and tellus/src/mailbox.rs: what the shared count counts, whatever the senders
-- and the receiver do and in whatever order.
use mathlib.Core.Path.{subst}
use tellus.Prelude.{
  ℕ, zero, suc, ◌+◌, ◌-◌, ◌≤◌, ◌<◌, ◌≡◌, refl, ap, sym, ◌⊎◌, inl, inr, true, false, Bool-cases,
  Option, some, List, [], ◌∷◌, ◌++◌, get_elem?, set, ltb, ltb→lt, arith, usize_mod,
}
use tellus.Actor.{Incoming, message, terminated}
use tellus.Channel.{Channel, IsChannel}
use tellus.Quota.{bounded, Shared, unreserve, reserve, reserve_forced}
use tellus.Mailbox.Race.{
  Sending, counted, forced, uncounted, item, Phase, starting, sending, releasing, probing, finished,
  Receiver, waiting, owing, dropped, after_reserve, failed_send, after_send, sender_step,
}

-- The messages, which are what the quota counts.
abbrev pub messages : {M : Type 0} → List (Incoming M) → ℕ
messages [] = 0
messages (message m ∷ xs) = suc (messages xs)
messages (terminated id ∷ xs) = messages xs

module _ {M : Type 0} where
  -- The reservations that a sender holds.
  abbrev pub holds : Phase M → ℕ
  holds (starting k) = 0
  holds (sending (counted m)) = 1
  holds (sending (forced m)) = 1
  holds (sending (uncounted id)) = 0
  holds releasing = 1
  holds probing = 0
  holds (finished r) = 0

  -- The reservations that it may still ask for, and those of them that it forces.
  abbrev pub asks : Phase M → ℕ
  asks (starting (counted m)) = 1
  asks (starting (forced m)) = 1
  asks (starting (uncounted id)) = 0
  asks (sending k) = 0
  asks releasing = 0
  asks probing = 0
  asks (finished r) = 0

  abbrev pub forces : Phase M → ℕ
  forces (starting (counted m)) = 0
  forces (starting (forced m)) = 1
  forces (starting (uncounted id)) = 0
  forces (sending k) = 0
  forces releasing = 0
  forces probing = 0
  forces (finished r) = 0

  abbrev pub owed : Receiver M → ℕ
  owed waiting = 0
  owed owing = 1
  owed dropped = 0

  abbrev pub total : (Phase M → ℕ) → List (Phase M) → ℕ
  total f [] = 0
  total f (p ∷ ps) = f p + total f ps

  some-injective : {a b : Phase M} → ◌≡◌ {A = Option (Phase M)} (some a) (some b) → a ≡ b
  some-injective e = cc

  pub total-set :
      (f : Phase M → ℕ) (ps : List (Phase M)) (i : ℕ) (p p' : Phase M)
      → get_elem? ps i ≡ some p
      → total f (set ps i p') + f p ≡ total f ps + f p'
  total-set f [] i p p' e = absurd (cc e)
  total-set f (q ∷ ps) zero p p' e = omega (arith, ap f (some-injective e))
  total-set f (q ∷ ps) (suc i) p p' e = omega (arith, total-set f ps i p p' e)

  pub total_ge :
      (f : Phase M → ℕ) (ps : List (Phase M)) (i : ℕ) (p : Phase M)
      → get_elem? ps i ≡ some p
      → f p ≤ total f ps
  total_ge f [] i p e = absurd (cc e)
  total_ge f (q ∷ ps) zero p e = omega (arith, ap f (some-injective e))
  total_ge f (q ∷ ps) (suc i) p e = omega (arith, total_ge f ps i p e)

  pub messages-append :
      (xs ys : List (Incoming M)) → messages (xs ++ ys) ≡ messages xs + messages ys
  messages-append [] ys = omega arith
  messages-append (message m ∷ xs) ys = omega (arith, messages-append xs ys)
  messages-append (terminated id ∷ xs) ys = messages-append xs ys

module _ {M : Type 0} (C : Channel (Incoming M)) (L : IsChannel C) where
  abbrev pub queued : Shared C → ℕ
  queued s = messages (L.contents s.1)

  -- What one step of a sender does to the count, next to what is queued and what it holds.
  pub record Stepped (k n : ℕ) (c : C.Chan) (p : Phase M) (out : Phase M × Shared C) : Type 0 where
    pub count : ℕ
    pub quota_is : out.1.0 ≡ bounded k count
    pub balance :
        count + queued (bounded k n, c) + holds p ≡ n + messages (L.contents out.1.1) + holds out.0
    pub asked : count + asks out.0 ≤ n + asks p
    pub forces_le : forces out.0 ≤ forces p
    pub grown : (count + forces out.0 ≤ n + forces p) ⊎ (count ≤ k)

  -- A send that fails holds on to what it holds.
  failed_send_lem :
      (x : Sending M)
      → (holds (failed_send C x) ≡ holds (sending x))
        × (asks (failed_send C x) ≡ 0)
        × (forces (failed_send C x) ≡ 0)
  unfolding failed_send
  failed_send_lem (counted m) = (refl, refl, refl)
  failed_send_lem (forced m) = (refl, refl, refl)
  failed_send_lem (uncounted id) = (refl, refl, refl)

  holds-sending : (x : Sending M) → holds (sending x) ≡ messages (item x ∷ [])
  holds-sending (counted m) = refl
  holds-sending (forced m) = refl
  holds-sending (uncounted id) = refl

  send-Stepped_gone :
      (k n : ℕ) (c : C.Chan) (x : Sending M)
      → C.is_disconnected c ≡ true
      → Stepped k n c (sending x) (after_send C x (bounded k n) (C.send c (item x)))
  unfolding after_send
  send-Stepped_gone k n c x h = rw (L.send_disconnected c (item x) h) (record {
    count = n;
    quota_is = refl;
    balance = omega (arith, (failed_send_lem x).0);
    asked = omega (arith, (failed_send_lem x).1);
    forces_le = omega (arith, (failed_send_lem x).2);
    grown = inl (omega (arith, (failed_send_lem x).2));
  })

  send-Stepped_ok :
      (k n : ℕ) (c : C.Chan) (x : Sending M)
      → C.is_disconnected c ≡ false
      → Stepped k n c (sending x) (after_send C x (bounded k n) (C.send c (item x)))
  unfolding after_send
  send-Stepped_ok k n c x h =
      let c' = (C.send c (item x)).1 in
      let (accepted, last, _) = L.send_connected c (item x) h in
      subst (Stepped k n c (sending x))
        (sym (ap (λ r. after_send C x (bounded k n) (r, c')) accepted))
        (record {
          count = n;
          quota_is = refl;
          balance = omega (
            arith,
            ap messages last,
            messages-append (L.contents c) (item x ∷ []),
            holds-sending x,
          );
          asked = omega arith;
          forces_le = omega arith;
          grown = inl (omega arith);
        })

  pub sender_step-Stepped :
      (k n : ℕ) (c : C.Chan) (p : Phase M)
      → holds p ≤ n
      → n + asks p < usize_mod
      → Stepped k n c p (sender_step C p (bounded k n, c))
  unfolding sender_step reserve reserve_forced unreserve after_reserve
  sender_step-Stepped k n c (starting (counted m)) le room = elim (Bool-cases (ltb n k)) [
    | inl e ↦ rw e (record {
      count = n + 1;
      quota_is = refl;
      balance = omega arith;
      asked = omega arith;
      forces_le = omega arith;
      grown = inr (omega (arith, ltb→lt n k e));
    })
    | inr e ↦ rw e (record {
      count = n;
      quota_is = refl;
      balance = omega arith;
      asked = omega arith;
      forces_le = omega arith;
      grown = inl (omega arith);
    })
  ]
  sender_step-Stepped k n c (starting (forced m)) le room = record {
    count = n + 1;
    quota_is = ap (bounded k) (omega arith);
    balance = omega arith;
    asked = omega arith;
    forces_le = omega arith;
    grown = inl (omega arith);
  }
  sender_step-Stepped k n c (starting (uncounted id)) le room = record {
    count = n;
    quota_is = refl;
    balance = omega arith;
    asked = omega arith;
    forces_le = omega arith;
    grown = inl (omega arith);
  }
  sender_step-Stepped k n c (sending x) le room = elim (Bool-cases (C.is_disconnected c)) [
    | inl e ↦ send-Stepped_gone k n c x e
    | inr e ↦ send-Stepped_ok k n c x e
  ]
  sender_step-Stepped k n c releasing le room = record {
    count = n - 1;
    quota_is = ap (bounded k) (omega arith);
    balance = omega arith;
    asked = omega arith;
    forces_le = omega arith;
    grown = inl (omega arith);
  }
  sender_step-Stepped k n c probing le room = elim (Bool-cases (C.is_disconnected c)) [
    | inl e ↦ rw e (record {
      count = n;
      quota_is = refl;
      balance = omega arith;
      asked = omega arith;
      forces_le = omega arith;
      grown = inl (omega arith);
    })
    | inr e ↦ rw e (record {
      count = n;
      quota_is = refl;
      balance = omega arith;
      asked = omega arith;
      forces_le = omega arith;
      grown = inl (omega arith);
    })
  ]
  sender_step-Stepped k n c (finished r) le room = record {
    count = n;
    quota_is = refl;
    balance = refl;
    asked = omega arith;
    forces_le = omega arith;
    grown = inl (omega arith);
  }
