-- ===== src/Channel/Queue.antt =====
-- Test data: a channel that is a list and whether its receiver is gone.
use tellus.Prelude.{
  ◌≡◌, refl, Bool, true, false, Option, none, some, List, [], ◌∷◌, ◌++◌, Result, ok, err,
}
use tellus.Channel.{Channel, IsChannel}

module _ (T : Type 0) where
  abbrev pub Line : Type 0
  Line = List T × Bool

  abbrev pub push : Line → T → Result (Unit {0}) T × Line
  push (xs, true) x = (err x, (xs, true))
  push (xs, false) x = (ok tt, (xs ++ x ∷ [], false))

  abbrev pub pop : Line → Option T × Line
  pop ([], gone) = (none, ([], gone))
  pop (x ∷ xs, gone) = (some x, (xs, gone))

  abbrev pub queue : Channel T
  queue = record {
    Chan = Line;
    send = push;
    try_recv = pop;
    is_disconnected = λ c. c.1;
    drain = λ c. (c.0, ([], c.1));
    disconnect = λ c. (c.0, true);
  }

  pub push_open :
      (c : Line) (x : T)
      → c.1 ≡ false
      → ((push c x).0 ≡ ok tt) × ((push c x).1.0 ≡ c.0 ++ x ∷ []) × ((push c x).1.1 ≡ false)
  push_open (xs, true) x h = absurd (cc h)
  push_open (xs, false) x h = (refl, refl, refl)

  pub push_gone : (c : Line) (x : T) → c.1 ≡ true → push c x ≡ (err x, c)
  push_gone (xs, true) x h = refl
  push_gone (xs, false) x h = absurd (cc h)

  pub pop_empty : (c : Line) → c.0 ≡ [] → pop c ≡ (none, c)
  pop_empty ([], gone) h = refl
  pop_empty (x ∷ xs, gone) h = absurd (cc h)

  pub pop_item :
      (c : Line) (x : T) (xs : List T) → c.0 ≡ x ∷ xs → ((pop c).0 ≡ some x) × ((pop c).1.0 ≡ xs)
  pop_item ([], gone) x xs h = absurd (cc h)
  pop_item (y ∷ ys, gone) x xs h = (cc h, cc h)

  pub pop_gone : (c : Line) → (pop c).1.1 ≡ c.1
  pop_gone ([], gone) = refl
  pop_gone (x ∷ xs, gone) = refl

  abbrev pub queue-IsChannel : IsChannel queue
  queue-IsChannel = record {
    contents = λ c. c.0;
    send_connected = push_open;
    send_disconnected = push_gone;
    try_recv_empty = pop_empty;
    try_recv_item = pop_item;
    drained = λ c. (refl, refl);
    is_disconnected-drain = λ c. refl;
    contents-disconnect = λ c. refl;
    is_disconnected-try_recv = pop_gone;
    is_disconnected-disconnect = λ c. refl;
  }
