-- ===== src/Oneshot/Slot.antt =====
-- A channel as the documentation describes it: a slot, and whether the receiver is there.
use tellus.Prelude.{refl, Bool, true, false, Result, ok, err}
use tellus.Oneshot.{Polled, pending, ready, closed, Oneshot, IsOneshot}

module _ (T : Type 0) where
  abbrev put : Bool → T → Result (Unit {0}) T × (Polled T × Bool)
  put true x = (ok tt, (ready x, true))
  put false x = (err x, (closed, false))

  abbrev close : Polled T → Polled T
  close pending = closed
  close (ready x) = ready x
  close closed = closed

  abbrev pub slot : Oneshot T
  slot = record {
    Chan = Polled T × Bool;
    channel = (pending, true);
    send = λ c x. put c.1 x;
    drop_sender = λ c. (close c.0, c.1);
    drop_receiver = λ c. (c.0, false);
    poll = λ c. c.0;
  }

  pub slot-IsOneshot : IsOneshot slot
  slot-IsOneshot = record {
    has_receiver = λ c. c.1;
    new_channel = (refl, refl);
    send_received = λ c x e h. rw h (refl, refl);
    send_refused = λ c x h. rw h refl;
    poll-drop_sender = λ c e. rw e refl;
    has_receiver-drop_receiver = λ c. refl;
  }
