-- ===== src/Oneshot.antt =====
-- The one-shot channel of the `tokio` crate, as the code uses one: a value is sent at most once, from
-- one sender to one receiver.
pub mod Slot
use tellus.Prelude.{◌≡◌, Bool, true, false, Result, ok, err}

-- What a receiver that is polled shows.
pub data Polled (T : Type 0) : Type 0 where
  pending : Polled T
  ready : T → Polled T
  closed : Polled T

pub record Oneshot (T : Type 0) : Type 1 where
  pub Chan : Type 0
  pub channel : Chan
  -- A send that fails gives the value back. The sender is used up.
  pub send : Chan → T → Result (Unit {0}) T × Chan
  pub drop_sender : Chan → Chan
  pub drop_receiver : Chan → Chan
  pub poll : Chan → Polled T

-- What the documentation of the crate says: a send succeeds exactly while the receiver is there, which
-- then gets the value; and the receiver learns of a sender that is dropped without a value.
pub record IsOneshot {T : Type 0} (O : Oneshot T) : Type 0 where
  pub has_receiver : O.Chan → Bool
  pub new_channel : (O.poll O.channel ≡ pending) × (has_receiver O.channel ≡ true)
  pub send_received :
      (c : O.Chan) (x : T)
      → O.poll c ≡ pending
      → has_receiver c ≡ true
      → ((O.send c x).0 ≡ ok tt) × (O.poll (O.send c x).1 ≡ ready x)
  pub send_refused : (c : O.Chan) (x : T) → has_receiver c ≡ false → (O.send c x).0 ≡ err x
  pub poll-drop_sender : (c : O.Chan) → O.poll c ≡ pending → O.poll (O.drop_sender c) ≡ closed
  pub has_receiver-drop_receiver : (c : O.Chan) → has_receiver (O.drop_receiver c) ≡ false
