-- ===== src/Channel.antt =====
-- The channel of the `flume` crate, as the code uses one: an unbounded queue that many senders share
-- and one receiver empties. Its calls are atomic.
pub mod Queue
use tellus.Prelude.{
  ◌≡◌, Bool, true, false, Option, none, some, List, [], ◌∷◌, ◌++◌, Result, ok, err,
}

pub record Channel (T : Type 0) : Type 1 where
  pub Chan : Type 0
  -- A failed send gives the item back.
  pub send : Chan → T → Result (Unit {0}) T × Chan
  pub try_recv : Chan → Option T × Chan
  pub is_disconnected : Chan → Bool
  -- The receiver takes all that is queued at once.
  pub drain : Chan → List T × Chan
  -- The receiver is dropped.
  pub disconnect : Chan → Chan

-- What the documentation of the crate says: items come out in the order in which they went in, and a
-- send fails exactly where the receiver is gone.
pub record IsChannel {T : Type 0} (C : Channel T) : Type 0 where
  pub contents : C.Chan → List T
  pub send_connected :
      (c : C.Chan) (x : T)
      → C.is_disconnected c ≡ false
      → ((C.send c x).0 ≡ ok tt)
        × (contents (C.send c x).1 ≡ contents c ++ x ∷ [])
        × (C.is_disconnected (C.send c x).1 ≡ false)
  pub send_disconnected :
      (c : C.Chan) (x : T) → C.is_disconnected c ≡ true → C.send c x ≡ (err x, c)
  pub try_recv_empty : (c : C.Chan) → contents c ≡ [] → C.try_recv c ≡ (none, c)
  pub try_recv_item :
      (c : C.Chan) (x : T) (xs : List T)
      → contents c ≡ x ∷ xs
      → ((C.try_recv c).0 ≡ some x) × (contents (C.try_recv c).1 ≡ xs)
  pub drained : (c : C.Chan) → ((C.drain c).0 ≡ contents c) × (contents (C.drain c).1 ≡ [])
  pub is_disconnected-drain : (c : C.Chan) → C.is_disconnected (C.drain c).1 ≡ C.is_disconnected c
  pub contents-disconnect : (c : C.Chan) → contents (C.disconnect c) ≡ contents c
  pub is_disconnected-try_recv :
      (c : C.Chan) → C.is_disconnected (C.try_recv c).1 ≡ C.is_disconnected c
  pub is_disconnected-disconnect : (c : C.Chan) → C.is_disconnected (C.disconnect c) ≡ true
