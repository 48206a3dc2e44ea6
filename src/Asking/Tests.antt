-- ===== src/Asking/Tests.antt =====
-- tellus/src/actor_ref.rs, `tell` and `ask`: the theorems at test data.
use tellus.Prelude.{ℕ, false, true, List, [], ◌∷◌, arith}
use tellus.Actor.{Incoming, message}
use tellus.Channel.Queue.{queue, queue-IsChannel}
use tellus.Quota.{bounded}
use tellus.Oneshot.Slot.{slot}
use tellus.Asking.{Move, replies, drops_reply_to, polled, tell}
use tellus.Asking.Telling.{Told, tell-Told}

-- The time is over before the reply is there, which comes while the asker looks at the clock.
abbrev before : List (Move (slot ℕ) 3 50)
before = polled false ∷ polled false ∷ polled true ∷ []

abbrev later : List (Move (slot ℕ) 3 50)
later = replies 8 ∷ polled true ∷ drops_reply_to ∷ polled true ∷ polled true ∷ []

tell-Told_example :
    Told
      (queue (Incoming ℕ))
      (queue-IsChannel (Incoming ℕ))
      3
      1
      1
      9
      (message 4 ∷ [], false)
      []
      (tell (queue (Incoming ℕ)) 3 9 ((bounded 1 1, (message 4 ∷ [], false)), []))
tell-Told_example =
    tell-Told (queue (Incoming ℕ)) (queue-IsChannel (Incoming ℕ)) 3 1 1 9 (message 4 ∷ [], false) []
      (omega arith)
