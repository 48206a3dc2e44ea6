-- ===== src/Mailbox/Tests.antt =====
-- tellus/src/mailbox.rs and tellus/src/quota.rs: the theorems at test data.
use tellus.Prelude.{ℕ, ◌+◌, ◌≡◌, ◌≤◌, refl, false, [], ◌∷◌, ◌++◌, List, true, arith}
use tellus.Actor.{ActorId, Incoming, message, terminated}
use tellus.Config.{MailboxCapacity}
use tellus.Channel.Queue.{queue, queue-IsChannel}
use tellus.Quota.{bounded}
use tellus.Mailbox.Registry.{Watcher}
use tellus.Mailbox.Registry.Closing.{Call, adds, removes}
use tellus.Mailbox.Race.{
  Sending, counted, forced, uncounted, starting, finished, releasing, owing, System, Move, sender,
  receive, drop_receiver, run,
}
use tellus.Mailbox.Race.Alone.{try_send, next}
use tellus.Mailbox.Race.Described.{Described, alone}
use tellus.Mailbox.Race.Counting.{messages}
use tellus.Mailbox.Race.Capacity.{IsAccounted, run-IsAccounted}
use tellus.Mailbox.Race.Order.{line, all_sent, line-run}
use tellus.Mailbox.Race.Fresh.{fresh, messages_bounded}

-- Two sends race for one slot, a forced send and a signal come on top, and the receiver takes one.
abbrev sends : List (Sending ℕ)
sends = counted 1 ∷ counted 2 ∷ forced 3 ∷ uncounted 7 ∷ []

abbrev moves : List (Move (queue (Incoming ℕ)))
moves =
    sender 0
    ∷ sender 1
    ∷ sender 2
    ∷ sender 2
    ∷ sender 0
    ∷ receive
    ∷ sender 1
    ∷ sender 3
    ∷ sender 3
    ∷ receive
    ∷ drop_receiver
    ∷ []

abbrev start : System (queue (Incoming ℕ))
start =
    fresh (queue (Incoming ℕ)) (queue-IsChannel (Incoming ℕ)) (MailboxCapacity.bounded 1)
      ([], false) sends

-- The receiver is gone, and the reservation is given back.
alone_example :
    let c = queue (Incoming ℕ) in
    let r = try_send c (forced 4) (bounded 1 1, ([], true)) in
    (next c (next c (next c (starting (forced 4), (bounded 1 1, ([], true)))))
      ≡ (finished r.0, r.1))
    × Described c (queue-IsChannel (Incoming ℕ)) (forced 4) (bounded 1 1) ([], true) r
alone_example =
    alone (queue (Incoming ℕ)) (queue-IsChannel (Incoming ℕ)) (forced 4) (bounded 1 1) ([], true)
      (omega arith)

messages_bounded_example : messages ((run (queue (Incoming ℕ)) moves start).shared.1.0) ≤ 1 + 1
messages_bounded_example =
    messages_bounded (queue (Incoming ℕ)) (queue-IsChannel (Incoming ℕ)) 1 ([], false) sends moves
      refl (omega arith)

line-run_example :
    line (queue (Incoming ℕ)) (queue-IsChannel (Incoming ℕ)) (run (queue (Incoming ℕ)) moves start)
    ≡ line (queue (Incoming ℕ)) (queue-IsChannel (Incoming ℕ)) start
      ++ all_sent (queue (Incoming ℕ)) (queue-IsChannel (Incoming ℕ)) moves start
line-run_example = line-run (queue (Incoming ℕ)) (queue-IsChannel (Incoming ℕ)) moves start

-- One message is queued, the receiver owes a release and a sender gives a reservation back.
abbrev busy : System (queue (Incoming ℕ))
busy = record {
  shared = (bounded 3 3, (message 5 ∷ terminated 2 ∷ [], false));
  senders = releasing ∷ starting (counted 6) ∷ [];
  receiver = owing;
  delivered = message 4 ∷ [];
}

busy-IsAccounted : IsAccounted (queue (Incoming ℕ)) (queue-IsChannel (Incoming ℕ)) 3 0 busy
busy-IsAccounted = record {
  count = 3;
  quota_is = refl;
  accounts = refl;
  room = omega arith;
  forced_le = omega arith;
  within = omega arith;
}

run-IsAccounted_example :
    IsAccounted
      (queue (Incoming ℕ))
      (queue-IsChannel (Incoming ℕ))
      3
      0
      (run (queue (Incoming ℕ)) (receive ∷ sender 0 ∷ sender 1 ∷ []) busy)
run-IsAccounted_example =
    run-IsAccounted (queue (Incoming ℕ)) (queue-IsChannel (Incoming ℕ)) 3 0
      (receive ∷ sender 0 ∷ sender 1 ∷ []) busy busy-IsAccounted

abbrev watcher : ActorId → Watcher ℕ
watcher id = record { watcher_id = id; terminated_sink = id + 100 }

abbrev earlier : List (Call ℕ)
earlier = adds (watcher 1) ∷ adds (watcher 2) ∷ adds (watcher 1) ∷ removes 2 ∷ []
