-- ===== src/Task/Sending.antt =====
-- tellus/src/mailbox.rs, `try_send_message`, in a task: a message that arrives leaves the signals as
-- they are.
use tellus.Prelude.{◌≡◌, refl, ap, ◌∙◌, false, [], ◌∷◌, Result, ok, err, arith}
use tellus.Actor.{ActorId, Incoming, message}
use tellus.Channel.{Channel, IsChannel}
use tellus.Quota.{
  Quota, Full, Reservation, Shared, reserve, sent, counted_reply, send_reserved, try_send_counted,
}
use tellus.Mailbox.{try_send_message}
use tellus.Watching.{Watching}
use tellus.Watching.Delivery.{signal_count, signal_count-append, IsWatching}
use tellus.Watching.Tidy.{IsTidy}

module _ {M Sink : Type 0} (C : Channel (Incoming M)) (L : IsChannel C) (self_id : ActorId)
    (own_sink : Sink) where
  record IsQuiet (c : C.Chan) (after : C.Chan) : Type 0 where
    connected : C.is_disconnected after ≡ false
    counted : (j : ActorId) → signal_count j (L.contents after) ≡ signal_count j (L.contents c)

  send_reserved-IsQuiet :
      (m : M) (c : C.Chan) (r : Result Reservation Full × Quota)
      → C.is_disconnected c ≡ false
      → IsQuiet c (send_reserved C (message m) c r).1.1
  unfolding send_reserved sent counted_reply
  send_reserved-IsQuiet m c (err e, q) there =
      rw there (record { connected = there; counted = λ j. refl })
  send_reserved-IsQuiet m c (ok r, q) there =
      let (accepted, last, still) = L.send_connected c (message m) there in
      rw accepted (record {
        connected = still;
        counted = λ j.
            ap (signal_count j) last
            ∙ signal_count-append j (L.contents c) (message m ∷ [])
            ∙ omega arith;
      })

  try_send_message-IsQuiet :
      (m : M) (s : Shared C)
      → C.is_disconnected s.1 ≡ false
      → IsQuiet s.1 (try_send_message C s m).1.1
  unfolding try_send_message try_send_counted
  try_send_message-IsQuiet m (q, c) there = send_reserved-IsQuiet m c (reserve q) there

  abbrev pub told : M → Watching C self_id own_sink → Watching C self_id own_sink
  told m s = record s { mailbox = (try_send_message C s.mailbox m).1 }

  pub told-IsWatching :
      (m : M) (s : Watching C self_id own_sink)
      → IsWatching C L self_id own_sink s
      → IsWatching C L self_id own_sink (told m s)
  told-IsWatching m s v =
      let quiet = try_send_message-IsQuiet m s.mailbox v.connected in
      record {
        connected = quiet.connected;
        sound = v.sound;
        covered = λ j h. omega (arith, v.covered j h, quiet.counted j);
      }

  pub told-IsTidy :
      (m : M) (s : Watching C self_id own_sink)
      → C.is_disconnected s.mailbox.1 ≡ false
      → IsTidy C L self_id own_sink s
      → IsTidy C L self_id own_sink (told m s)
  told-IsTidy m s there v =
      let quiet = try_send_message-IsQuiet m s.mailbox there in
      record { noted = v.noted; closed = λ j h. v.closed j (omega (arith, h, quiet.counted j)) }
