-- ===== src/Asking/Settling.antt =====
-- tellus/src/actor_ref.rs, `ask`: where the one reply is, and what is logged, at any point of an ask.
use tellus.Prelude.{
  ◌≡◌, ◌⊎◌, inl, inr, refl, ap, Bool, true, false, List, [], ◌∷◌, ◌++◌, Result, ok, err,
}
use tellus.Backoff.{Duration}
use tellus.Actor.{ActorId}
use tellus.Oneshot.{Oneshot, IsOneshot, pending, ready, closed}
use tellus.Asking.{
  Asker, waiting, at_clock, dropping, resolved, given_up, gives_up, give_up, DeadLetter,
  not_awaited, AskError, no_reply, timeout, ReplyTo, held, replied, dropped, Asking, Move, replies,
  drops_reply_to, polled, send_reply, drop_reply_to, resolve, poll_reply, poll_clock, poll_asker,
  step, run, unless_sent,
}

module _ {R : Type 0} (O : Oneshot R) (L : IsOneshot O) (id : ActorId) (within : Duration) where
  -- What holds of a request that has been sent, by where its `ReplyTo` is and what the asker has.
  -- A reply is with the asker, or on its way, or not with an asker that has a timeout or has given up:
  -- then it is a dead letter, or it was accepted before the receiver was dropped and is lost.
  abbrev pub Settles : ReplyTo R → Asker R → O.Chan → List DeadLetter → Type 0
  Settles held waiting c log = (O.poll c ≡ pending) × (L.has_receiver c ≡ true) × (log ≡ [])
  Settles held at_clock c log = (O.poll c ≡ pending) × (L.has_receiver c ≡ true) × (log ≡ [])
  Settles held (dropping (ok r)) c log = ⊥
  Settles held (dropping (err e)) c log =
      (e ≡ timeout within) × (O.poll c ≡ pending) × (L.has_receiver c ≡ true) × (log ≡ [])
  Settles held (resolved (ok r)) c log = ⊥
  Settles held (resolved (err e)) c log =
      (e ≡ timeout within) × (L.has_receiver c ≡ false) × (log ≡ [])
  Settles held given_up c log = (L.has_receiver c ≡ false) × (log ≡ [])
  Settles (replied r) waiting c log = (O.poll c ≡ ready r) × (log ≡ [])
  Settles (replied r) at_clock c log = (O.poll c ≡ ready r) × (log ≡ [])
  Settles (replied r) (dropping (ok x)) c log = (x ≡ r) × (log ≡ [])
  Settles (replied r) (dropping (err e)) c log = (e ≡ timeout within) × (log ≡ [])
  Settles (replied r) (resolved (ok x)) c log = (x ≡ r) × (log ≡ [])
  Settles (replied r) (resolved (err e)) c log =
      (e ≡ timeout within) × ((log ≡ []) ⊎ (log ≡ not_awaited id ∷ []))
  Settles (replied r) given_up c log = (log ≡ []) ⊎ (log ≡ not_awaited id ∷ [])
  Settles dropped waiting c log = (O.poll c ≡ closed) × (log ≡ [])
  Settles dropped at_clock c log = (O.poll c ≡ closed) × (log ≡ [])
  Settles dropped (dropping (ok r)) c log = ⊥
  Settles dropped (dropping (err e)) c log = ((e ≡ no_reply) ⊎ (e ≡ timeout within)) × (log ≡ [])
  Settles dropped (resolved (ok r)) c log = ⊥
  Settles dropped (resolved (err e)) c log = ((e ≡ no_reply) ⊎ (e ≡ timeout within)) × (log ≡ [])
  Settles dropped given_up c log = log ≡ []

  abbrev pub IsSettling : Asking O id within → Type 0
  IsSettling a = Settles a.responder a.asker a.channel a.log

  -- What is logged of a reply, by where the asker is when it comes.
  abbrev pub late : Asker R → List DeadLetter
  late waiting = []
  late at_clock = []
  late (dropping r) = []
  late (resolved r) = not_awaited id ∷ []
  late given_up = not_awaited id ∷ []

  -- What is logged once the `ReplyTo` has been used: what was logged, if that had happened before.
  abbrev pub log_after : ReplyTo R → Asker R → List DeadLetter → List DeadLetter
  log_after held x log = late x
  log_after (replied y) x log = log
  log_after dropped x log = log

  late_lem :
      (r : R) (x : Asker R) (c : O.Chan) (log : List DeadLetter)
      → Settles held x c log
      → (send_reply O id within r held
          (record { responder = held; channel = c; asker = x; log = log })).log
        ≡ late x
  unfolding send_reply unless_sent
  late_lem r waiting c log (e, there, empty) = rw (L.send_received c r e there).0 empty
  late_lem r at_clock c log (e, there, empty) = rw (L.send_received c r e there).0 empty
  late_lem r (dropping (ok y)) c log h = absurd h
  late_lem r (dropping (err y)) c log (same, e, there, empty) =
      rw (L.send_received c r e there).0 empty
  late_lem r (resolved (ok y)) c log h = absurd h
  late_lem r (resolved (err e)) c log (same, gone, empty) =
      rw (L.send_refused c r gone) (ap (λ xs. xs ++ not_awaited id ∷ []) empty)
  late_lem r given_up c log (gone, empty) =
      rw (L.send_refused c r gone) (ap (λ xs. xs ++ not_awaited id ∷ []) empty)

  pub log-replies :
      (r : R) (a : Asking O id within)
      → IsSettling a
      → (step O id within (replies r) a).log ≡ log_after a.responder a.asker a.log
  unfolding step
  log-replies r a h = go a.responder a.asker a.channel a.log h
    where
      go :
          (t : ReplyTo R) (x : Asker R) (c : O.Chan) (log : List DeadLetter)
          → Settles t x c log
          → (send_reply O id within r t
              (record { responder = t; channel = c; asker = x; log = log })).log
            ≡ log_after t x log
      go held x c log h = late_lem r x c log h
      go (replied y) x c log h = unfold send_reply in refl
      go dropped x c log h = unfold send_reply in refl

  replied-Settles :
      (r : R) (t : ReplyTo R) (x : Asker R) (c : O.Chan) (log : List DeadLetter)
      → Settles t x c log
      → IsSettling
          (send_reply O id within r t (record { responder = t; channel = c; asker = x; log = log }))
  unfolding send_reply unless_sent
  replied-Settles r held waiting c log (e, there, empty) =
      let (sent, shown) = L.send_received c r e there in rw sent (shown, empty)
  replied-Settles r held at_clock c log (e, there, empty) =
      let (sent, shown) = L.send_received c r e there in rw sent (shown, empty)
  replied-Settles r held (dropping (ok y)) c log h = absurd h
  replied-Settles r held (dropping (err y)) c log (same, e, there, empty) =
      rw (L.send_received c r e there).0 (same, empty)
  replied-Settles r held (resolved (ok y)) c log h = absurd h
  replied-Settles r held (resolved (err e)) c log (same, gone, empty) =
      rw (L.send_refused c r gone) (same, inr (ap (λ xs. xs ++ not_awaited id ∷ []) empty))
  replied-Settles r held given_up c log (gone, empty) =
      rw (L.send_refused c r gone) (inr (ap (λ xs. xs ++ not_awaited id ∷ []) empty))
  replied-Settles r (replied y) x c log h = h
  replied-Settles r dropped x c log h = h

  dropped-Settles :
      (t : ReplyTo R) (x : Asker R) (c : O.Chan) (log : List DeadLetter)
      → Settles t x c log
      → IsSettling (
          drop_reply_to O id within t (record { responder = t; channel = c; asker = x; log = log }))
  unfolding drop_reply_to
  dropped-Settles held waiting c log (e, there, empty) = (L.poll-drop_sender c e, empty)
  dropped-Settles held at_clock c log (e, there, empty) = (L.poll-drop_sender c e, empty)
  dropped-Settles held (dropping (ok y)) c log h = h
  dropped-Settles held (dropping (err y)) c log (same, e, there, empty) = (inr same, empty)
  dropped-Settles held (resolved (ok y)) c log h = h
  dropped-Settles held (resolved (err e)) c log (same, gone, empty) = (inr same, empty)
  dropped-Settles held given_up c log (gone, empty) = empty
  dropped-Settles (replied y) x c log h = h
  dropped-Settles dropped x c log h = h

  polled-Settles :
      (t : ReplyTo R) (c : O.Chan) (log : List DeadLetter)
      → Settles t waiting c log
      → IsSettling (
          poll_reply O id within
            (O.poll c)
            (record { responder = t; channel = c; asker = waiting; log = log }))
  unfolding poll_reply
  polled-Settles held c log (e, there, empty) = rw (e, poll_reply) (e, there, empty)
  polled-Settles (replied r) c log (e, empty) = rw e (refl, empty)
  polled-Settles dropped c log (e, empty) = rw e (inl refl, empty)

  clock-Settles :
      (over : Bool) (t : ReplyTo R) (c : O.Chan) (log : List DeadLetter)
      → Settles t at_clock c log
      → IsSettling (
          poll_clock O id within over
            (record { responder = t; channel = c; asker = at_clock; log = log }))
  unfolding poll_clock
  clock-Settles true held c log (e, there, empty) = (refl, e, there, empty)
  clock-Settles true (replied r) c log (e, empty) = (refl, empty)
  clock-Settles true dropped c log (e, empty) = (inr refl, empty)
  clock-Settles false held c log h = h
  clock-Settles false (replied r) c log h = h
  clock-Settles false dropped c log h = h

  resolved-Settles :
      (r : Result R AskError) (t : ReplyTo R) (c : O.Chan) (log : List DeadLetter)
      → Settles t (dropping r) c log
      → IsSettling (
          resolve O id within r
            (record { responder = t; channel = c; asker = dropping r; log = log }))
  unfolding resolve
  resolved-Settles (ok x) held c log h = h
  resolved-Settles (err e) held c log (same, p, there, empty) =
      (same, L.has_receiver-drop_receiver c, empty)
  resolved-Settles (ok x) (replied r) c log h = h
  resolved-Settles (err e) (replied r) c log (same, empty) = (same, inl empty)
  resolved-Settles (ok x) dropped c log h = h
  resolved-Settles (err e) dropped c log h = h

  asker-Settles :
      (over : Bool) (t : ReplyTo R) (x : Asker R) (c : O.Chan) (log : List DeadLetter)
      → Settles t x c log
      → IsSettling (
          poll_asker O id within x over
            (record { responder = t; channel = c; asker = x; log = log }))
  unfolding poll_asker
  asker-Settles over t waiting c log h = polled-Settles t c log h
  asker-Settles over t at_clock c log h = clock-Settles over t c log h
  asker-Settles over t (dropping r) c log h = resolved-Settles r t c log h
  asker-Settles over t (resolved r) c log h = h
  asker-Settles over t given_up c log h = h

  given_up-Settles :
      (t : ReplyTo R) (x : Asker R) (c : O.Chan) (log : List DeadLetter)
      → Settles t x c log
      → IsSettling
          (give_up O id within x (record { responder = t; channel = c; asker = x; log = log }))
  unfolding give_up
  given_up-Settles held waiting c log (e, there, empty) = (L.has_receiver-drop_receiver c, empty)
  given_up-Settles (replied r) waiting c log (e, empty) = inl empty
  given_up-Settles dropped waiting c log (e, empty) = empty
  given_up-Settles t at_clock c log h = h
  given_up-Settles t (dropping r) c log h = h
  given_up-Settles t (resolved r) c log h = h
  given_up-Settles t given_up c log h = h

  step-IsSettling :
      (m : Move O id within) (a : Asking O id within)
      → IsSettling a
      → IsSettling (step O id within m a)
  unfolding step
  step-IsSettling (replies r) a h = replied-Settles r a.responder a.asker a.channel a.log h
  step-IsSettling drops_reply_to a h = dropped-Settles a.responder a.asker a.channel a.log h
  step-IsSettling (polled over) a h = asker-Settles over a.responder a.asker a.channel a.log h
  step-IsSettling gives_up a h = given_up-Settles a.responder a.asker a.channel a.log h

  pub run-IsSettling :
      (ms : List (Move O id within)) (a : Asking O id within)
      → IsSettling a
      → IsSettling (run O id within ms a)
  run-IsSettling [] a h = h
  run-IsSettling (m ∷ ms) a h = run-IsSettling ms (step O id within m a) (step-IsSettling m a h)
