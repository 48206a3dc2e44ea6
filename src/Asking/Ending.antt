-- ===== src/Asking/Ending.antt =====
-- tellus/src/actor_ref.rs, `ask`: the asker, once the time is over.
use tellus.Prelude.{ℕ, ◌+◌, ◌-◌, ◌≤◌, ◌≡◌, refl, ap, ◌∙◌, Bool, true, false, List, [], ◌∷◌, arith}
use tellus.Backoff.{Duration}
use tellus.Actor.{ActorId}
use tellus.Oneshot.{Oneshot, Polled, pending, ready, closed}
use tellus.Asking.{
  Asker, waiting, at_clock, dropping, resolved, given_up, gives_up, give_up, ReplyTo, held, replied,
  dropped, Asking, Move, replies, drops_reply_to, polled, send_reply, drop_reply_to, resolve,
  poll_reply, poll_clock, poll_asker, step, run,
}

-- How many steps are left of a poll that starts or goes on once the time is over.
abbrev pub steps_left : {R : Type 0} → Asker R → ℕ
steps_left waiting = 3
steps_left at_clock = 2
steps_left (dropping r) = 1
steps_left (resolved r) = 0
steps_left given_up = 0

pub steps_left-le : {R : Type 0} (x : Asker R) → steps_left x ≤ 3
steps_left-le waiting = omega arith
steps_left-le at_clock = omega arith
steps_left-le (dropping r) = omega arith
steps_left-le (resolved r) = omega arith
steps_left-le given_up = omega arith

module _ {R : Type 0} (O : Oneshot R) (id : ActorId) (within : Duration) where
  -- Moves that come once the time is over, and how many of them are the asker's.
  abbrev pub TimeIsOver : List (Move O id within) → Type 0
  TimeIsOver [] = Unit
  TimeIsOver (replies r ∷ ms) = TimeIsOver ms
  TimeIsOver (drops_reply_to ∷ ms) = TimeIsOver ms
  TimeIsOver (polled over ∷ ms) = (over ≡ true) × TimeIsOver ms
  TimeIsOver (gives_up ∷ ms) = TimeIsOver ms

  abbrev pub asker_steps : List (Move O id within) → ℕ
  asker_steps [] = 0
  asker_steps (replies r ∷ ms) = asker_steps ms
  asker_steps (drops_reply_to ∷ ms) = asker_steps ms
  asker_steps (polled over ∷ ms) = 1 + asker_steps ms
  asker_steps (gives_up ∷ ms) = asker_steps ms

  asker-send_reply :
      (r : R) (t : ReplyTo R) (a : Asking O id within)
      → (send_reply O id within r t a).asker ≡ a.asker
  unfolding send_reply
  asker-send_reply r held a = refl
  asker-send_reply r (replied y) a = refl
  asker-send_reply r dropped a = refl

  asker-drop_reply_to :
      (t : ReplyTo R) (a : Asking O id within) → (drop_reply_to O id within t a).asker ≡ a.asker
  unfolding drop_reply_to
  asker-drop_reply_to held a = refl
  asker-drop_reply_to (replied y) a = refl
  asker-drop_reply_to dropped a = refl

  steps_left-poll_reply :
      (p : Polled R) (a : Asking O id within) → steps_left (poll_reply O id within p a).asker ≤ 2
  unfolding poll_reply
  steps_left-poll_reply (ready r) a = omega arith
  steps_left-poll_reply closed a = omega arith
  steps_left-poll_reply pending a = omega arith

  -- A step of the asker once the time is over.
  steps_left-poll_asker :
      (x : Asker R) (a : Asking O id within)
      → x ≡ a.asker
      → steps_left (poll_asker O id within x true a).asker ≤ steps_left x - 1
  unfolding poll_asker
  steps_left-poll_asker waiting a e = steps_left-poll_reply (O.poll a.channel) a
  steps_left-poll_asker at_clock a e = unfold poll_clock in (omega arith)
  steps_left-poll_asker (dropping r) a e = unfold resolve in (omega arith)
  steps_left-poll_asker (resolved r) a e = omega (arith, ap steps_left e)
  steps_left-poll_asker given_up a e = omega (arith, ap steps_left e)

  steps_left-give_up :
      (x : Asker R) (a : Asking O id within)
      → x ≡ a.asker
      → steps_left (give_up O id within x a).asker ≤ steps_left x
  unfolding give_up
  steps_left-give_up waiting a e = omega arith
  steps_left-give_up at_clock a e = omega (arith, ap steps_left e)
  steps_left-give_up (dropping r) a e = omega (arith, ap steps_left e)
  steps_left-give_up (resolved r) a e = omega (arith, ap steps_left e)
  steps_left-give_up given_up a e = omega (arith, ap steps_left e)

  pub steps_left-run :
      (ms : List (Move O id within)) (a : Asking O id within)
      → TimeIsOver ms
      → steps_left (run O id within ms a).asker ≤ steps_left a.asker - asker_steps ms
  unfolding step
  steps_left-run [] a over = omega arith
  steps_left-run (replies r ∷ ms) a over = omega (
    arith,
    steps_left-run ms (step O id within (replies r) a) over,
    ap steps_left (asker-send_reply r a.responder a),
  )
  steps_left-run (drops_reply_to ∷ ms) a over = omega (
    arith,
    steps_left-run ms (step O id within drops_reply_to a) over,
    ap steps_left (asker-drop_reply_to a.responder a),
  )
  steps_left-run (polled true ∷ ms) a (e, over) = omega (
    arith,
    steps_left-run ms (step O id within (polled true) a) over,
    steps_left-poll_asker a.asker a refl,
  )
  steps_left-run (polled false ∷ ms) a (e, over) = absurd (cc e)
  steps_left-run (gives_up ∷ ms) a over = omega (
    arith,
    steps_left-run ms (step O id within gives_up a) over,
    steps_left-give_up a.asker a refl,
  )

  -- What an asker has in the end stays.
  asker-poll_asker :
      (x : Asker R) (over : Bool) (a : Asking O id within)
      → x ≡ a.asker
      → steps_left x ≡ 0
      → (poll_asker O id within x over a).asker ≡ a.asker
  unfolding poll_asker
  asker-poll_asker waiting over a e h = absurd (omega (arith, h))
  asker-poll_asker at_clock over a e h = absurd (omega (arith, h))
  asker-poll_asker (dropping r) over a e h = absurd (omega (arith, h))
  asker-poll_asker (resolved r) over a e h = refl
  asker-poll_asker given_up over a e h = refl

  asker-give_up :
      (x : Asker R) (a : Asking O id within)
      → steps_left x ≡ 0
      → (give_up O id within x a).asker ≡ a.asker
  unfolding give_up
  asker-give_up waiting a h = absurd (omega (arith, h))
  asker-give_up at_clock a h = refl
  asker-give_up (dropping r) a h = refl
  asker-give_up (resolved r) a h = refl
  asker-give_up given_up a h = refl

  asker-step :
      (m : Move O id within) (a : Asking O id within)
      → steps_left a.asker ≡ 0
      → (step O id within m a).asker ≡ a.asker
  unfolding step
  asker-step (replies r) a h = asker-send_reply r a.responder a
  asker-step drops_reply_to a h = asker-drop_reply_to a.responder a
  asker-step (polled over) a h = asker-poll_asker a.asker over a refl h
  asker-step gives_up a h = asker-give_up a.asker a h

  pub asker-run :
      (ms : List (Move O id within)) (a : Asking O id within)
      → steps_left a.asker ≡ 0
      → (run O id within ms a).asker ≡ a.asker
  asker-run [] a h = refl
  asker-run (m ∷ ms) a h =
      let same = asker-step m a h in
      asker-run ms (step O id within m a) (ap steps_left same ∙ h) ∙ same
