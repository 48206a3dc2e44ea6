-- ===== src/Persistence/Settle/Apply.antt =====
-- tellus/src/persistence/spawn.rs: what is encoded and applied live is what a replay decodes and
-- applies.
use mathlib.Core.Path.{subst}
use tellus.Prelude.{
  length, suc, sym, ◌∙◌, ◌≡◌, refl, ap, some, List, [], ◌∷◌, done, catch_and_log,
  catch_panic_and_log, and_then, bind_attempt, bind_attempt-eq-done, done-injective, Caught-cases,
  inl, inr,
}
use tellus.Prelude.Dict.{nat_key, list_eq_iff}
use tellus.Persistence.Store.{Payload, EncodedEvent}
use tellus.Persistence.Versioned.{decode_versioned}
use tellus.Persistence.EventSourced.{EventSourced, Persistence}
use tellus.Persistence.Recovery.Replay.{step, replayed}
use tellus.Persistence.Recovery.{decode_event}
use tellus.Persistence.Settle.{apply_events, with_tags, encode_event, encode_events}

-- The codec that reads an event is the one that wrote it: at the current version, the event's
-- decoding gives back what was encoded.
abbrev pub EventsRoundTrip : {World : Type 0} (A : EventSourced) → Persistence World A → Type 0
EventsRoundTrip A P =
    (e : A.Event) (payload : Payload)
    → P.event_codec.encode e ≡ done payload
    → A.event.decode A.event.version payload ≡ done e

module _ {World : Type 0} (A : EventSourced) (P : Persistence World A)
    (round_trip : EventsRoundTrip A P) where
  pub decode-encode_event :
      (e : A.Event) (x : EncodedEvent) → encode_event A P e ≡ done x → decode_event A x ≡ done e
  unfolding encode_event decode_versioned
  decode-encode_event e x h =
      let (payload, encoded, same) =
        bind_attempt-eq-done (P.event_codec.encode e) (with_tags A) h in
      subst (λ y. decode_event A y ≡ done e) (done-injective same)
        (rw ((list_eq_iff A.event.manifest A.event.manifest).1 refl) (round_trip e payload encoded))

  step-encode_event :
      (s : A.State) (e : A.Event) (x : EncodedEvent)
      → encode_event A P e ≡ done x
      → step A s x ≡ catch_panic_and_log (A.apply s e)
  unfolding step
  step-encode_event s e x h =
      ap (λ r. and_then (catch_and_log r) (λ event. catch_panic_and_log (A.apply s event)))
        (decode-encode_event e x h)

  -- Replaying encoded events is applying the events, one after the other.
  pub replayed-encode_events :
      (s : A.State) (es : List A.Event) (xs : List EncodedEvent)
      → encode_events A P es ≡ done xs
      → replayed A s xs ≡ catch_panic_and_log (apply_events A s es)
  unfolding replayed apply_events encode_events
  replayed-encode_events s [] xs h = subst (λ ys. replayed A s ys ≡ some s) (done-injective h) refl
  replayed-encode_events s (e ∷ es) xs h =
      let (x, ex, h') =
        bind_attempt-eq-done (encode_event A P e)
          (λ x. bind_attempt (encode_events A P es) (λ xs. done (x ∷ xs))) h in
      let (ys, eys, same) = bind_attempt-eq-done (encode_events A P es) (λ xs. done (x ∷ xs)) h' in
      subst (λ zs. replayed A s zs ≡ catch_panic_and_log (apply_events A s (e ∷ es)))
        (done-injective same)
        (rw (step-encode_event s e x ex) (elim (Caught-cases (A.apply s e)) [
          | inl (s', p) ↦ rw (p, apply_events) (replayed-encode_events s' es ys eys)
          | inr p ↦ rw (p, apply_events) refl
        ]))

pub length-encode_events :
    {World : Type 0} (A : EventSourced) (P : Persistence World A) (es : List A.Event)
    (xs : List EncodedEvent)
    → encode_events A P es ≡ done xs
    → length xs ≡ length es
unfolding encode_events
length-encode_events A P [] xs h = ap length (sym (done-injective h))
length-encode_events A P (e ∷ es) xs h =
    let (x, ex, h') =
      bind_attempt-eq-done (encode_event A P e)
        (λ x. bind_attempt (encode_events A P es) (λ xs. done (x ∷ xs))) h in
    let (ys, eys, same) = bind_attempt-eq-done (encode_events A P es) (λ xs. done (x ∷ xs)) h' in
    ap length (sym (done-injective same)) ∙ ap suc (length-encode_events A P es ys eys)
