-- ===== src/Persistence/Settle/Persist.antt =====
-- tellus/src/persistence/spawn.rs, the first half of `settle`: what it has done where it succeeds.
use tellus.Prelude.{
  ◌≡◌, refl, ap, sym, Option, none, some, List, length, arith, done, returned, catch_and_log,
  catch_panic_and_log, done_of_catch, returned_of_catch,
}
use tellus.Persistence.SeqNo.{SeqNo, advanced_by}
use tellus.Persistence.Id.{PersistenceId}
use tellus.Persistence.Store.{EncodedEvent}
use tellus.Persistence.EventSourced.{EventSourced, Persistence}
use tellus.Persistence.Settle.{
  apply_events, encode_events, persist, append_encoded, apply_appended, applied,
}

module _ {World : Type 0} (A : EventSourced) (P : Persistence World A) where
  -- What a successful `persist` has done.
  pub record Persisted (w : World) (id : PersistenceId) (s : A.State) (n : SeqNo)
      (events : List A.Event) (s' : A.State) (n' : SeqNo) (w' : World) : Type 0 where
    pub encoded : List EncodedEvent
    pub are_encoded : encode_events A P events ≡ done encoded
    pub accepted : (P.event_store.append w id n encoded).0 ≡ done tt
    pub are_applied : apply_events A s events ≡ returned s'
    pub advanced : n' ≡ advanced_by n (length events)
    pub left : w' ≡ (P.event_store.append w id n encoded).1

  module _ (s : A.State) (n : SeqNo) (events : List A.Event) (s' : A.State) (n' : SeqNo)
      (w' : World) where
    applied_inv :
        (w : World) (o : Option A.State)
        → applied A P w n events o ≡ (some (s', n'), w')
        → (o ≡ some s') × (n' ≡ advanced_by n (length events)) × (w' ≡ w)
    unfolding applied
    applied_inv w none h = absurd (cc (ap (λ r. r.0) h))
    applied_inv w (some x) h = ground arith

    apply_appended_inv :
        (w : World) (r : Option (Unit {0}))
        → apply_appended A P s n events (r, w) ≡ (some (s', n'), w')
        → (r ≡ some tt)
          × (apply_events A s events ≡ returned s')
          × (n' ≡ advanced_by n (length events))
          × (w' ≡ w)
    unfolding apply_appended
    apply_appended_inv w none h = absurd (cc (ap (λ r. r.0) h))
    apply_appended_inv w (some x) h =
        let (e, m, same) = applied_inv w (catch_panic_and_log (apply_events A s events)) h in
        (refl, returned_of_catch (apply_events A s events) e, m, same)

    append_encoded_inv :
        (w : World) (id : PersistenceId) (o : Option (List EncodedEvent))
        → o ≡ catch_and_log (encode_events A P events)
        → append_encoded A P w id s n events o ≡ (some (s', n'), w')
        → Persisted w id s n events s' n' w'
    unfolding append_encoded
    append_encoded_inv w id none e h = absurd (cc (ap (λ r. r.0) h))
    append_encoded_inv w id (some xs) e h =
        let (reply, are_applied, m, same) =
          apply_appended_inv (P.event_store.append w id n xs).1
            (catch_and_log (P.event_store.append w id n xs).0) h in
        record {
          encoded = xs;
          are_encoded = done_of_catch (encode_events A P events) (sym e);
          accepted = done_of_catch (P.event_store.append w id n xs).0 reply;
          are_applied = are_applied;
          advanced = m;
          left = same;
        }

  pub persist-Persisted :
      (w : World) (id : PersistenceId) (s : A.State) (n : SeqNo) (events : List A.Event)
      (s' : A.State) (n' : SeqNo) (w' : World)
      → persist A P w id s n events ≡ (some (s', n'), w')
      → Persisted w id s n events s' n' w'
  unfolding persist
  persist-Persisted w id s n events s' n' w' h =
      append_encoded_inv s n events s' n' w' w id (catch_and_log (encode_events A P events)) refl h
