-- ===== src/Task/Leaving.antt =====
-- tellus/src/actor_context.rs, `terminate`: the task has dropped its mailbox, and leaves the registries
-- of the actors that it watched.
use tellus.Prelude.{
  ap, ◌≡◌, refl, true, Bool-cases, inl, inr, none, some, List, [], ◌∷◌, Result, ok, err, nat_eq,
  if◌then◌else◌,
}
use tellus.Prelude.Dict.{nat_key, Dict, lookup}
use tellus.Actor.{ActorId, Incoming, message, terminated}
use tellus.Config.{SupervisionStrategy}
use tellus.Channel.{Channel, IsChannel}
use tellus.Quota.{
  Quota, Full, Reservation, Shared, reserve, sent, counted_reply, send_reserved, try_send_counted,
  uncounted_reply, try_send_uncounted,
}
use tellus.Mailbox.{try_send_message, send_terminated}
use tellus.Mailbox.Registry.{Watcher, WatcherRegistry, remove}
use tellus.Mailbox.Registry.Closing.{take_watchers-closed, is_some}
use tellus.Watching.{Watching, set_registry, signal_all, terminates}
use tellus.Watching.Delivery.{registered}
use tellus.Watching.Tidy.{registered-remove}
use tellus.Task.{Acting, remove_all, drop_watched}

module _ {M Sink : Type 0} (C : Channel (Incoming M)) (L : IsChannel C) (self_id : ActorId)
    (own_sink : Sink) where
  send_reserved_gone :
      (x : Incoming M) (c : C.Chan) (r : Result Reservation Full × Quota)
      → C.is_disconnected c ≡ true
      → C.is_disconnected (send_reserved C x c r).1.1 ≡ true
  unfolding send_reserved sent counted_reply
  send_reserved_gone x c (err e, q) gone = rw gone gone
  send_reserved_gone x c (ok r, q) gone = rw (L.send_disconnected c x gone) gone

  pub try_send_message_gone :
      (m : M) (s : Shared C)
      → C.is_disconnected s.1 ≡ true
      → C.is_disconnected (try_send_message C s m).1.1 ≡ true
  unfolding try_send_message try_send_counted
  try_send_message_gone m (q, c) gone = send_reserved_gone (message m) c (reserve q) gone

  send_terminated_gone :
      (other : ActorId) (s : Shared C)
      → C.is_disconnected s.1 ≡ true
      → C.is_disconnected (send_terminated C s other).1.1 ≡ true
  unfolding send_terminated try_send_uncounted uncounted_reply
  send_terminated_gone other (q, c) gone = rw (L.send_disconnected c (terminated other) gone) gone

  pub signal_all_gone :
      (other : ActorId) (ws : List (Watcher Sink)) (s : Shared C)
      → C.is_disconnected s.1 ≡ true
      → C.is_disconnected (signal_all C self_id own_sink other ws s).1 ≡ true
  unfolding signal_all
  signal_all_gone other [] s gone = gone
  signal_all_gone other (w ∷ ws) s gone = elim (Bool-cases (nat_eq w.watcher_id self_id)) [
    | inl e ↦
        rw (signal_all, e)
          (signal_all_gone other ws (send_terminated C s other).1
            (send_terminated_gone other s gone))
    | inr e ↦ rw (signal_all, e) (signal_all_gone other ws s gone)
  ]

  pub registered-terminates :
      (other : ActorId) (s : Watching C self_id own_sink) (j : ActorId)
      → registered C L self_id own_sink ((terminates C self_id own_sink other s).registries j)
        ≡ (if nat_eq other j then 0 else registered C L self_id own_sink (s.registries j))
  unfolding terminates
  registered-terminates other s j = elim (Bool-cases (nat_eq other j)) [
    | inl e ↦
        rw e (ap (registered C L self_id own_sink) (take_watchers-closed (s.registries other)))
    | inr e ↦ rw e refl
  ]

module _ {Sink : Type 0} (A : Acting) (C : Channel (Incoming A.Message)) (L : IsChannel C)
    (self_id : ActorId) (own_sink : Sink) (strategy : SupervisionStrategy) where
  registered-remove_all :
      (watched : Dict ActorId (Unit {0})) (rs : ActorId → WatcherRegistry Sink) (j : ActorId)
      → (lookup j watched ≡ none → registered C L self_id own_sink (rs j) ≡ 0)
      → registered C L self_id own_sink (remove_all A C self_id own_sink strategy watched rs j) ≡ 0
  unfolding remove_all lookup
  registered-remove_all [] rs j h = h refl
  registered-remove_all ((other, _) ∷ watched) rs j h =
      let left = set_registry C self_id own_sink rs other (remove self_id (rs other)) in
      registered-remove_all watched left j (λ e. elim (Bool-cases (nat_eq other j)) [
        | inl q ↦ rw q (registered-remove C L self_id own_sink (rs other))
        | inr q ↦ rw q (h (rw q e))
      ])

  -- An actor that stood only in registries of actors that it watched stands in none.
  pub registered-drop_watched :
      (s : Watching C self_id own_sink) (j : ActorId)
      → (registered C L self_id own_sink (s.registries j) ≡ 1 → lookup j s.watched ≡ some tt)
      → registered C L self_id own_sink
          ((drop_watched A C self_id own_sink strategy s).registries j)
        ≡ 0
  unfolding drop_watched
  registered-drop_watched s j noted =
      registered-remove_all s.watched s.registries j
        (λ e. unnoted (s.registries j) (λ h. absurd (cc (noted h, e))))
    where
      unnoted :
          (r : WatcherRegistry Sink)
          → (registered C L self_id own_sink r ≡ 1 → ⊥)
          → registered C L self_id own_sink r ≡ 0
      unnoted none h = refl
      unnoted (some d) h = elim (Bool-cases (is_some (lookup self_id d))) [
        | inl e ↦ absurd (h (rw e refl))
        | inr e ↦ rw e refl
      ]
