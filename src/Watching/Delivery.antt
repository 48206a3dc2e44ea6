-- ===== src/Watching/Delivery.antt =====
-- tellus/src/actor_context.rs: no watched actor terminates unseen.
use mathlib.Core.Path.{subst}
use tellus.Prelude.{
  ℕ, ◌+◌, ◌≤◌, ◌≡◌, refl, ap, sym, ◌∙◌, false, Bool-cases, inl, inr, none, some, List, [], ◌∷◌,
  ◌++◌, Result, ok, err, nat_eq, arith, if◌then◌else◌,
}
use tellus.Prelude.Dict.{nat_key, lookup, insert, lookup-insert}
use tellus.Actor.{ActorId, Incoming, message, terminated}
use tellus.Channel.{Channel, IsChannel}
use tellus.Quota.{Shared, uncounted_reply, try_send_uncounted}
use tellus.Mailbox.{send_terminated}
use tellus.Mailbox.Registry.{Watcher, WatcherRegistry, add, remove}
use tellus.Mailbox.Registry.Closing.{signals, is_some, IsOpen, add_lem, remove_lem}
use tellus.Watching.{Watching, set_registry, make_watcher, signal_unless, signal_all}

-- How many signals of an actor are queued.
abbrev pub signal_count : {M : Type 0} → ActorId → List (Incoming M) → ℕ
signal_count j [] = 0
signal_count j (message m ∷ xs) = signal_count j xs
signal_count j (terminated id ∷ xs) = (if nat_eq id j then 1 else 0) + signal_count j xs

pub signal_count-append :
    {M : Type 0} (j : ActorId) (xs ys : List (Incoming M))
    → signal_count j (xs ++ ys) ≡ signal_count j xs + signal_count j ys
signal_count-append j [] ys = omega arith
signal_count-append j (message m ∷ xs) ys = signal_count-append j xs ys
signal_count-append j (terminated id ∷ xs) ys = omega (arith, signal_count-append j xs ys)

module _ {M Sink : Type 0} (C : Channel (Incoming M)) (L : IsChannel C) (self_id : ActorId)
    (own_sink : Sink) where
  -- Whether the watcher stands in a registry.
  abbrev pub registered : WatcherRegistry Sink → ℕ
  registered none = 0
  registered (some d) = if is_some (lookup self_id d) then 1 else 0

  abbrev pub IsSound : WatcherRegistry Sink → Type 0
  IsSound none = Unit {0}
  IsSound (some d) = IsOpen d

  abbrev pub queued_signals : ActorId → Shared C → ℕ
  queued_signals j m = signal_count j (L.contents m.1)

  -- Of each actor that it watches, the watcher stands in the registry or has the signal in its queue.
  pub record IsWatching (s : Watching C self_id own_sink) : Type 0 where
    pub connected : C.is_disconnected s.mailbox.1 ≡ false
    pub sound : (j : ActorId) → IsSound (s.registries j)
    pub covered :
        (j : ActorId)
        → lookup j s.watched ≡ some tt
        → 1 ≤ registered (s.registries j) + queued_signals j s.mailbox

  pub record IsSent (j other : ActorId) (n : ℕ) (m m' : Shared C) : Type 0 where
    pub connected : C.is_disconnected m'.1 ≡ false
    pub counted : queued_signals j m' ≡ queued_signals j m + (if nat_eq other j then n else 0)

  pub send_terminated-IsSent :
      (j other : ActorId) (m : Shared C)
      → C.is_disconnected m.1 ≡ false
      → IsSent j other 1 m (send_terminated C m other).1
  unfolding send_terminated try_send_uncounted
  send_terminated-IsSent j other (q, c) h =
      let (accepted, last, still) = L.send_connected c (terminated other) h in
      let c' = (C.send c (terminated other)).1 in
      subst (λ r. IsSent j other 1 (q, c) (uncounted_reply C q (r, c')).1) (sym accepted)
        (unfold uncounted_reply in
          (record {
            connected = still;
            counted =
                ap (signal_count j) last
                ∙ signal_count-append j (L.contents c) (terminated other ∷ [])
                ∙ omega arith;
          }))

  pub signal_all-IsSent :
      (j other : ActorId) (ws : List (Watcher Sink)) (m : Shared C)
      → C.is_disconnected m.1 ≡ false
      → IsSent j other (signals self_id ws) m (signal_all C self_id own_sink other ws m)
  unfolding signal_all
  signal_all-IsSent j other [] m h = record { connected = h; counted = ground arith }
  signal_all-IsSent j other (w ∷ ws) m h = elim (Bool-cases (nat_eq w.watcher_id self_id)) [
    | inl e ↦ rw e (
        let one = send_terminated-IsSent j other m h in
        let rest = signal_all-IsSent j other ws (send_terminated C m other).1 one.connected in
        record { connected = rest.connected; counted = ground (arith, rest.counted, one.counted) })
    | inr e ↦ rw e (
        let rest = signal_all-IsSent j other ws m h in
        record { connected = rest.connected; counted = ground (arith, rest.counted) })
  ]

  -- What the watch of an actor leaves of that actor's registry.
  pub add-IsSound :
      (r : WatcherRegistry Sink)
      → IsSound r
      → IsSound (add (make_watcher C self_id own_sink) r).1
        × (((add (make_watcher C self_id own_sink) r).0 ≡ ok tt)
            → registered (add (make_watcher C self_id own_sink) r).1 ≡ 1)
  unfolding add
  add-IsSound none v = (tt, λ e. absurd (cc e))
  add-IsSound (some d) v =
      let (d', e, v', h) = add_lem (make_watcher C self_id own_sink) d v in
      (subst IsSound (sym e) v', λ _. ap registered e ∙ ground (arith, h self_id))

  pub remove-IsSound : (r : WatcherRegistry Sink) → IsSound r → IsSound (remove self_id r)
  remove-IsSound none v = (unfold remove in tt)
  remove-IsSound (some d) v = let (e, v', _) = remove_lem self_id d v in subst IsSound (sym e) v'

  pub set_registry-IsSound :
      (rs : ActorId → WatcherRegistry Sink) (other : ActorId) (r : WatcherRegistry Sink)
      → ((j : ActorId) → IsSound (rs j))
      → IsSound r
      → (j : ActorId) → IsSound (set_registry C self_id own_sink rs other r j)
  set_registry-IsSound rs other r v vr j = elim (Bool-cases (nat_eq other j)) [
    | inl e ↦ rw e vr
    | inr e ↦ rw e (v j)
  ]

  pub watch_lem :
      (other : ActorId) (s : Watching C self_id own_sink) (reply : Result (Unit {0}) _)
      (r : WatcherRegistry Sink)
      → IsWatching s
      → IsSound r
      → (reply ≡ ok tt → registered r ≡ 1)
      → IsWatching (
          signal_unless C self_id own_sink reply other (record s {
            registries = set_registry C self_id own_sink s.registries other r;
            watched = insert other tt s.watched;
          }))
  unfolding signal_unless
  watch_lem other s (ok _) r v vr one = record {
    connected = v.connected;
    sound = set_registry-IsSound s.registries other r v.sound vr;
    covered = λ j h. elim (Bool-cases (nat_eq other j)) [
      | inl e ↦ rw e (omega (arith, one refl))
      | inr e ↦ rw e (v.covered j (ground (arith, h, e, lookup-insert other j tt s.watched)))
    ];
  }
  watch_lem other s (err e) r v vr one =
      let sent : (j : ActorId) → IsSent j other 1 s.mailbox (send_terminated C s.mailbox other).1 =
        λ j. send_terminated-IsSent j other s.mailbox v.connected in
      record {
        connected = (sent other).connected;
        sound = set_registry-IsSound s.registries other r v.sound vr;
        covered = λ j h. elim (Bool-cases (nat_eq other j)) [
          | inl e ↦ rw e (ground (arith, e, (sent j).counted))
          | inr e ↦ rw e (
              ground (
                arith,
                e,
                (sent j).counted,
                v.covered j (ground (arith, h, e, lookup-insert other j tt s.watched)),
              ))
        ];
      }
