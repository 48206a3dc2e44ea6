-- ===== src/Tree/Steps.antt =====
-- tellus/src/actor_context.rs: each move keeps the tree sound.
use mathlib.Core.Path.{subst}
use tellus.Prelude.{
  ℕ, ◌-◌, ◌<◌, ◌≡◌, refl, inl, inr, Bool, true, false, Bool-cases, Option, none, some, ltb, arith,
}
use tellus.Actor.{ActorId}
use tellus.Tree.{
  Tree, Phase, serving, stopping_children, backing_off, terminated, to_restart, to_terminate,
  is_terminated, step, Move, spawns, restarts, stops, hears_stop, children_gone, wakes,
  system_stops, Reach, here, next, is_open, if_spawned, spawn, restart, terminate, hear, close,
  wake,
}
use tellus.Tree.Sound.{IsSound, Kin, new_system-IsSound}
use tellus.Tree.Keeping.{stop_children-IsSound, close-IsSound, wake-IsSound, spawn-IsSound}

module _ (t : Tree) (id : ActorId) (v : IsSound t) (small : id < t.size) where
  spawn-step :
      (f : Phase) {u : Tree} → (t.node id).phase ≡ f → spawn id (t.node id) f t ≡ some u → IsSound u
  unfolding spawn
  spawn-step serving e h = subst IsSound (cc h) (spawn-IsSound t id v small e)
  spawn-step (stopping_children p) e h = cc
  spawn-step backing_off e h = cc
  spawn-step terminated e h = cc

  restart-step :
      (f : Phase) {u : Tree}
      → (t.node id).phase ≡ f
      → restart id (t.node id) f t ≡ some u
      → IsSound u
  unfolding restart
  restart-step serving e h =
      subst IsSound (ground (arith, h)) (stop_children-IsSound t id to_restart v small (inl e))
  restart-step (stopping_children p) e h = cc
  restart-step backing_off e h = cc
  restart-step terminated e h = cc

  terminate-step :
      (f : Phase) {u : Tree}
      → (t.node id).phase ≡ f
      → terminate id (t.node id) f t ≡ some u
      → IsSound u
  unfolding terminate
  terminate-step serving e h =
      subst IsSound (cc h) (stop_children-IsSound t id to_terminate v small (inl e))
  terminate-step (stopping_children p) e h = cc
  terminate-step backing_off e h = cc
  terminate-step terminated e h = cc

  hear-step :
      (f : Phase) {u : Tree} → (t.node id).phase ≡ f → hear id (t.node id) f t ≡ some u → IsSound u
  unfolding hear
  hear-step serving e h =
      subst IsSound (ground (arith, h)) (stop_children-IsSound t id to_terminate v small (inl e))
  hear-step backing_off e h =
      subst IsSound (ground (arith, h)) (stop_children-IsSound t id to_terminate v small (inr e))
  hear-step (stopping_children p) e h = cc
  hear-step terminated e h = cc

  close-step :
      (f : Phase) {u : Tree} → (t.node id).phase ≡ f → close id (t.node id) f t ≡ some u → IsSound u
  unfolding close
  close-step (stopping_children p) e h =
      elim (Bool-cases (is_open t id ((t.node id).stopping_tx - 1))) [
        | inl left ↦ absurd (ground (arith, left))
        | inr closed ↦
            subst IsSound (ground (arith, closed)) (close-IsSound t id p v small e closed)
      ]
  close-step serving e h = cc
  close-step backing_off e h = cc
  close-step terminated e h = cc

  wake-step :
      (f : Phase) {u : Tree} → (t.node id).phase ≡ f → wake id (t.node id) f t ≡ some u → IsSound u
  unfolding wake
  wake-step backing_off e h = subst IsSound (ground (arith, h)) (wake-IsSound t id v small e)
  wake-step serving e h = cc
  wake-step (stopping_children p) e h = cc
  wake-step terminated e h = cc

Kin-stop_sent :
    (t : Tree) (c : ActorId) (o : Option (ActorId × ℕ)) (dead : Bool)
    → Kin t c o dead
    → Kin (record t { stop_sent = true }) c o dead
Kin-stop_sent t c none dead h = h
Kin-stop_sent t c (some (p, g)) true h = h
Kin-stop_sent t c (some (p, g)) false h = h

stop_sent-IsSound : (t : Tree) → IsSound t → IsSound (record t { stop_sent = true })
stop_sent-IsSound t v = record {
  rooted = v.rooted;
  own = v.own;
  started = v.started;
  kin = λ c lt. Kin-stop_sent t c (t.node c).parent (is_terminated (t.node c).phase) (v.kin c lt);
}

pub if_spawned-cases :
    (t : Tree) (id : ActorId) (r : Option Tree) {u : Tree}
    → if_spawned id t r ≡ some u
    → (id < t.size) × (r ≡ some u)
if_spawned-cases t id r h = elim (Bool-cases (ltb id t.size)) [
  | inl e ↦ (ground (arith, e), ground (arith, e))
  | inr e ↦ absurd (ground (arith, e))
]

step-IsSound : (m : Move) (t : Tree) {u : Tree} → IsSound t → step m t ≡ some u → IsSound u
unfolding step
step-IsSound (spawns id) t v h =
    let (small, e) = if_spawned-cases t id _ h in spawn-step t id v small _ refl e
step-IsSound (restarts id) t v h =
    let (small, e) = if_spawned-cases t id _ h in restart-step t id v small _ refl e
step-IsSound (stops id) t v h =
    let (small, e) = if_spawned-cases t id _ h in terminate-step t id v small _ refl e
step-IsSound (hears_stop id) t v h =
    let (small, e) = if_spawned-cases t id _ h in hear-step t id v small _ refl e
step-IsSound (children_gone id) t v h =
    let (small, e) = if_spawned-cases t id _ h in close-step t id v small _ refl e
step-IsSound (wakes id) t v h =
    let (small, e) = if_spawned-cases t id _ h in wake-step t id v small _ refl e
step-IsSound system_stops t v h = subst IsSound (cc h) (stop_sent-IsSound t v)

-- Every tree that can be reached is sound.
pub Reach-IsSound : {t : Tree} → Reach t → IsSound t
Reach-IsSound here = new_system-IsSound
Reach-IsSound (next {t} r m e) = step-IsSound m t (Reach-IsSound r) e
