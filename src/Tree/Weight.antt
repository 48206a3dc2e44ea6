-- ===== src/Tree/Weight.antt =====
-- tellus/src/actor_context.rs and tellus/src/actor_system.rs: each move that tears down brings one
-- actor nearer to its end.
use tellus.Prelude.{
  ℕ, zero, suc, ◌+◌, ◌≤◌, ◌<◌, ◌≡◌, refl, ap, inl, inr, false, Bool-cases, ◌*◌, some, nat_eq,
  nat_eq_iff, arith,
}
use tellus.Actor.{ActorId}
use tellus.Tree.{
  Tree, Node, Phase, serving, stopping_children, backing_off, terminated, Purpose, to_restart,
  to_terminate, update, step, Move, hears_stop, children_gone, stop_children, after_closed, hear,
  close,
}
use tellus.Tree.Steps.{if_spawned-cases}

rank : Phase → ℕ
rank serving = 2
rank (stopping_children to_restart) = 3
rank (stopping_children to_terminate) = 1
rank backing_off = 2
rank terminated = 0

rank-le : (f : Phase) → rank f ≤ 3
unfolding rank
rank-le serving = omega arith
rank-le (stopping_children to_restart) = omega arith
rank-le (stopping_children to_terminate) = omega arith
rank-le backing_off = omega arith
rank-le terminated = omega arith

ranks : (ActorId → Node) → ℕ → ℕ
unfolding rank
ranks node zero = 0
ranks node (suc k) = rank (node k).phase + ranks node k

-- How many moves are left at most until all have terminated.
pub weight : Tree → ℕ
unfolding ranks
weight t = ranks t.node t.size

ranks_beyond :
    (t : Tree) (id : ActorId) (n : Node) (k : ℕ)
    → k ≤ id
    → ranks (update id n t).node k ≡ ranks t.node k
unfolding ranks
ranks_beyond t id n zero le = refl
ranks_beyond t id n (suc k) le =
    let other : nat_eq id k ≡ false = ground arith in
    rw other (ap (λ r. rank (t.node k).phase + r) (ranks_beyond t id n k (omega arith)))

ranks-update :
    (t : Tree) (id : ActorId) (n : Node) (k : ℕ)
    → id < k
    → ranks (update id n t).node k + rank (t.node id).phase ≡ ranks t.node k + rank n.phase
unfolding ranks
ranks-update t id n zero lt = absurd (omega arith)
ranks-update t id n (suc k) lt = elim (Bool-cases (nat_eq id k)) [
  | inl e ↦
      let same : id ≡ k = (nat_eq_iff id k).0 e in
      rw e (
        omega (
          arith,
          ranks_beyond t id n k (omega (arith, same)),
          ap (λ j. rank (t.node j).phase) same,
        ))
  | inr e ↦ rw e (omega (arith, ranks-update t id n k (ground (arith, e))))
]

-- What is left to do once a stop has been sent: to hear of it, and to see one's children gone.
pub data IsTeardown : Move → Type 0 where
  hearing : (id : ActorId) → IsTeardown (hears_stop id)
  closing : (id : ActorId) → IsTeardown (children_gone id)

-- One node changes, and is nearer to its end.
record Nearer (t u : Tree) (id : ActorId) : Type 0 where
  now : Node
  small : id < t.size
  after : u ≡ update id now t
  less : rank now.phase < rank (t.node id).phase

hear-Nearer :
    (t : Tree) (id : ActorId) (f : Phase) {u : Tree}
    → id < t.size
    → (t.node id).phase ≡ f
    → hear id (t.node id) f t ≡ some u
    → Nearer t u id
unfolding hear stop_children rank
hear-Nearer t id serving small e h = record {
  now = stop_children to_terminate (t.node id);
  small = small;
  after = ground (arith, h);
  less = rw e (omega arith);
}
hear-Nearer t id backing_off small e h = record {
  now = stop_children to_terminate (t.node id);
  small = small;
  after = ground (arith, h);
  less = rw e (omega arith);
}
hear-Nearer t id (stopping_children p) small e h = absurd (cc h)
hear-Nearer t id terminated small e h = absurd (cc h)

rank-after_closed : (p : Purpose) → rank (after_closed p) < rank (stopping_children p)
unfolding rank
rank-after_closed to_restart = omega arith
rank-after_closed to_terminate = omega arith

close-Nearer :
    (t : Tree) (id : ActorId) (f : Phase) {u : Tree}
    → id < t.size
    → (t.node id).phase ≡ f
    → close id (t.node id) f t ≡ some u
    → Nearer t u id
unfolding close
close-Nearer t id (stopping_children p) small e h = record {
  now = record (t.node id) { phase = after_closed p };
  small = small;
  after = ground (arith, h);
  less = rw e (rank-after_closed p);
}
close-Nearer t id serving small e h = absurd (cc h)
close-Nearer t id backing_off small e h = absurd (cc h)
close-Nearer t id terminated small e h = absurd (cc h)

pub teardown_less :
    {m : Move} (t : Tree) {u : Tree}
    → IsTeardown m
    → step m t ≡ some u
    → (weight u < weight t) × (u.stop_sent ≡ t.stop_sent)
unfolding step weight
teardown_less t (hearing id) h =
    let (small, e) = if_spawned-cases t id _ h in
    let n = hear-Nearer t id _ small refl e in
    (rw n.after (omega (arith, ranks-update t id n.now t.size small, n.less)), rw n.after refl)
teardown_less t (closing id) h =
    let (small, e) = if_spawned-cases t id _ h in
    let n = close-Nearer t id _ small refl e in
    (rw n.after (omega (arith, ranks-update t id n.now t.size small, n.less)), rw n.after refl)

ranks-le : (node : ActorId → Node) (k : ℕ) → ranks node k ≤ 3 * k
unfolding ranks
ranks-le node zero = omega arith
ranks-le node (suc k) = omega (arith, ranks-le node k, rank-le (node k).phase)

pub weight-le : (t : Tree) → weight t ≤ 3 * t.size
unfolding weight
weight-le t = ranks-le t.node t.size
