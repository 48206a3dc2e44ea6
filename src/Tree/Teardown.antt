-- ===== src/Tree/Teardown.antt =====
-- tellus/src/actor_context.rs and tellus/src/actor_system.rs: once a system has been told to stop,
-- it is torn down step by step.
use mathlib.Core.Path.{subst}
use tellus.Prelude.{
  ℕ, zero, suc, ◌+◌, ◌-◌, ◌≤◌, ◌<◌, ◌≡◌, refl, ap, ◌∙◌, ◌⊎◌, inl, inr, Bool, true, false,
  Bool-cases, lt→ltb, Option-cases, ◌*◌, Option, none, some, nat_eq, arith,
}
use tellus.Actor.{ActorId}
use tellus.Tree.{
  Tree, Node, Phase, serving, stopping_children, backing_off, terminated, Purpose, to_terminate,
  update, is_terminated, step, Move, hears_stop, children_gone, Reach, next, is_open, told,
  stop_children, after_closed, holds_receiver, same_receiver, hear, close, any_holds,
}
use tellus.Tree.Stopping.{child_gone, gone_of_terminated}
use tellus.Tree.Steps.{Reach-IsSound}
use tellus.Tree.Sound.{Kin, Started, IsSound, in_use}
use tellus.Tree.Weight.{IsTeardown, hearing, closing, weight, weight-le, teardown_less}

Phase-cases :
    (f : Phase)
    → is_terminated f ≡ false
    → ((p : Purpose) × (f ≡ stopping_children p)) ⊎ (f ≡ serving) ⊎ (f ≡ backing_off)
Phase-cases serving h = inr (inl refl)
Phase-cases (stopping_children p) h = inl (p, refl)
Phase-cases backing_off h = inr (inr refl)
Phase-cases terminated h = absurd (cc h)

abbrev CanStep : Tree → Type 0
CanStep t = (m : Move) × (u : Tree) × IsTeardown m × (step m t ≡ some u)

can_hear :
    (t : Tree) (c : ActorId) (f : Phase)
    → c < t.size
    → (t.node c).phase ≡ f
    → (f ≡ serving) ⊎ (f ≡ backing_off)
    → told t (t.node c).parent ≡ true
    → CanStep t
unfolding step hear
can_hear t c f lt e (inl s) heard = (
  hears_stop c,
  update c (stop_children to_terminate (t.node c)) t,
  hearing c,
  rw (lt→ltb _ _ lt) (rw (e ∙ s, hear) (rw heard refl)),
)
can_hear t c f lt e (inr s) heard = (
  hears_stop c,
  update c (stop_children to_terminate (t.node c)) t,
  hearing c,
  rw (lt→ltb _ _ lt) (rw (e ∙ s, hear) (rw heard refl)),
)

can_close :
    (t : Tree) (c : ActorId) (p : Purpose)
    → c < t.size
    → (t.node c).phase ≡ stopping_children p
    → is_open t c ((t.node c).stopping_tx - 1) ≡ false
    → CanStep t
unfolding step close
can_close t c p lt e closed = (
  children_gone c,
  update c (record (t.node c) { phase = after_closed p }) t,
  closing c,
  rw (lt→ltb _ _ lt) (rw (e, close) (rw closed refl)),
)

-- Who holds a generation open.
any_holds-true :
    (node : ActorId → Node) (id g k : ℕ)
    → any_holds node id g k ≡ true
    → (c : ActorId) × (c < k) × (holds_receiver id g (node c) ≡ true)
unfolding any_holds
any_holds-true node id g zero h = absurd (cc h)
any_holds-true node id g (suc k) h = elim (Bool-cases (holds_receiver id g (node k))) [
  | inl e ↦ (k, omega arith, e)
  | inr e ↦
      let (c, lt, holds) = any_holds-true node id g k (ground (arith, e)) in
      (c, omega (arith, lt), holds)
]

same_receiver-true :
    (id g : ℕ) (o : Option (ActorId × ℕ)) → same_receiver id g o ≡ true → o ≡ some (id, g)
same_receiver-true id g none h = cc
same_receiver-true id g (some (p, k)) h = ground arith

holder :
    (t : Tree) (id : ActorId)
    → IsSound t
    → id < t.size
    → 0 < (t.node id).stopping_tx
    → is_open t id ((t.node id).stopping_tx - 1) ≡ true
    → (c : ActorId) × (c < t.size)
      × ((t.node c).parent ≡ some (id, (t.node id).stopping_tx - 1))
      × (is_terminated (t.node c).phase ≡ false)
unfolding is_open
holder t id v small started open_ =
    let own : nat_eq (t.node id).stopping_rx ((t.node id).stopping_tx - 1) ≡ false =
      ground (arith, v.own id small) in
    let (c, lt, holds) =
      any_holds-true t.node id ((t.node id).stopping_tx - 1) t.size (ground (arith, own)) in
    (
      c,
      lt,
      same_receiver-true id _ (t.node c).parent (ground (arith, holds)),
      ground (arith, holds),
    )

-- Who waits for its children can go on, or one of the actors below it can.
descend :
    (fuel : ℕ) (t : Tree) (id : ActorId) (p : Purpose)
    → IsSound t
    → id < t.size
    → t.size ≤ id + fuel
    → (t.node id).phase ≡ stopping_children p
    → CanStep t
descend zero t id p v small enough e = absurd (omega arith)
descend (suc fuel) t id p v small enough e =
    let tx = (t.node id).stopping_tx in
    let started : 0 < tx = subst (λ f. Started f tx) e (v.started id small) in
    elim (Bool-cases (is_open t id (tx - 1))) [
      | inr closed ↦ can_close t id p small e closed
      | inl left ↦
          let (c, lt, parent, alive) = holder t id v small started left in
          let older = (in_use t c id (tx - 1) v lt parent alive).0 in
          let heard : told t (t.node c).parent ≡ true = rw parent (ground (arith, started)) in
          elim (Phase-cases (t.node c).phase alive) [
            | inl (q, f) ↦ descend fuel t c q v lt (omega arith) f
            | inr f ↦ can_hear t c _ lt refl f heard
          ]
    ]

root_parent : (t : Tree) (o : Option (ActorId × ℕ)) (dead : Bool) → Kin t 0 o dead → o ≡ none
root_parent t none dead k = refl
root_parent t (some (p, g)) true k = absurd (omega arith)
root_parent t (some (p, g)) false k = absurd (omega (arith, k.0))

-- While the root is there, someone can go on.
root-CanStep :
    (t : Tree) → IsSound t → t.stop_sent ≡ true → is_terminated (t.node 0).phase ≡ false → CanStep t
root-CanStep t v sent alive =
    let parent =
      root_parent t (t.node 0).parent (is_terminated (t.node 0).phase) (v.kin 0 v.rooted) in
    elim (Phase-cases (t.node 0).phase alive) [
      | inl (q, f) ↦ descend t.size t 0 q v v.rooted (omega arith) f
      | inr f ↦ can_hear t 0 _ v.rooted refl f (rw parent sent)
    ]

-- Once the root is gone, all are.
gone_below :
    (t : Tree) (k c : ℕ)
    → IsSound t
    → is_terminated (t.node 0).phase ≡ true
    → c < k
    → c < t.size
    → is_terminated (t.node c).phase ≡ true
gone_below t zero c v root lt small = absurd (omega arith)
gone_below t (suc k) c v root lt small = elim (Bool-cases (is_terminated (t.node c).phase)) [
  | inl e ↦ e
  | inr e ↦ elim (Option-cases (t.node c).parent) [
    | inl orphan ↦
        let at_root : c ≡ 0 =
          subst (λ o. Kin t c o (is_terminated (t.node c).phase)) orphan (v.kin c small) in
        ap (λ j. is_terminated (t.node j).phase) at_root ∙ root
    | inr ((p, g), parent) ↦
        let older = (in_use t c p g v small parent e).0 in
        child_gone t c p g v small parent (
          gone_of_terminated (t.node p).phase
            (gone_below t k p v root (omega (arith, older)) (omega (arith, older))))
  ]
]

-- A run of moves that tear down.
pub data TearsDown : Tree → Tree → Type 0 where
  torn : {t : Tree} → TearsDown t t
  tears :
      {t u w : Tree} (m : Move) → IsTeardown m → step m t ≡ some u → TearsDown u w → TearsDown t w

pub moves : {t u : Tree} → TearsDown t u → ℕ
moves torn = 0
moves (tears m teardown e rest) = suc (moves rest)

pub AllTerminated : Tree → Type 0
AllTerminated t = (c : ActorId) → c < t.size → is_terminated (t.node c).phase ≡ true

tear_down :
    (fuel : ℕ) (t : Tree)
    → Reach t
    → t.stop_sent ≡ true
    → weight t < fuel
    → (u : Tree) × TearsDown t u × AllTerminated u
unfolding AllTerminated
tear_down zero t r sent enough = absurd (omega arith)
tear_down (suc fuel) t r sent enough = elim (Bool-cases (is_terminated (t.node 0).phase)) [
  | inl root ↦ (t, torn, λ c lt. gone_below t (suc c) c (Reach-IsSound r) root (omega arith) lt)
  | inr alive ↦
      let (m, u, teardown, e) = root-CanStep t (Reach-IsSound r) sent alive in
      let (less, same) = teardown_less t teardown e in
      let (w, rest, done) = tear_down fuel u (next r m e) (same ∙ sent) (omega (arith, less)) in
      (w, tears m teardown e rest, done)
]

moves-le : {t u : Tree} (run : TearsDown t u) → moves run ≤ weight t
unfolding moves
moves-le torn = omega arith
moves-le (tears {t} m teardown e rest) =
    omega (arith, moves-le rest, (teardown_less t teardown e).0)

-- From every tree that can be reached, once the system has been told to stop, moves that only hear of
-- the stop or see children gone lead to a tree in which every actor has terminated; as long as one
-- has not, such a move can be made; and no run of such moves is longer than three for each actor.
pub stop_terminates :
    {t : Tree}
    → Reach t
    → t.stop_sent ≡ true
    → ((u : Tree) × TearsDown t u × AllTerminated u)
      × ((c : ActorId)
          → c < t.size
          → is_terminated (t.node c).phase ≡ false
          → (m : Move) × (u : Tree) × IsTeardown m × (step m t ≡ some u))
      × ((u : Tree) (run : TearsDown t u) → moves run ≤ 3 * t.size)
stop_terminates {t} r sent = (
  tear_down (suc (weight t)) t r sent (omega arith),
  λ c lt alive. elim (Bool-cases (is_terminated (t.node 0).phase)) [
    | inl root ↦ absurd (cc (alive, gone_below t (suc c) c (Reach-IsSound r) root (omega arith) lt))
    | inr there ↦ root-CanStep t (Reach-IsSound r) sent there
  ],
  λ u run. omega (arith, moves-le run, weight-le t),
)
