-- ===== src/Tree/Sound.antt =====
-- tellus/src/actor_context.rs: in every tree that can be reached, a child that is alive was spawned by
-- the incarnation of its parent that runs, or is being waited for.
use mathlib.Core.Path.{subst}
use tellus.Prelude.{
  ℕ, suc, ◌<◌, ◌≡◌, ◌≢◌, refl, ap, sym, inl, inr, Bool, true, false, Bool-cases, Option, none, some,
  nat_eq, nat_eq_iff, arith,
}
use tellus.Actor.{ActorId}
use tellus.Tree.{
  Tree, Node, Phase, serving, stopping_children, backing_off, terminated, update, is_terminated,
  new_system,
}

-- Whether a receiver of the generation `g` may be left, where the parent has the sender `tx`.
abbrev pub InUse : Phase → ℕ → ℕ → Type 0
InUse serving tx g = g ≡ tx
InUse (stopping_children purpose) tx g = suc g ≡ tx
InUse backing_off tx g = ⊥
InUse terminated tx g = ⊥

abbrev pub Kin : Tree → ActorId → Option (ActorId × ℕ) → Bool → Type 0
Kin t c none dead = c ≡ 0
Kin t c (some (p, g)) true = p < c
Kin t c (some (p, g)) false = (p < c) × InUse (t.node p).phase (t.node p).stopping_tx g

-- Who waits for children has sent a signal.
abbrev pub Started : Phase → ℕ → Type 0
Started (stopping_children purpose) tx = 0 < tx
Started serving tx = Unit
Started backing_off tx = Unit
Started terminated tx = Unit

pub record IsSound (t : Tree) : Type 0 where
  pub rooted : 0 < t.size
  pub own : (c : ActorId) → c < t.size → (t.node c).stopping_rx ≡ (t.node c).stopping_tx
  pub started : (c : ActorId) → c < t.size → Started (t.node c).phase (t.node c).stopping_tx
  pub kin : (c : ActorId) → c < t.size → Kin t c (t.node c).parent (is_terminated (t.node c).phase)

pub true-ne-false : ◌≢◌ {A = Bool} true false
true-ne-false h = cc

module _ (t : Tree) (id : ActorId) (n : Node) where
  pub Kin-update :
      (c : ActorId) (o : Option (ActorId × ℕ)) (dead : Bool)
      → Kin t c o dead
      → ((g : ℕ) → o ≡ some (id, g) → dead ≡ false → InUse n.phase n.stopping_tx g)
      → Kin (update id n t) c o dead
  Kin-update c none dead k used = k
  Kin-update c (some (p, g)) true k used = k
  Kin-update c (some (p, g)) false (lt, k) used = elim (Bool-cases (nat_eq id p)) [
    | inl e ↦
        let same : id ≡ p = (nat_eq_iff id p).0 e in
        (lt, rw e (used g (ap (λ i. some (i, g)) (sym same)) refl))
    | inr e ↦ (lt, rw e k)
  ]

  Kin-weaken :
      (c : ActorId) (o : Option (ActorId × ℕ)) (dead now : Bool)
      → Kin t c o dead
      → (now ≡ false → dead ≡ false)
      → Kin t c o now
  Kin-weaken c none dead now k alive = k
  Kin-weaken c (some (p, g)) true true k alive = k
  Kin-weaken c (some (p, g)) true false k alive = absurd (true-ne-false (alive refl))
  Kin-weaken c (some (p, g)) false true k alive = k.0
  Kin-weaken c (some (p, g)) false false k alive = k

  -- A node that changes in place, but for its parent.
  pub update-IsSound :
      IsSound t
      → id < t.size
      → n.stopping_rx ≡ n.stopping_tx
      → Started n.phase n.stopping_tx
      → n.parent ≡ (t.node id).parent
      → (is_terminated n.phase ≡ false → is_terminated (t.node id).phase ≡ false)
      → ((c g : ℕ)
          → c < t.size
          → (t.node c).parent ≡ some (id, g)
          → is_terminated (t.node c).phase ≡ false
          → InUse n.phase n.stopping_tx g)
      → IsSound (update id n t)
  update-IsSound v small own started parent alive used =
      let changed : Kin (update id n t) id n.parent (is_terminated n.phase) =
        subst (λ o. Kin (update id n t) id o (is_terminated n.phase)) (sym parent)
          (Kin-update id (t.node id).parent (is_terminated n.phase)
            (Kin-weaken id (t.node id).parent (is_terminated (t.node id).phase)
              (is_terminated n.phase) (v.kin id small) alive)
            (λ g e now. used id g small e (alive now))) in
      record {
        rooted = v.rooted;
        own = λ c lt. elim (Bool-cases (nat_eq id c)) [
          | inl e ↦ rw e own
          | inr e ↦ rw e (v.own c lt)
        ];
        started = λ c lt. elim (Bool-cases (nat_eq id c)) [
          | inl e ↦ rw e started
          | inr e ↦ rw e (v.started c lt)
        ];
        kin = λ c lt. elim (Bool-cases (nat_eq id c)) [
          | inl e ↦ rw e (
              subst (λ k. Kin (update id n t) k n.parent (is_terminated n.phase))
                ((nat_eq_iff id c).0 e) changed)
          | inr e ↦ rw e (
              Kin-update c (t.node c).parent (is_terminated (t.node c).phase) (v.kin c lt)
                (λ g parent' now. used c g lt parent' now))
        ];
      }

pub new_system-IsSound : IsSound new_system
new_system-IsSound = record {
  rooted = omega arith;
  own = λ c lt. refl;
  started = λ c lt. tt;
  kin = λ c lt. omega arith;
}

-- What a child that is alive says of its parent.
pub in_use :
    (t : Tree) (c p g : ℕ)
    → IsSound t
    → c < t.size
    → (t.node c).parent ≡ some (p, g)
    → is_terminated (t.node c).phase ≡ false
    → (p < c) × InUse (t.node p).phase (t.node p).stopping_tx g
in_use t c p g v lt parent alive =
    subst (λ d. Kin t c (some (p, g)) d) alive
      (subst (λ o. Kin t c o (is_terminated (t.node c).phase)) parent (v.kin c lt))
