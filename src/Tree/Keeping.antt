-- ===== src/Tree/Keeping.antt =====
-- tellus/src/actor_context.rs: the steps that close a generation of stop signals or add an actor keep
-- a tree sound.
use mathlib.Core.Path.{subst}
use tellus.Prelude.{
  ℕ, zero, suc, ◌-◌, ◌<◌, ◌≡◌, refl, ap, sym, ◌∙◌, ◌⊎◌, inl, inr, Bool, true, false, ◌||◌,
  Bool-cases, Option, none, some, nat_eq, nat_eq_iff, arith,
}
use tellus.Actor.{ActorId}
use tellus.Tree.{
  Tree, Node, serving, stopping_children, backing_off, Purpose, to_restart, to_terminate, update,
  spawned, is_terminated, is_open, stop_children, after_closed, holds_receiver, any_holds,
}
use tellus.Tree.Sound.{
  InUse, Kin, Started, IsSound, true-ne-false, Kin-update, update-IsSound, in_use,
}

-- The old generation is the one that is waited for.
pub stop_children-IsSound :
    (t : Tree) (id : ActorId) (purpose : Purpose)
    → IsSound t
    → id < t.size
    → ((t.node id).phase ≡ serving) ⊎ ((t.node id).phase ≡ backing_off)
    → IsSound (update id (stop_children purpose (t.node id)) t)
unfolding stop_children
stop_children-IsSound t id purpose v small (inl e) =
    update-IsSound t id (stop_children purpose (t.node id)) v small refl (omega arith) refl
      (λ h. rw e refl)
      λ c g lt parent alive.
        let k = in_use t c id g v lt parent alive in
        let now : g ≡ (t.node id).stopping_tx =
          subst (λ f. InUse f (t.node id).stopping_tx g) e k.1 in
        omega (arith, now)
stop_children-IsSound t id purpose v small (inr e) =
    update-IsSound t id (stop_children purpose (t.node id)) v small refl (omega arith) refl
      (λ h. rw e refl)
      λ c g lt parent alive.
        let k = in_use t c id g v lt parent alive in
        absurd (subst (λ f. InUse f (t.node id).stopping_tx g) e k.1)

or_left : (a b : Bool) → (a || b) ≡ false → a ≡ false
or_left true b h = cc
or_left false b h = refl

or_right : (a b : Bool) → (a || b) ≡ false → b ≡ false
or_right true b h = cc
or_right false b h = h

any_holds-false :
    (node : ActorId → Node) (id g k c : ℕ)
    → any_holds node id g k ≡ false
    → c < k
    → holds_receiver id g (node c) ≡ false
unfolding any_holds
any_holds-false node id g zero c h lt = absurd (omega arith)
any_holds-false node id g (suc k) c h lt = elim (Bool-cases (nat_eq c k)) [
  | inl e ↦
      let same : c ≡ k = (nat_eq_iff c k).0 e in
      ap (λ j. holds_receiver id g (node j)) same ∙ or_left (holds_receiver id g (node k)) _ h
  | inr e ↦
      any_holds-false node id g k c (or_right (holds_receiver id g (node k)) _ h)
        (ground (arith, e))
]

-- A generation that is closed has no receiver left that a child which is alive could hold.
pub closed_lem :
    (t : Tree) (id g c : ℕ)
    → is_open t id g ≡ false
    → c < t.size
    → (t.node c).parent ≡ some (id, g)
    → is_terminated (t.node c).phase ≡ true
unfolding is_open
closed_lem t id g c h lt parent =
    let none_holds =
      any_holds-false t.node id g t.size c (or_right (nat_eq (t.node id).stopping_rx g) _ h) lt in
    ground (arith, none_holds, parent)

after_closed-Started : (purpose : Purpose) (tx : ℕ) → Started (after_closed purpose) tx
after_closed-Started to_restart tx = tt
after_closed-Started to_terminate tx = tt

pub close-IsSound :
    (t : Tree) (id : ActorId) (purpose : Purpose)
    → IsSound t
    → id < t.size
    → (t.node id).phase ≡ stopping_children purpose
    → is_open t id ((t.node id).stopping_tx - 1) ≡ false
    → IsSound (update id (record (t.node id) { phase = after_closed purpose }) t)
close-IsSound t id purpose v small e closed =
    update-IsSound t id (record (t.node id) { phase = after_closed purpose }) v small
      (v.own id small) (after_closed-Started purpose _) refl (λ h. rw e refl)
      λ c g lt parent alive.
        let k = in_use t c id g v lt parent alive in
        let now : suc g ≡ (t.node id).stopping_tx =
          subst (λ f. InUse f (t.node id).stopping_tx g) e k.1 in
        let before : (t.node id).stopping_tx - 1 ≡ g = omega (arith, now) in
        absurd (
          true-ne-false
            (sym (closed_lem t id g c (sym (ap (is_open t id) before) ∙ closed) lt parent) ∙ alive))

pub wake-IsSound :
    (t : Tree) (id : ActorId)
    → IsSound t
    → id < t.size
    → (t.node id).phase ≡ backing_off
    → IsSound (update id (record (t.node id) { phase = serving }) t)
wake-IsSound t id v small e =
    update-IsSound t id (record (t.node id) { phase = serving }) v small (v.own id small) tt refl
      (λ h. rw e refl)
      λ c g lt parent alive.
        absurd
          (subst (λ f. InUse f (t.node id).stopping_tx g) e (in_use t c id g v lt parent alive).1)

Kin-size :
    (t : Tree) (k : ℕ) (c : ActorId) (o : Option (ActorId × ℕ)) (dead : Bool)
    → Kin t c o dead
    → Kin (record t { size = k }) c o dead
Kin-size t k c none dead h = h
Kin-size t k c (some (p, g)) true h = h
Kin-size t k c (some (p, g)) false h = h

-- A parent is older than its child.
beyond :
    (t : Tree) (c g : ℕ) (o : Option (ActorId × ℕ)) (dead : Bool)
    → c < t.size
    → Kin t c o dead
    → o ≡ some (t.size, g)
    → ⊥
beyond t c g none dead lt k e = cc
beyond t c g (some (p, h)) true lt k e = ground arith
beyond t c g (some (p, h)) false lt k e = ground (arith, k.0)

Kin-fresh :
    (t : Tree) (n : Node) (c : ActorId) (o : Option (ActorId × ℕ)) (dead : Bool)
    → c < t.size
    → Kin t c o dead
    → Kin (update t.size n (record t { size = suc t.size })) c o dead
Kin-fresh t n c o dead lt k =
    Kin-update (record t { size = suc t.size }) t.size n c o dead
      (Kin-size t (suc t.size) c o dead k) λ g e now. absurd (beyond t c g o dead lt k e)

pub spawn-IsSound :
    (t : Tree) (id : ActorId)
    → IsSound t
    → id < t.size
    → (t.node id).phase ≡ serving
    → IsSound (
        update t.size
          (spawned (some (id, (t.node id).stopping_rx)))
          (record t { size = suc t.size }))
spawn-IsSound t id v small e =
    let other : nat_eq t.size id ≡ false = ground arith in
    let own_rx : (t.node id).stopping_rx ≡ (t.node id).stopping_tx = v.own id small in
    record {
      rooted = omega arith;
      own = λ c lt. elim (Bool-cases (nat_eq t.size c)) [
        | inl f ↦ rw f refl
        | inr f ↦ rw f (v.own c (ground (arith, f)))
      ];
      started = λ c lt. elim (Bool-cases (nat_eq t.size c)) [
        | inl f ↦ rw f tt
        | inr f ↦ rw f (v.started c (ground (arith, f)))
      ];
      kin = λ c lt. elim (Bool-cases (nat_eq t.size c)) [
        | inl f ↦ rw (f, other) (ground (arith, f), rw e own_rx)
        | inr f ↦ rw f (
            Kin-fresh t (spawned (some (id, (t.node id).stopping_rx))) c (t.node c).parent
              (is_terminated (t.node c).phase) (ground (arith, f)) (v.kin c (ground (arith, f))))
      ];
    }
