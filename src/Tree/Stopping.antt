-- ===== src/Tree/Stopping.antt =====
-- tellus/src/actor_context.rs and tellus/src/actor_system.rs: children are gone before their parent
-- is, and a system that is told to stop can.
use tellus.Prelude.{ℕ, ◌<◌, ◌≡◌, inl, inr, true, Bool-cases, some, arith}
use tellus.Actor.{ActorId}
use tellus.Tree.{
  Tree, Phase, serving, stopping_children, backing_off, terminated, is_terminated, Reach,
}
use tellus.Tree.Steps.{Reach-IsSound}
use tellus.Tree.Sound.{InUse, IsSound, in_use}

-- The actors below an actor: its children, their children and so on.
pub data Descends (t : Tree) (p : ActorId) : ActorId → Type 0 where
  child : (c g : ℕ) → c < t.size → (t.node c).parent ≡ some (p, g) → Descends t p c
  further :
      {q : ActorId}
      → Descends t p q
      → (c g : ℕ) → c < t.size
      → (t.node c).parent ≡ some (q, g)
      → Descends t p c

-- No child that is alive can hold a receiver.
abbrev pub AllGone : Phase → Type 0
AllGone serving = ⊥
AllGone (stopping_children p) = ⊥
AllGone backing_off = Unit
AllGone terminated = Unit

not-InUse : (f : Phase) (tx g : ℕ) → AllGone f → InUse f tx g → ⊥
not-InUse serving tx g a h = absurd a
not-InUse (stopping_children purpose) tx g a h = absurd a
not-InUse backing_off tx g a h = h
not-InUse terminated tx g a h = h

pub child_gone :
    (t : Tree) (c p g : ℕ)
    → IsSound t
    → c < t.size
    → (t.node c).parent ≡ some (p, g)
    → AllGone (t.node p).phase
    → is_terminated (t.node c).phase ≡ true
child_gone t c p g v lt parent gone = elim (Bool-cases (is_terminated (t.node c).phase)) [
  | inl e ↦ e
  | inr e ↦
      absurd
        (not-InUse (t.node p).phase (t.node p).stopping_tx g gone (in_use t c p g v lt parent e).1)
]

pub gone_of_terminated : (f : Phase) → is_terminated f ≡ true → AllGone f
gone_of_terminated terminated h = tt
gone_of_terminated backing_off h = tt
gone_of_terminated serving h = absurd (ground arith)
gone_of_terminated (stopping_children p) h = absurd (ground arith)

-- Children first: wherever an actor has terminated, or waits for the backoff of a restart, every actor
-- below it has terminated.
pub children_first :
    {t : Tree} (p : ActorId) {c : ActorId}
    → Reach t
    → AllGone (t.node p).phase
    → Descends t p c
    → is_terminated (t.node c).phase ≡ true
children_first {t} p r gone (child c g lt parent) =
    child_gone t c p g (Reach-IsSound r) lt parent gone
children_first {t} p r gone (further {q} d c g lt parent) =
    child_gone t c q g (Reach-IsSound r) lt parent
      (gone_of_terminated (t.node q).phase (children_first p {c = q} r gone d))
