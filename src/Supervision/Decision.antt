-- ===== src/Supervision/Decision.antt =====
-- tellus/src/actor_context.rs, `await_restart`: when an actor restarts, and when its children stop.
use tellus.Prelude.{ℕ, ◌≡◌, ◌↔◌, refl, true, false, Option, arith, nat_eq, if◌then◌else◌}
use tellus.Backoff.{Duration}
use tellus.Config.{SupervisionStrategy}
use tellus.Supervision.{
  Restart, after, limit_exceeded, not_configured, next_restart, Parent, unwrap_or_true,
  await_backoff, await_delay, await_decision, await_restart,
}

-- The parent has not stopped the actor by the time the delay is over.
abbrev pub Undisturbed : Duration → Parent → Type 0
Undisturbed delay parent =
    (unwrap_or_true parent.changed_before ≡ false)
    × ((if nat_eq delay 0 then unwrap_or_true parent.changed_after else parent.stop_wins) ≡ false)

delay_iff :
    (d : Duration) (n : ℕ) (parent : Parent)
    → ((await_delay d n parent).restarting ≡ true) ↔ Undisturbed d parent
unfolding await_delay await_backoff
delay_iff d n parent = ground arith

decision_iff :
    (r : Restart) (n : ℕ) (parent : Parent)
    → ((await_decision (r, n) parent).restarting ≡ true)
      ↔ ((d : Duration) × (r ≡ after d) × Undisturbed d parent)
unfolding await_decision
decision_iff (after d) n parent = (
  λ h. (d, refl, (delay_iff d n parent).0 h),
  λ (d', e, calm). (delay_iff d n parent).1 (ground arith),
)
decision_iff limit_exceeded n parent = (λ h. cc, λ (d, e, _). cc)
decision_iff not_configured n parent = (λ h. cc, λ (d, e, _). cc)

-- The actor restarts exactly when the strategy grants a delay and the parent has not stopped it,
-- neither before the children are stopped nor by the end of the delay.
await_restart_iff :
    (s : SupervisionStrategy) (u : Option Duration) (n : ℕ) (parent : Parent)
    → ((await_restart s u n parent).restarting ≡ true)
      ↔ ((d : Duration) × ((next_restart s u n).0 ≡ after d) × Undisturbed d parent)
unfolding await_restart
await_restart_iff s u n parent = decision_iff (next_restart s u n).0 (next_restart s u n).1 parent

decision_children :
    (r : Restart) (n : ℕ) (parent : Parent)
    → ((await_decision (r, n) parent).children_stopped ≡ true)
      ↔ ((d : Duration) × (r ≡ after d) × (unwrap_or_true parent.changed_before ≡ false))
unfolding await_decision await_delay
decision_children (after d) n parent = (λ h. (d, refl, ground arith), λ (d', e, q). rw q refl)
decision_children limit_exceeded n parent = (λ h. cc, λ (d, e, _). cc)
decision_children not_configured n parent = (λ h. cc, λ (d, e, _). cc)

-- The children are stopped exactly when a delay is granted and the parent has not stopped the actor
-- before; and an actor never restarts with its children still running.
pub await_restart-children :
    (s : SupervisionStrategy) (u : Option Duration) (n : ℕ) (parent : Parent)
    → (((await_restart s u n parent).children_stopped ≡ true) ↔ (
        (d : Duration) × ((next_restart s u n).0 ≡ after d)
        × (unwrap_or_true parent.changed_before ≡ false)))
      × ((await_restart s u n parent).restarting ≡ true
          → (await_restart s u n parent).children_stopped ≡ true)
unfolding await_restart
await_restart-children s u n parent = (
  decision_children (next_restart s u n).0 (next_restart s u n).1 parent,
  λ h.
      let (d, e, calm) = (await_restart_iff s u n parent).0 h in
      (decision_children (next_restart s u n).0 (next_restart s u n).1 parent).1 (d, e, calm.0),
)
