-- ===== src/Lifecycle/Restarting.antt =====
-- tellus/src/actor_context.rs: how many incarnations an actor that keeps failing has.
use tellus.Prelude.{
  ℕ, suc, ◌+◌, ◌-◌, ◌≤◌, ◌<◌, ◌≡◌, refl, Bool, true, false, List, [], ◌∷◌, length, arith,
}
use tellus.Backoff.{Duration}
use tellus.Config.{RestartPolicy, restart}
use tellus.Supervision.{Parent, await_restart}
use tellus.Actor.{Actor}
use tellus.Lifecycle.{
  Ended, stopped_by_parent, stopped_itself, failed, waiting, Incarnation, Pause, Life, Turns,
  incarnate, goes_on, pausing, life, uptime,
}

-- Each failure comes before the actor has run for `reset_after`.
abbrev pub AllShort : RestartPolicy → List Pause → Type 0
AllShort p [] = Unit
AllShort p (pause ∷ pauses) = (pause.elapsed < p.reset_after) × AllShort p pauses

module _ (A : Actor) where
  granted :
      (p : RestartPolicy) (up : Bool) (elapsed : Duration) (restarts : ℕ) (parent : Parent)
      → elapsed < p.reset_after
      → (await_restart (restart p) (uptime A up elapsed) restarts parent).restarting ≡ true
      → (restarts < p.max_restarts)
        × ((await_restart (restart p) (uptime A up elapsed) restarts parent).restarts
            ≡ restarts + 1)
  unfolding await_restart
  granted p true elapsed restarts parent short h = ground arith
  granted p false elapsed restarts parent short h = ground arith

  goes_on-le :
      (i : Incarnation A.Message) (ended : Ended) (restarting : Bool) (again : Life A.Message)
      (k : ℕ)
      → (restarting ≡ true → length again.incarnations ≤ k)
      → (restarting ≡ true → 0 < k)
      → length (goes_on A i ended restarting again).incarnations ≤ suc k
  unfolding goes_on
  goes_on-le i failed true again k h pos = omega (arith, h refl)
  goes_on-le i failed false again k h pos = omega arith
  goes_on-le i stopped_by_parent restarting again k h pos = omega arith
  goes_on-le i stopped_itself restarting again k h pos = omega arith
  goes_on-le i waiting restarting again k h pos = omega arith

  pausing-le :
      (i : Incarnation A.Message) (ended : Ended) → length (pausing A i ended).incarnations ≡ 1
  unfolding pausing
  pausing-le i failed = omega arith
  pausing-le i stopped_by_parent = omega arith
  pausing-le i stopped_itself = omega arith
  pausing-le i waiting = omega arith

  -- An actor whose incarnations all fail before they have run for `reset_after`, or do not initialise,
  -- has at most one more of them than the policy has restarts left.
  pub incarnations-le :
      (p : RestartPolicy) (pauses : List Pause) (restarts : ℕ) (turns : Turns A)
      → AllShort p pauses
      → restarts ≤ p.max_restarts
      → length (life A (restart p) pauses restarts turns).incarnations + restarts
        ≤ suc p.max_restarts
  unfolding life
  incarnations-le p [] restarts turns short le =
      omega (arith, pausing-le (incarnate A turns) (incarnate A turns).ended)
  incarnations-le p (pause ∷ pauses) restarts turns (now, later) le =
      let i = incarnate A turns in
      let awaited = await_restart (restart p) (uptime A i.up pause.elapsed) restarts pause.parent in
      let yes_if = granted p i.up pause.elapsed restarts pause.parent now in
      let bound =
        goes_on-le i i.ended awaited.restarting (life A (restart p) pauses awaited.restarts i.rest)
          (p.max_restarts - restarts)
          (λ h. omega (
            arith,
            (yes_if h).0,
            (yes_if h).1,
            incarnations-le p pauses awaited.restarts i.rest later
                (omega (arith, (yes_if h).0, (yes_if h).1)),
          ))
          (λ h. omega (arith, (yes_if h).0)) in
      omega (arith, bound)
