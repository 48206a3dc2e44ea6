-- ===== src/Supervision/Streak.antt =====
-- tellus/src/actor_context.rs, `next_restart`: the decisions over the failures of one actor.
use native.Mathlib.Decide.{dec_lt}
use tellus.Prelude.{
  ℕ, zero, suc, ◌+◌, ◌≤◌, ◌<◌, ◌≡◌, refl, Option, none, some, List, [], ◌∷◌, length, get_elem?, ltb,
  map, ap, ◌∙◌, arith, if◌then◌else◌,
}
use tellus.Backoff.{Duration, duration, IsValid}
use tellus.Backoff.Bounds.{duration-zero}
use tellus.Config.{RestartPolicy, SupervisionStrategy, restart}
use tellus.Supervision.{Restart, after, limit_exceeded, next_restart}

-- The decisions for a row of failures, each with how long the actor had been up.
pub decisions : SupervisionStrategy → ℕ → List (Option Duration) → List Restart
decisions s n [] = []
decisions s n (u ∷ us) = (next_restart s u n).0 ∷ decisions s (next_restart s u n).1 us

-- The actor failed before it had run for `reset_after`, or did not initialise at all.
abbrev pub IsShort : RestartPolicy → Option Duration → Type 0
IsShort p none = Unit {0}
IsShort p (some u) = u < p.reset_after

abbrev pub IsStreak : RestartPolicy → List (Option Duration) → Type 0
IsStreak p [] = Unit {0}
IsStreak p (u ∷ us) = IsShort p u × IsStreak p us

-- What the documentation of `RestartPolicy` promises for the failure at a position of a streak.
abbrev pub promised : RestartPolicy → ℕ → Restart
promised p n = if ltb n p.max_restarts then after (duration p.backoff n) else limit_exceeded

next_in_streak_lem :
    (p : RestartPolicy) (u : Option Duration) (n : ℕ)
    → IsShort p u
    → n ≤ p.max_restarts
    → ((next_restart (restart p) u n).0 ≡ promised p n)
      × ((next_restart (restart p) u n).1 ≡ (if ltb n p.max_restarts then n + 1 else n))
unfolding next_restart
next_in_streak_lem p none n short le = ground arith
next_in_streak_lem p (some u) n short le = ground arith

-- The counter never passes the limit, so it never leaves the range of a `u32`.
pub next_restart-le :
    (p : RestartPolicy) (u : Option Duration) (n : ℕ)
    → n ≤ p.max_restarts
    → (next_restart (restart p) u n).1 ≤ p.max_restarts
unfolding next_restart
next_restart-le p none n le = ground arith
next_restart-le p (some u) n le = ground arith

promised_next :
    (p : RestartPolicy) (u : Option Duration) (n i : ℕ)
    → IsShort p u
    → n ≤ p.max_restarts
    → promised p ((next_restart (restart p) u n).1 + i) ≡ promised p (n + suc i)
promised_next p u n i short le = elim (dec_lt n p.max_restarts) [
  | yes more ↦ ap (promised p) (ground (arith, (next_in_streak_lem p u n short le).1))
  | no full ↦ ground (arith, (next_in_streak_lem p u n short le).1)
]

-- Over a streak from a counter within the limit, the decision at each position is the promised one:
-- a restart after the backoff's delay for that position below `max_restarts`, and the stop of the
-- actor from there on.
pub decisions-eq-promised :
    (p : RestartPolicy) (n : ℕ) (us : List (Option Duration)) (i : ℕ)
    → n ≤ p.max_restarts
    → IsStreak p us
    → i < length us
    → get_elem? (decisions (restart p) n us) i ≡ some (promised p (n + i))
unfolding decisions
decisions-eq-promised p n [] i le s l = absurd (omega arith)
decisions-eq-promised p n (u ∷ us) zero le (short, s) l =
    ground (arith, next_in_streak_lem p u n short le)
decisions-eq-promised p n (u ∷ us) (suc i) le (short, s) l =
    decisions-eq-promised p (next_restart (restart p) u n).1 us i (next_restart-le p u n le) s
      (omega arith)
    ∙ ap some (promised_next p u n i short le)

abbrev pub AreLong : RestartPolicy → List Duration → Type 0
AreLong p [] = Unit {0}
AreLong p (u ∷ us) = (p.reset_after ≤ u) × AreLong p us

next_restart_long :
    (p : RestartPolicy) (u : Duration) (n : ℕ)
    → 0 < p.max_restarts
    → p.reset_after ≤ u
    → next_restart (restart p) (some u) n ≡ (after (duration p.backoff 0), 1)
unfolding next_restart
next_restart_long p u n pos long = ground arith

-- An actor that runs for at least `reset_after` before each failure is restarted every time,
-- whatever its counter, always after the backoff's minimum.
pub decisions_recovering :
    (p : RestartPolicy) (n : ℕ) (us : List Duration)
    → 0 < p.max_restarts
    → IsValid p.backoff
    → AreLong p us
    → decisions (restart p) n (map some us) ≡ map (λ _. after p.backoff.min) us
unfolding decisions
decisions_recovering p n [] pos v long = refl
decisions_recovering p n (u ∷ us) pos v (l, long) =
    rw (next_restart_long p u n pos l)
      (cc (decisions_recovering p 1 us pos v long, duration-zero p.backoff v))
