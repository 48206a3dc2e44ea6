-- ===== src/Supervision/Tests.antt =====
-- tellus/src/actor_context.rs, the supervision: the theorems at test data.
use tellus.Prelude.{◌+◌, ◌≡◌, none, some, [], ◌∷◌, arith, get_elem?}
use tellus.Config.{RestartPolicy, restart, default_backoff}
use tellus.Supervision.Streak.{decisions, promised, decisions-eq-promised}

abbrev twice : RestartPolicy
twice = record { max_restarts = 2; backoff = default_backoff; reset_after = 30 }

decisions-eq-promised_example :
    get_elem? (decisions (restart twice) 0 (none ∷ some 29 ∷ some 1 ∷ [])) 2
    ≡ some (promised twice (0 + 2))
decisions-eq-promised_example =
    decisions-eq-promised twice 0 (none ∷ some 29 ∷ some 1 ∷ []) 2 (omega arith)
      (tt, (omega arith, (omega arith, tt))) (omega arith)
