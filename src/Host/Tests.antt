-- ===== src/Host/Tests.antt =====
-- tellus/src/host.rs: the theorems at test data.
use tellus.Prelude.{ℕ, ◌+◌, ◌≡◌, refl, true, some, List, [], ◌∷◌, ◌++◌, arith}
use tellus.Prelude.Dict.{nat_key, lookup}
use tellus.Actor.{ActorId, message, terminated}
use tellus.Host.{HostConfig, live, stopping, State, Surroundings, receive}
use tellus.Host.Hosting.{IsHosting, receive-IsHosting}
use tellus.Host.Buffering.{route_all, route_all-terminated}

-- The next actor's ID, and what was told to whom.
abbrev World : Type 0
World = ℕ × List (ActorId × ℕ)

abbrev surroundings : Surroundings World ℕ ℕ
surroundings = record {
  spawn_entity = λ w k. (w.0, (w.0 + 1, w.1));
  spawn_ticker = λ w idle. (w.0, (w.0 + 1, w.1));
  tell = λ w actor m. (w.0, w.1 ++ (actor, m) ∷ []);
  try_tell = λ w actor m. (true, (w.0, w.1 ++ (actor, m) ∷ []));
  try_tell_forced = λ w actor m. (true, (w.0, w.1 ++ (actor, m) ∷ []));
  now = λ w. 0;
  dead_letter = λ w actor. w;
}

abbrev config : HostConfig
config = record { idle_timeout = some 10; buffer = 2 }

-- One entity that stops.
abbrev one : State ℕ ℕ
one = record { entries = (5, stopping 1 []) ∷ []; keys = (1, 5) ∷ []; ticker = some 0 }

one-IsHosting : IsHosting config one
unfolding lookup
one-IsHosting = record { agree = λ k id. ground arith; fits = λ k. ground arith }

receive-IsHosting_example :
    IsHosting config
      (receive config 0 surroundings one (2, []) (message (record { key = 7; message = 3 }))).0
unfolding lookup
receive-IsHosting_example =
    receive-IsHosting config 0 surroundings one (2, []) (message (record { key = 7; message = 3 }))
      one-IsHosting (λ k. refl)

route_all-terminated_example :
    let waiting = route_all config 0 surroundings (one, (2, [])) 5 (8 ∷ 9 ∷ []) in
    let r = receive config 0 surroundings waiting.0 waiting.1 (terminated 1) in
    (waiting.1 ≡ (2, []))
    × (r.1.1 ≡ (2, 8) ∷ (2, 9) ∷ [])
    × (lookup 5 r.0.entries ≡ some (live 2 0))
unfolding lookup
route_all-terminated_example =
    route_all-terminated config 0 surroundings (λ w. w.1) one (2, []) 5 1 (8 ∷ 9 ∷ [])
      (record { told-try_tell_forced = λ w actor m. refl; told-dead_letter = λ w actor. refl })
      one-IsHosting refl refl (λ e. cc) (omega arith)
