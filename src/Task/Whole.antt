-- ===== src/Task/Whole.antt =====
-- tellus/src/actor_context.rs: whatever an actor and the others do, in every order, up to the end of
-- the actor's task.
use tellus.Prelude.{
  ℕ, ◌≡◌, refl, ap, Bool, true, false, Bool-cases, inl, inr, Option, none, some, List, [], ◌∷◌,
  nat_eq, nat_eq_iff, if◌then◌else◌, catch_and_log,
}
use tellus.Prelude.Dict.{nat_key, lookup}
use tellus.Config.{SupervisionStrategy}
use tellus.Backoff.{Duration}
use tellus.Supervision.{Parent, await_restart}
use tellus.Actor.{ActorId, Incoming, Control, continue, stop}
use tellus.Channel.{Channel, IsChannel}
use tellus.Mailbox.Registry.{take_watchers}
use tellus.Mailbox.Registry.Closing.{take_watchers-closed}
use tellus.Watching.{Watching, unwatch, next_incoming}
use tellus.Watching.Delivery.{registered, IsWatching}
use tellus.Watching.Runs.{watch-IsWatching, unwatch_known-IsWatching, next_incoming-IsWatching}
use tellus.Watching.Tidy.{IsTidy, watch-IsTidy, unwatch-IsTidy, next_incoming-IsTidy}
use tellus.Task.{
  Action, watches, unwatches, tells_self, Acting, Phase, starting, serving, failed, stopping,
  dropping_mailbox, unwatching, stopping_children, signalling, over, Task, act, act_all,
  initialized, decided, restarting, handle, serve, drain_mailbox, drop_mailbox, drop_watched,
  signal_watchers, advance,
}
use tellus.Task.Sending.{told-IsWatching, told-IsTidy}
use tellus.Task.Leaving.{registered-drop_watched}

module _ {Sink : Type 0} (A : Acting) (C : Channel (Incoming A.Message)) (L : IsChannel C)
    (self_id : ActorId) (own_sink : Sink) (strategy : SupervisionStrategy) where
  abbrev Context : Type 0
  Context = Watching C self_id own_sink

  abbrev stands_in : Context → ActorId → ℕ
  stands_in s j = registered C L self_id own_sink (s.registries j)

  -- Until `terminate`.
  pub record IsUp (s : Watching C self_id own_sink) : Type 0 where
    pub watching : IsWatching C L self_id own_sink s
    pub tidy : IsTidy C L self_id own_sink s

  -- The mailbox is drained.
  pub record IsDrained (s : Watching C self_id own_sink) : Type 0 where
    pub noted : (j : ActorId) → stands_in s j ≡ 1 → lookup j s.watched ≡ some tt

  -- The mailbox is dropped: sends fail.
  pub record IsDropped (s : Watching C self_id own_sink) : Type 0 where
    pub gone : C.is_disconnected s.mailbox.1 ≡ true
    pub noted : (j : ActorId) → stands_in s j ≡ 1 → lookup j s.watched ≡ some tt

  -- And no one is watched.
  pub record IsLeft (s : Watching C self_id own_sink) : Type 0 where
    pub gone : C.is_disconnected s.mailbox.1 ≡ true
    pub nowhere : (j : ActorId) → registered C L self_id own_sink (s.registries j) ≡ 0

  abbrev pub IsWhole : Phase A.State → Watching C self_id own_sink → Type 0
  IsWhole starting s = IsUp s
  IsWhole (serving state) s = IsUp s
  IsWhole (failed up) s = IsUp s
  IsWhole stopping s = IsUp s
  IsWhole dropping_mailbox s = IsDrained s
  IsWhole unwatching s = IsDropped s
  IsWhole stopping_children s = IsLeft s
  IsWhole signalling s = IsLeft s
  IsWhole over s = IsLeft s × (s.registries self_id ≡ none)

  act-IsUp :
      (a : Action A.Message) (s : Context) → IsUp s → IsUp (act A C self_id own_sink strategy a s)
  unfolding act unwatch
  act-IsUp (watches other) s v = record {
    watching = watch-IsWatching C L self_id own_sink other s v.watching;
    tidy = watch-IsTidy C L self_id own_sink other s v.watching.connected v.tidy;
  }
  act-IsUp (unwatches other) s v = record {
    watching =
        unwatch_known-IsWatching C L self_id own_sink (lookup other s.watched) other s v.watching;
    tidy = unwatch-IsTidy C L self_id own_sink other s v.tidy;
  }
  act-IsUp (tells_self m) s v = record {
    watching = told-IsWatching C L self_id own_sink m s v.watching;
    tidy = told-IsTidy C L self_id own_sink m s v.watching.connected v.tidy;
  }

  act_all-IsUp :
      (actions : List (Action A.Message)) (s : Context)
      → IsUp s
      → IsUp (act_all A C self_id own_sink strategy actions s)
  unfolding act_all
  act_all-IsUp [] s v = v
  act_all-IsUp (a ∷ rest) s v =
      act_all-IsUp rest (act A C self_id own_sink strategy a s) (act-IsUp a s v)

  abbrev TaskOf : Type 0
  TaskOf = Task A C self_id own_sink strategy

  abbrev Holds : TaskOf → Type 0
  Holds t = IsWhole t.phase t.context

  initialized-IsWhole :
      (o : Option A.State) (s : Context)
      → IsUp s
      → IsWhole (initialized A C self_id own_sink strategy o) s
  unfolding initialized
  initialized-IsWhole none s v = v
  initialized-IsWhole (some state) s v = v

  decided-IsWhole :
      (o : Option (Control A.State)) (s : Context)
      → IsUp s
      → IsWhole (decided A C self_id own_sink strategy o) s
  unfolding decided
  decided-IsWhole none s v = v
  decided-IsWhole (some (continue state)) s v = v
  decided-IsWhole (some stop) s v = v

  restarting-IsWhole :
      (b : Bool) (s : Context) → IsUp s → IsWhole (restarting A C self_id own_sink strategy b) s
  unfolding restarting
  restarting-IsWhole true s v = v
  restarting-IsWhole false s v = v

  handle-IsWhole :
      (state : A.State) (o : Option (Incoming A.Message)) (s : Context) (t : TaskOf)
      → t.phase ≡ serving state
      → IsUp s
      → Holds (handle A C self_id own_sink strategy state (o, s) t)
  unfolding handle
  handle-IsWhole state none s t e v = rw e v
  handle-IsWhole state (some incoming) s t e v =
      let (actions, reply) = A.receive incoming state in
      decided-IsWhole (catch_and_log reply) (act_all A C self_id own_sink strategy actions s)
        (act_all-IsUp actions s v)

  serve-IsWhole :
      (state : A.State) (stopped : Bool) (t : TaskOf)
      → t.phase ≡ serving state
      → IsUp t.context
      → Holds (serve A C self_id own_sink strategy state stopped t)
  unfolding serve
  serve-IsWhole state true t e v = v
  serve-IsWhole state false t e v =
      let (o, s) = next_incoming C self_id own_sink t.context in
      handle-IsWhole state o s t e (record {
        watching = next_incoming-IsWatching C L self_id own_sink t.context v.watching;
        tidy = next_incoming-IsTidy C L self_id own_sink t.context v.tidy;
      })

  signal_watchers-IsWhole :
      (t : TaskOf)
      → IsLeft t.context
      → Holds (
          signal_watchers A C self_id own_sink strategy
            (take_watchers (t.context.registries self_id))
            t)
  unfolding signal_watchers
  signal_watchers-IsWhole t v =
      let r = take_watchers-closed (t.context.registries self_id) in
      (
        record {
          gone = v.gone;
          nowhere = λ j. elim (Bool-cases (nat_eq self_id j)) [
            | inl e ↦ rw e (ap (registered C L self_id own_sink) r)
            | inr e ↦ rw e (v.nowhere j)
          ];
        },
        rw ((nat_eq_iff self_id self_id).1 refl) r,
      )

  pub advance-IsWhole :
      (p : Phase A.State) (stopped : Bool) (elapsed : Duration) (parent : Parent) (t : TaskOf)
      → t.phase ≡ p
      → IsWhole p t.context
      → Holds (advance A C self_id own_sink strategy p stopped elapsed parent t)
  unfolding advance drain_mailbox drop_mailbox
  advance-IsWhole starting stopped elapsed parent t e v =
      let (actions, reply) = A.init in
      initialized-IsWhole (catch_and_log reply)
        (act_all A C self_id own_sink strategy actions t.context) (act_all-IsUp actions t.context v)
  advance-IsWhole (serving state) stopped elapsed parent t e v = serve-IsWhole state stopped t e v
  advance-IsWhole (failed up) stopped elapsed parent t e v =
      restarting-IsWhole
        (await_restart strategy (if up then some elapsed else none) t.restarts parent).restarting
        t.context v
  advance-IsWhole stopping stopped elapsed parent t e v = record { noted = v.tidy.noted }
  advance-IsWhole dropping_mailbox stopped elapsed parent t e v = record {
    gone = L.is_disconnected-disconnect t.context.mailbox.1;
    noted = v.noted;
  }
  advance-IsWhole unwatching stopped elapsed parent t e v = record {
    gone = (unfold drop_watched in v.gone);
    nowhere = λ j. registered-drop_watched A C L self_id own_sink strategy t.context j (v.noted j);
  }
  advance-IsWhole stopping_children stopped elapsed parent t e v = v
  advance-IsWhole signalling stopped elapsed parent t e v = signal_watchers-IsWhole t v
  advance-IsWhole over stopped elapsed parent t e v = rw e v
