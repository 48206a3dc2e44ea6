-- ===== src/Task/Order.antt =====
-- tellus/src/actor_context.rs, the task of `spawn`: what is sent to an actor and what it handles.
use mathlib.Core.List.{append_assoc}
use tellus.Prelude.{
  ◌≡◌, refl, ap, sym, ◌∙◌, Bool, true, false, Option, none, some, List, [], ◌∷◌, ◌++◌, append_nil,
}
use tellus.Backoff.{Duration}
use tellus.Config.{SupervisionStrategy}
use tellus.Supervision.{Parent}
use tellus.Actor.{ActorId, Incoming}
use tellus.Channel.{Channel, IsChannel}
use tellus.Mailbox.Queued.{messages_of, try_send_message-queued}
use tellus.Watching.{Watching, next_incoming}
use tellus.Watching.Handing.{queued, terminates-queued}
use tellus.Task.{
  Acting, Phase, starting, serving, failed, stopping, dropping_mailbox, unwatching,
  stopping_children, signalling, over, Move, arrives, other_terminates, other_watches,
  other_unwatches, goes_on, Task, handle, serve, drain_mailbox, drop_mailbox, drop_watched,
  signal_watchers, advance, own_registry, step, run,
}
use tellus.Task.Line.{
  line, front, IsUndropped, none_dropped, line-front, accepted_all, accepted_going, accepted,
  all_accepted, act_all-line, serve-line,
}

module _ {Sink : Type 0} (A : Acting) (C : Channel (Incoming A.Message)) (L : IsChannel C)
    (self_id : ActorId) (own_sink : Sink) (strategy : SupervisionStrategy) where
  abbrev TaskOf : Type 0
  TaskOf = Task A C self_id own_sink strategy

  abbrev Context : Type 0
  Context = Watching C self_id own_sink

  abbrev waiting : Context → List A.Message
  waiting s = queued C L self_id own_sink s

  abbrev line_of : TaskOf → List A.Message
  line_of t = line A C L self_id own_sink strategy t

  abbrev front_of : TaskOf → List A.Message
  front_of t = front A C L self_id own_sink strategy t

  abbrev going : Phase A.State → Bool → Context → List A.Message
  going p stopped s = accepted_going A C L self_id own_sink strategy p stopped s

  abbrev accepted_by : Move A.Message Sink self_id → TaskOf → List A.Message
  accepted_by m t = accepted A C L self_id own_sink strategy m t

  abbrev Undropped : Phase A.State → List (Incoming A.Message) → Type 0
  Undropped p dropped = IsUndropped A C L self_id own_sink strategy p dropped

  dropped-handle :
      (state : A.State) (o : Option (Incoming A.Message)) (s : Context) (t : TaskOf)
      → (handle A C self_id own_sink strategy state (o, s) t).dropped ≡ t.dropped
  unfolding handle
  dropped-handle state none s t = refl
  dropped-handle state (some incoming) s t = refl

  dropped-serve :
      (state : A.State) (stopped : Bool) (t : TaskOf)
      → (serve A C self_id own_sink strategy state stopped t).dropped ≡ t.dropped
  unfolding serve
  dropped-serve state true t = refl
  dropped-serve state false t =
      let (o, s) = next_incoming C self_id own_sink t.context in dropped-handle state o s t

  record IsGoing (p : Phase A.State) (stopped : Bool) (t t' : TaskOf) : Type 0 where
    grown : line_of t' ≡ line_of t ++ going p stopped t.context
    undropped : Undropped t'.phase t'.dropped

  -- A step that drops nothing, of a task that has dropped nothing.
  front-IsGoing :
      (p : Phase A.State) (stopped : Bool) (t t' : TaskOf)
      → t.dropped ≡ []
      → t'.dropped ≡ t.dropped
      → front_of t' ≡ front_of t ++ going p stopped t.context
      → IsGoing p stopped t t'
  front-IsGoing p stopped t t' e same h = record {
    grown =
        line-front A C L self_id own_sink strategy t' (same ∙ e)
        ∙ h
        ∙ ap (λ xs. xs ++ going p stopped t.context)
            (sym (line-front A C L self_id own_sink strategy t e));
    undropped = none_dropped A C L self_id own_sink strategy t'.phase t'.dropped (same ∙ e);
  }

  drained-line :
      (t : TaskOf)
      → t.dropped ≡ []
      → line_of (drain_mailbox A C self_id own_sink strategy t) ≡ line_of t ++ []
  unfolding drain_mailbox
  drained-line t e =
      let c = (C.drain t.context.mailbox.1).1 in
      let (all, rest) = L.drained t.context.mailbox.1 in
      ap (λ xs. messages_of t.handled ++ (messages_of xs ++ messages_of (L.contents c))) all
      ∙ ap (λ xs. messages_of t.handled ++ (waiting t.context ++ messages_of xs)) rest
      ∙ ap (λ xs. messages_of t.handled ++ xs) (append_nil (waiting t.context))
      ∙ sym (line-front A C L self_id own_sink strategy t e)
      ∙ sym (append_nil (line_of t))

  advance-IsGoing :
      (p : Phase A.State) (stopped : Bool) (elapsed : Duration) (parent : Parent) (t : TaskOf)
      → t.phase ≡ p
      → Undropped p t.dropped
      → IsGoing p stopped t (advance A C self_id own_sink strategy p stopped elapsed parent t)
  unfolding advance drop_mailbox drop_watched signal_watchers
  advance-IsGoing starting stopped elapsed parent t q e =
      front-IsGoing starting stopped t _ e refl (
        ap (λ xs. messages_of t.handled ++ xs)
          (act_all-line A C L self_id own_sink strategy A.init.0 t.context)
        ∙ sym (
            append_assoc (messages_of t.handled) (waiting t.context)
              (accepted_all A C L self_id own_sink strategy A.init.0 t.context)))
  advance-IsGoing (serving state) stopped elapsed parent t q e =
      front-IsGoing (serving state) stopped t _ e (dropped-serve state stopped t)
        (serve-line A C L self_id own_sink strategy state stopped t)
  advance-IsGoing (failed up) stopped elapsed parent t q e =
      front-IsGoing (failed up) stopped t _ e refl (sym (append_nil (front_of t)))
  advance-IsGoing stopping stopped elapsed parent t q e = record {
    grown = drained-line t e;
    undropped = unfold drain_mailbox in tt;
  }
  advance-IsGoing dropping_mailbox stopped elapsed parent t q e = record {
    grown =
        ap (λ xs. messages_of t.handled ++ (messages_of t.dropped ++ messages_of xs))
          (L.contents-disconnect t.context.mailbox.1)
        ∙ sym (append_nil (line_of t));
    undropped = tt;
  }
  advance-IsGoing unwatching stopped elapsed parent t q e = record {
    grown = sym (append_nil (line_of t));
    undropped = tt;
  }
  advance-IsGoing stopping_children stopped elapsed parent t q e = record {
    grown = sym (append_nil (line_of t));
    undropped = tt;
  }
  advance-IsGoing signalling stopped elapsed parent t q e = record {
    grown = sym (append_nil (line_of t));
    undropped = tt;
  }
  advance-IsGoing over stopped elapsed parent t q e = record {
    grown = sym (append_nil (line_of t));
    undropped = rw q tt;
  }

  -- A step at the end of what is queued.
  behind :
      (t : TaskOf) (xs ys : List A.Message)
      → xs ≡ waiting t.context ++ ys
      → messages_of t.handled ++ (messages_of t.dropped ++ xs) ≡ line_of t ++ ys
  behind t xs ys e = cc (
    e,
    append_assoc (messages_of t.dropped) (waiting t.context) ys,
    append_assoc (messages_of t.handled) (messages_of t.dropped ++ waiting t.context) ys,
  )

  record IsGrown (m : Move A.Message Sink self_id) (t t' : TaskOf) : Type 0 where
    grown : line_of t' ≡ line_of t ++ accepted_by m t
    undropped : Undropped t'.phase t'.dropped

  step-IsGrown :
      (m : Move A.Message Sink self_id) (t : TaskOf)
      → Undropped t.phase t.dropped
      → IsGrown m t (step A C self_id own_sink strategy m t)
  unfolding step own_registry
  step-IsGrown (arrives m) t v = record {
    grown = behind t _ _ (try_send_message-queued C L m t.context.mailbox);
    undropped = v;
  }
  step-IsGrown (other_terminates other n) t v = record {
    grown = behind t _ [] (
        terminates-queued C L self_id own_sink other t.context
        ∙ sym (append_nil (waiting t.context)));
    undropped = v;
  }
  step-IsGrown (other_watches i sink n) t v = record {
    grown = sym (append_nil (line_of t));
    undropped = v;
  }
  step-IsGrown (other_unwatches i n) t v = record {
    grown = sym (append_nil (line_of t));
    undropped = v;
  }
  step-IsGrown (goes_on stopped elapsed parent) t v =
      let going = advance-IsGoing t.phase stopped elapsed parent t refl v in
      record { grown = going.grown; undropped = going.undropped }

  -- From a task that has dropped nothing, unless it has drained its mailbox already: in every run, the
  -- messages that the actor has handled, followed by those that `terminate` has drained and then by
  -- those that stand in the channel, are those that stood there before, followed by those that the
  -- mailbox has accepted since, of others and of the actor itself, in the order in which it accepted
  -- them. So a message that is accepted is handled, in its turn and once, or it is behind all that
  -- are handled: it waits, or `terminate` has drained it, or it has slipped past the drain. None is
  -- lost, handled twice or overtaken where the actor fails and restarts, or by watching.
  pub run-line :
      (ms : List (Move A.Message Sink self_id)) (t : Task A C self_id own_sink strategy)
      → IsUndropped A C L self_id own_sink strategy t.phase t.dropped
      → line A C L self_id own_sink strategy (run A C self_id own_sink strategy ms t)
        ≡ line A C L self_id own_sink strategy t
          ++ all_accepted A C L self_id own_sink strategy ms t
  run-line [] t v = sym (append_nil (line_of t))
  run-line (m ∷ ms) t v =
      let t' = step A C self_id own_sink strategy m t in
      let one = step-IsGrown m t v in
      run-line ms t' one.undropped
      ∙ ap (λ xs. xs ++ all_accepted A C L self_id own_sink strategy ms t') one.grown
      ∙ append_assoc (line_of t) (accepted_by m t)
          (all_accepted A C L self_id own_sink strategy ms t')
