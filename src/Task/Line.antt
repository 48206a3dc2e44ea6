-- ===== src/Task/Line.antt =====
-- tellus/src/actor_context.rs, the task of `spawn`: the messages of an actor, in the order in which its
-- mailbox has accepted them.
use mathlib.Core.List.{append_assoc}
use tellus.Prelude.{
  ◌≡◌, ap, sym, ◌∙◌, Bool, true, false, Option, none, some, List, [], ◌∷◌, ◌++◌, append_nil,
}
use tellus.Config.{SupervisionStrategy}
use tellus.Actor.{ActorId, Incoming}
use tellus.Channel.{Channel, IsChannel}
use tellus.Mailbox.{try_send_message}
use tellus.Mailbox.Queued.{messages_of, messages_of-append, if_sent, try_send_message-queued}
use tellus.Watching.{Watching, next_incoming}
use tellus.Watching.Handing.{queued, handed, watch-queued, unwatch-queued, next_incoming-queued}
use tellus.Task.{
  Action, watches, unwatches, tells_self, Acting, Phase, starting, serving, failed, stopping,
  dropping_mailbox, unwatching, stopping_children, signalling, over, Move, arrives,
  other_terminates, other_watches, other_unwatches, goes_on, Task, act, act_all, handle, serve,
  step,
}

module _ {Sink : Type 0} (A : Acting) (C : Channel (Incoming A.Message)) (L : IsChannel C)
    (self_id : ActorId) (own_sink : Sink) (strategy : SupervisionStrategy) where
  abbrev Context : Type 0
  Context = Watching C self_id own_sink

  abbrev TaskOf : Type 0
  TaskOf = Task A C self_id own_sink strategy

  abbrev waiting : Context → List A.Message
  waiting s = queued C L self_id own_sink s

  -- The messages that the actor has handled, behind them those that have been drained, and behind
  -- these those that are queued.
  abbrev pub line : Task A C self_id own_sink strategy → List A.Message
  line t = messages_of t.handled ++ (messages_of t.dropped ++ queued C L self_id own_sink t.context)

  abbrev pub front : TaskOf → List A.Message
  front t = messages_of t.handled ++ waiting t.context

  -- Until `terminate` drains the mailbox, nothing has been dropped.
  abbrev pub IsUndropped : Phase A.State → List (Incoming A.Message) → Type 0
  IsUndropped starting dropped = dropped ≡ []
  IsUndropped (serving state) dropped = dropped ≡ []
  IsUndropped (failed up) dropped = dropped ≡ []
  IsUndropped stopping dropped = dropped ≡ []
  IsUndropped dropping_mailbox dropped = Unit
  IsUndropped unwatching dropped = Unit
  IsUndropped stopping_children dropped = Unit
  IsUndropped signalling dropped = Unit
  IsUndropped over dropped = Unit

  pub none_dropped :
      (p : Phase A.State) (ds : List (Incoming A.Message)) → ds ≡ [] → IsUndropped p ds
  none_dropped starting ds e = e
  none_dropped (serving state) ds e = e
  none_dropped (failed up) ds e = e
  none_dropped stopping ds e = e
  none_dropped dropping_mailbox ds e = tt
  none_dropped unwatching ds e = tt
  none_dropped stopping_children ds e = tt
  none_dropped signalling ds e = tt
  none_dropped over ds e = tt

  pub line-front : (t : TaskOf) → t.dropped ≡ [] → line t ≡ front t
  line-front t e = ap (λ ds. messages_of t.handled ++ (messages_of ds ++ waiting t.context)) e

  abbrev accepted_of : Action A.Message → Context → List A.Message
  accepted_of (watches other) s = []
  accepted_of (unwatches other) s = []
  accepted_of (tells_self m) s = if_sent m (try_send_message C s.mailbox m).0

  -- What the actor tells itself and its mailbox accepts.
  abbrev pub accepted_all : List (Action A.Message) → Watching C self_id own_sink → List A.Message
  accepted_all [] s = []
  accepted_all (a ∷ rest) s =
      accepted_of a s ++ accepted_all rest (act A C self_id own_sink strategy a s)

  abbrev accepted_handling : A.State → Option (Incoming A.Message) × Context → List A.Message
  accepted_handling state (none, s) = []
  accepted_handling state (some incoming, s) = accepted_all (A.receive incoming state).0 s

  abbrev accepted_serving : A.State → Bool → Context → List A.Message
  accepted_serving state true s = []
  accepted_serving state false s = accepted_handling state (next_incoming C self_id own_sink s)

  abbrev pub accepted_going : Phase A.State → Bool → Context → List A.Message
  accepted_going starting stopped s = accepted_all A.init.0 s
  accepted_going (serving state) stopped s = accepted_serving state stopped s
  accepted_going (failed up) stopped s = []
  accepted_going stopping stopped s = []
  accepted_going dropping_mailbox stopped s = []
  accepted_going unwatching stopped s = []
  accepted_going stopping_children stopped s = []
  accepted_going signalling stopped s = []
  accepted_going over stopped s = []

  -- The messages, of others and of the actor itself, that the mailbox accepts in a step.
  abbrev pub accepted :
      Move A.Message Sink self_id → Task A C self_id own_sink strategy → List A.Message
  accepted (arrives m) t = if_sent m (try_send_message C t.context.mailbox m).0
  accepted (other_terminates i n) t = []
  accepted (other_watches i sink n) t = []
  accepted (other_unwatches i n) t = []
  accepted (goes_on stopped elapsed parent) t = accepted_going t.phase stopped t.context

  abbrev pub all_accepted :
      List (Move A.Message Sink self_id) → Task A C self_id own_sink strategy → List A.Message
  all_accepted [] t = []
  all_accepted (m ∷ ms) t = accepted m t ++ all_accepted ms (step A C self_id own_sink strategy m t)

  act-line :
      (a : Action A.Message) (s : Context)
      → waiting (act A C self_id own_sink strategy a s) ≡ waiting s ++ accepted_of a s
  unfolding act
  act-line (watches other) s =
      watch-queued C L self_id own_sink other s ∙ sym (append_nil (waiting s))
  act-line (unwatches other) s =
      unwatch-queued C L self_id own_sink other s ∙ sym (append_nil (waiting s))
  act-line (tells_self m) s = try_send_message-queued C L m s.mailbox

  pub act_all-line :
      (actions : List (Action A.Message)) (s : Context)
      → waiting (act_all A C self_id own_sink strategy actions s)
        ≡ waiting s ++ accepted_all actions s
  unfolding act_all
  act_all-line [] s = sym (append_nil (waiting s))
  act_all-line (a ∷ rest) s =
      let s' = act A C self_id own_sink strategy a s in
      act_all-line rest s'
      ∙ ap (λ xs. xs ++ accepted_all rest s') (act-line a s)
      ∙ append_assoc (waiting s) (accepted_of a s) (accepted_all rest s')

  handle-line :
      (state : A.State) (o : Option (Incoming A.Message)) (s : Context) (t : TaskOf)
      → handed C L self_id own_sink o ++ waiting s ≡ waiting t.context
      → front (handle A C self_id own_sink strategy state (o, s) t)
        ≡ front t ++ accepted_handling state (o, s)
  unfolding handle
  handle-line state none s t e =
      ap (λ xs. messages_of t.handled ++ xs) e ∙ sym (append_nil (front t))
  handle-line state (some incoming) s t e =
      let actions = (A.receive incoming state).0 in
      let more = accepted_all actions s in
      let x = messages_of (incoming ∷ []) in
      let old = messages_of t.handled in
      cc (
        messages_of-append t.handled (incoming ∷ []),
        act_all-line actions s,
        e,
        append_assoc old x (waiting s ++ more),
        append_assoc x (waiting s) more,
        append_assoc old (x ++ waiting s) more,
      )

  pub serve-line :
      (state : A.State) (stopped : Bool) (t : TaskOf)
      → front (serve A C self_id own_sink strategy state stopped t)
        ≡ front t ++ accepted_serving state stopped t.context
  unfolding serve
  serve-line state true t = sym (append_nil (front t))
  serve-line state false t =
      let (o, s) = next_incoming C self_id own_sink t.context in
      handle-line state o s t (next_incoming-queued C L self_id own_sink t.context)
