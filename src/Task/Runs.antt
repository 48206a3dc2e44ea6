-- ===== src/Task/Runs.antt =====
-- tellus/src/actor_context.rs: a task in which others send, watch and terminate between its steps.
use tellus.Prelude.{
  ◌≡◌, ◌≢◌, refl, sym, ◌∙◌, true, Bool-cases, inl, inr, none, some, List, [], ◌∷◌, nat_eq,
  nat_eq_iff, arith,
}
use tellus.Prelude.Dict.{nat_key, lookup}
use tellus.Config.{SupervisionStrategy}
use tellus.Actor.{ActorId, Incoming}
use tellus.Channel.{Channel, IsChannel}
use tellus.Mailbox.Registry.{WatcherRegistry, add, remove, take_watchers}
use tellus.Watching.{Watching, terminates}
use tellus.Watching.Delivery.{registered}
use tellus.Watching.Runs.{terminates-IsWatching}
use tellus.Watching.Tidy.{terminates-IsTidy}
use tellus.Task.{
  Acting, Phase, starting, serving, failed, stopping, dropping_mailbox, unwatching,
  stopping_children, signalling, over, Move, arrives, other_terminates, other_watches,
  other_unwatches, goes_on, Task, own_registry, step, run,
}
use tellus.Task.Sending.{told, told-IsWatching, told-IsTidy}
use tellus.Task.Leaving.{try_send_message_gone, signal_all_gone, registered-terminates}
use tellus.Task.Others.{
  IsOther, add-IsOther, remove-IsOther, replaced, registered-replaced, replaced-IsWatching,
  replaced-IsTidy,
}
use tellus.Task.Whole.{IsUp, IsDrained, IsDropped, IsLeft, IsWhole, advance-IsWhole}

module _ {Sink : Type 0} (A : Acting) (C : Channel (Incoming A.Message)) (L : IsChannel C)
    (self_id : ActorId) (own_sink : Sink) (strategy : SupervisionStrategy) where
  -- What others do, wherever the task is.
  record IsKept (s s' : Watching C self_id own_sink) : Type 0 where
    up : IsUp A C L self_id own_sink strategy s → IsUp A C L self_id own_sink strategy s'
    drained :
        IsDrained A C L self_id own_sink strategy s → IsDrained A C L self_id own_sink strategy s'
    dropped :
        IsDropped A C L self_id own_sink strategy s → IsDropped A C L self_id own_sink strategy s'
    left : IsLeft A C L self_id own_sink strategy s → IsLeft A C L self_id own_sink strategy s'
    closed : s.registries self_id ≡ none → s'.registries self_id ≡ none

  kept-IsWhole :
      (p : Phase A.State) (s s' : Watching C self_id own_sink)
      → IsKept s s'
      → IsWhole A C L self_id own_sink strategy p s
      → IsWhole A C L self_id own_sink strategy p s'
  kept-IsWhole starting s s' k v = k.up v
  kept-IsWhole (serving state) s s' k v = k.up v
  kept-IsWhole (failed up) s s' k v = k.up v
  kept-IsWhole stopping s s' k v = k.up v
  kept-IsWhole dropping_mailbox s s' k v = k.drained v
  kept-IsWhole unwatching s s' k v = k.dropped v
  kept-IsWhole stopping_children s s' k v = k.left v
  kept-IsWhole signalling s s' k v = k.left v
  kept-IsWhole over s s' k (v, e) = (k.left v, k.closed e)

  told-IsKept :
      (m : A.Message) (s : Watching C self_id own_sink) → IsKept s (told C L self_id own_sink m s)
  told-IsKept m s = record {
    up = λ v. record {
      watching = told-IsWatching C L self_id own_sink m s v.watching;
      tidy = told-IsTidy C L self_id own_sink m s v.watching.connected v.tidy;
    };
    drained = λ v. record { noted = v.noted };
    dropped = λ v. record {
      gone = try_send_message_gone C L self_id own_sink m s.mailbox v.gone;
      noted = v.noted;
    };
    left = λ v. record {
      gone = try_send_message_gone C L self_id own_sink m s.mailbox v.gone;
      nowhere = v.nowhere;
    };
    closed = λ e. e;
  }

  terminates-IsKept :
      (other : ActorId) (s : Watching C self_id own_sink)
      → other ≢ self_id
      → IsKept s (terminates C self_id own_sink other s)
  terminates-IsKept other s n =
      let stands = registered-terminates C L self_id own_sink other s in
      let still : C.is_disconnected s.mailbox.1 ≡ true
          → C.is_disconnected (terminates C self_id own_sink other s).mailbox.1 ≡ true =
        unfold terminates in
        (signal_all_gone C L self_id own_sink other (take_watchers (s.registries other)).0
          s.mailbox) in
      let s' = terminates C self_id own_sink other s in
      let noted : ((j : ActorId)
            → registered C L self_id own_sink (s.registries j) ≡ 1
            → lookup j s.watched ≡ some tt)
          → (j : ActorId) → registered C L self_id own_sink (s'.registries j) ≡ 1
          → lookup j s'.watched ≡ some tt =
        λ v j h. elim (Bool-cases (nat_eq other j)) [
          | inl e ↦ absurd (ground (arith, stands j, e, h))
          | inr e ↦ unfold terminates in (v j (ground (arith, stands j, e, h)))
        ] in
      record {
        up = λ v. record {
          watching = terminates-IsWatching C L self_id own_sink other s v.watching;
          tidy = terminates-IsTidy C L self_id own_sink other s v.watching.connected v.tidy;
        };
        drained = λ v. record { noted = noted v.noted };
        dropped = λ v. record { gone = still v.gone; noted = noted v.noted };
        left = λ v. record {
          gone = still v.gone;
          nowhere = λ j. stands j ∙ ground (arith, v.nowhere j);
        };
        closed = λ e.
            unfold terminates in
            (elim (Bool-cases (nat_eq other self_id)) [
              | inl q ↦ absurd (n ((nat_eq_iff other self_id).0 q))
              | inr q ↦ rw q e
            ]);
      }

  replaced-IsKept :
      (r : WatcherRegistry Sink) (s : Watching C self_id own_sink)
      → IsOther C L self_id own_sink (s.registries self_id) r
      → IsKept s (replaced C L self_id own_sink r s)
  replaced-IsKept r s o =
      let stands = λ (j : ActorId). registered-replaced C L self_id own_sink r s j o in
      record {
        up = λ v. record {
          watching = replaced-IsWatching C L self_id own_sink r s o v.watching;
          tidy = replaced-IsTidy C L self_id own_sink r s o v.tidy;
        };
        drained = λ v. record { noted = λ j h. v.noted j (sym (stands j) ∙ h) };
        dropped = λ v. record { gone = v.gone; noted = λ j h. v.noted j (sym (stands j) ∙ h) };
        left = λ v. record { gone = v.gone; nowhere = λ j. stands j ∙ v.nowhere j };
        closed = λ e. rw ((nat_eq_iff self_id self_id).1 refl) (o.closed e);
      }

  step-IsWhole :
      (m : Move A.Message Sink self_id) (t : Task A C self_id own_sink strategy)
      → IsWhole A C L self_id own_sink strategy t.phase t.context
      → let t' = step A C self_id own_sink strategy m t in
        IsWhole A C L self_id own_sink strategy t'.phase t'.context
  unfolding step own_registry
  step-IsWhole (arrives m) t v =
      kept-IsWhole t.phase t.context (told C L self_id own_sink m t.context)
        (told-IsKept m t.context) v
  step-IsWhole (other_terminates other n) t v =
      kept-IsWhole t.phase t.context (terminates C self_id own_sink other t.context)
        (terminates-IsKept other t.context n) v
  step-IsWhole (other_watches i sink n) t v =
      let r =
        (add (record { watcher_id = i; terminated_sink = sink })
          (t.context.registries self_id)).1 in
      kept-IsWhole t.phase t.context (replaced C L self_id own_sink r t.context)
        (replaced-IsKept r t.context
          (add-IsOther C L self_id own_sink _ (t.context.registries self_id) n))
        v
  step-IsWhole (other_unwatches i n) t v =
      let r = remove i (t.context.registries self_id) in
      kept-IsWhole t.phase t.context (replaced C L self_id own_sink r t.context)
        (replaced-IsKept r t.context
          (remove-IsOther C L self_id own_sink i (t.context.registries self_id) n))
        v
  step-IsWhole (goes_on stopped elapsed parent) t v =
      advance-IsWhole A C L self_id own_sink strategy t.phase stopped elapsed parent t refl v

  -- From a task of which this holds, such as one that is about to start, in every run of an actor,
  -- whose `init` and `receive` watch, unwatch and tell themselves what they like, and of others
  -- that tell, watch, unwatch and terminate between its steps: until `terminate` starts, restarts
  -- included, each actor that it watches has it in its registry or has a signal in its queue, and
  -- it stands only in registries of actors that it watches, which holds on in `terminate` until it
  -- leaves them; once the mailbox has been drained and dropped its receiver is gone; and once it
  -- has left the actors that it watched, up to the end and after it, it stands in no registry at
  -- all. Where it is over, its own registry is closed.
  pub run-IsWhole :
      (ms : List (Move A.Message Sink self_id)) (t : Task A C self_id own_sink strategy)
      → IsWhole A C L self_id own_sink strategy t.phase t.context
      → let t' = run A C self_id own_sink strategy ms t in
        IsWhole A C L self_id own_sink strategy t'.phase t'.context
  run-IsWhole [] t v = v
  run-IsWhole (m ∷ ms) t v =
      run-IsWhole ms (step A C self_id own_sink strategy m t) (step-IsWhole m t v)
