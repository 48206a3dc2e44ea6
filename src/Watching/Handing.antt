-- ===== src/Watching/Handing.antt =====
-- tellus/src/actor_context.rs: what watching and receiving do to the messages
-- that are queued.
use tellus.Prelude.{
  sym, ◌≡◌, refl, ap, ◌∙◌, Bool-cases, inl, inr, Option, none, some, List, [], ◌∷◌, ◌++◌, Result,
  ok, err, nat_eq,
}
use tellus.Prelude.Dict.{nat_key, lookup, insert}
use tellus.Actor.{ActorId, Incoming}
use tellus.Channel.{Channel, IsChannel}
use tellus.Quota.{Shared}
use tellus.Mailbox.{ActorTerminated, send_terminated}
use tellus.Mailbox.Registry.{take_watchers, Watcher, add}
use tellus.Watching.{
  terminates, Watching, make_watcher, set_registry, signal_unless, watch, unwatch, unwatch_known,
  signal_all, filter_signal, next_incoming,
}
use tellus.Watching.Receiving.{next_incoming_rule}
use tellus.Mailbox.Queued.{messages_of, queued_messages, send_terminated-queued}

module _ {M Sink : Type 0} (C : Channel (Incoming M)) (L : IsChannel C) (self_id : ActorId)
    (own_sink : Sink) where
  abbrev pub queued : Watching C self_id own_sink → List M
  queued s = queued_messages C L s.mailbox

  signal_unless-queued :
      (r : Result (Unit {0}) ActorTerminated) (other : ActorId) (s : Watching C self_id own_sink)
      → queued (signal_unless C self_id own_sink r other s) ≡ queued s
  unfolding signal_unless
  signal_unless-queued (ok _) other s = refl
  signal_unless-queued (err e) other s = send_terminated-queued C L other s.mailbox

  pub watch-queued :
      (other : ActorId) (s : Watching C self_id own_sink)
      → queued (watch C self_id own_sink other s) ≡ queued s
  unfolding watch
  watch-queued other s =
      let (reply, r) = add (make_watcher C self_id own_sink) (s.registries other) in
      signal_unless-queued reply other (record s {
        registries = set_registry C self_id own_sink s.registries other r;
        watched = insert other tt s.watched;
      })

  pub unwatch-queued :
      (other : ActorId) (s : Watching C self_id own_sink)
      → queued (unwatch C self_id own_sink other s) ≡ queued s
  unfolding unwatch
  unwatch-queued other s = known (lookup other s.watched)
    where
      known :
          (o : Option (Unit {0})) → queued (unwatch_known C self_id own_sink o other s) ≡ queued s
      known none = (unfold unwatch_known in refl)
      known (some _) = (unfold unwatch_known in refl)

  signal_all-queued :
      (other : ActorId) (ws : List (Watcher Sink)) (s : Shared C)
      → queued_messages C L (signal_all C self_id own_sink other ws s) ≡ queued_messages C L s
  unfolding signal_all
  signal_all-queued other [] s = refl
  signal_all-queued other (w ∷ ws) s = elim (Bool-cases (nat_eq w.watcher_id self_id)) [
    | inl e ↦
        rw (signal_all, e)
          (signal_all-queued other ws (send_terminated C s other).1
            ∙ send_terminated-queued C L other s)
    | inr e ↦ rw (signal_all, e) (signal_all-queued other ws s)
  ]

  pub terminates-queued :
      (other : ActorId) (s : Watching C self_id own_sink)
      → queued (terminates C self_id own_sink other s) ≡ queued s
  unfolding terminates
  terminates-queued other s =
      signal_all-queued other (take_watchers (s.registries other)).0 s.mailbox

  abbrev pub handed : Option (Incoming M) → List M
  handed none = []
  handed (some incoming) = messages_of (incoming ∷ [])

  filter_signal-queued :
      (o : Option (Unit {0})) (other : ActorId) (s : Watching C self_id own_sink)
      → let (incoming, s') = filter_signal C self_id own_sink o other s in
        handed incoming ++ queued s' ≡ queued s
  unfolding filter_signal
  filter_signal-queued none other s = refl
  filter_signal-queued (some _) other s = refl

  pub next_incoming-queued :
      (s : Watching C self_id own_sink)
      → let (incoming, s') = next_incoming C self_id own_sink s in
        handed incoming ++ queued s' ≡ queued s
  next_incoming-queued s =
      next_incoming_rule C L self_id own_sink (λ r. handed r.0 ++ queued r.1 ≡ queued s) s
        (λ _. refl) (λ m q taken. sym (ap messages_of taken.first))
        (λ other q taken.
          filter_signal-queued (lookup other s.watched) other (record s { mailbox = q })
          ∙ sym (ap messages_of taken.first))
