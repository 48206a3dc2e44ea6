-- ===== src/Watching/Receiving.antt =====
-- tellus/src/actor_context.rs, `next_incoming!`: the three ways in which a turn of it goes.
use mathlib.Core.Path.{subst}
use tellus.Prelude.{◌≡◌, refl, ap, sym, ◌∙◌, Option, none, some, List, [], ◌∷◌}
use tellus.Prelude.Dict.{nat_key, lookup}
use tellus.Actor.{ActorId, Incoming, message, terminated}
use tellus.Channel.{Channel, IsChannel}
use tellus.Quota.{Shared, unreserve}
use tellus.Mailbox.{received, try_recv}
use tellus.Watching.{Watching, filter_signal, filter_incoming, next_incoming}

module _ {M Sink : Type 0} (C : Channel (Incoming M)) (L : IsChannel C) (self_id : ActorId)
    (own_sink : Sink) where
  -- The first item has been taken out of a queue.
  pub record IsTaken (x : Incoming M) (c c' : C.Chan) : Type 0 where
    pub first : L.contents c ≡ x ∷ L.contents c'
    pub same : C.is_disconnected c' ≡ C.is_disconnected c

  abbrev filtered :
      Watching C self_id own_sink
      → Option (Incoming M) × C.Chan
      → Option (Incoming M) × Watching C self_id own_sink
  filtered s r =
      let (incoming, mailbox) = received C s.mailbox.0 r in
      filter_incoming C self_id own_sink incoming (record s { mailbox = mailbox })

  taken :
      (x : Incoming M) (xs : List (Incoming M)) (c : C.Chan)
      → L.contents c ≡ x ∷ xs
      → ((C.try_recv c).0 ≡ some x) × IsTaken x c (C.try_recv c).1
  taken x xs c e =
      let (first, rest) = L.try_recv_item c x xs e in
      (first, record { first = e ∙ ap (◌∷◌ x) (sym rest); same = L.is_disconnected-try_recv c })

  module _ (P : Option (Incoming M) × Watching C self_id own_sink → Type 0)
      (s : Watching C self_id own_sink) (waits : L.contents s.mailbox.1 ≡ [] → P (none, s))
      (gets : (m : M) (q : Shared C)
        → IsTaken (message m) s.mailbox.1 q.1
        → P (some (message m), record s { mailbox = q }))
      (hears : (other : ActorId) (q : Shared C)
        → IsTaken (terminated other) s.mailbox.1 q.1
        → P (
            filter_signal C self_id own_sink
              (lookup other s.watched)
              other
              (record s { mailbox = q }))) where
    filtered_rule :
        (items : List (Incoming M))
        → L.contents s.mailbox.1 ≡ items
        → P (filtered s (C.try_recv s.mailbox.1))
    unfolding received filter_incoming
    filtered_rule [] e =
        subst (λ r. P (filtered s r)) (sym (L.try_recv_empty s.mailbox.1 e)) (waits e)
    filtered_rule (message m ∷ xs) e =
        let (first, rest) = taken (message m) xs s.mailbox.1 e in
        let c' = (C.try_recv s.mailbox.1).1 in
        subst (λ o. P (filtered s (o, c'))) (sym first) (gets m (unreserve s.mailbox.0, c') rest)
    filtered_rule (terminated other ∷ xs) e =
        let (first, rest) = taken (terminated other) xs s.mailbox.1 e in
        let c' = (C.try_recv s.mailbox.1).1 in
        subst (λ o. P (filtered s (o, c'))) (sym first) (hears other (s.mailbox.0, c') rest)

    -- Nothing is queued; a message comes; or a signal comes, which is handed on or dropped.
    pub next_incoming_rule : P (next_incoming C self_id own_sink s)
    unfolding next_incoming try_recv
    next_incoming_rule = filtered_rule (L.contents s.mailbox.1) refl
