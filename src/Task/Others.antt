-- ===== src/Task/Others.antt =====
-- tellus/src/mailbox.rs, `WatcherRegistry`, in a task: what other actors do in the actor's own
-- registry is nothing to what the actor watches.
use tellus.Prelude.{
  ◌≡◌, ◌≢◌, refl, ap, sym, ◌∙◌, Bool-cases, inl, inr, Option-cases, none, some, nat_eq, nat_eq_iff,
  arith,
}
use mathlib.Core.Path.{subst}
use tellus.Prelude.Dict.{nat_key, lookup, lookup-insert, lookup-erase}
use tellus.Actor.{ActorId, Incoming}
use tellus.Channel.{Channel, IsChannel}
use tellus.Mailbox.Registry.{Watcher, WatcherRegistry, add, remove, or_insert}
use tellus.Mailbox.Registry.Closing.{add_lem, remove_lem}
use tellus.Watching.{Watching, set_registry}
use tellus.Watching.Delivery.{registered, IsSound, IsWatching, set_registry-IsSound}
use tellus.Watching.Tidy.{IsTidy}

module _ {M Sink : Type 0} (C : Channel (Incoming M)) (L : IsChannel C) (self_id : ActorId)
    (own_sink : Sink) where
  -- A registry with the entries of others changed.
  pub record IsOther (r r' : WatcherRegistry Sink) : Type 0 where
    pub sound : IsSound C L self_id own_sink r → IsSound C L self_id own_sink r'
    pub same : registered C L self_id own_sink r' ≡ registered C L self_id own_sink r
    pub closed : r ≡ none → r' ≡ none

  pub add-IsOther :
      (w : Watcher Sink) (r : WatcherRegistry Sink) → w.watcher_id ≢ self_id → IsOther r (add w r).1
  unfolding add or_insert
  add-IsOther w none n = record { sound = λ v. v; same = refl; closed = λ e. e }
  add-IsOther w (some d) n = record {
    sound =
        λ v. let (d', e, v', _) = add_lem w d v in subst (IsSound C L self_id own_sink) (sym e) v';
    same = elim (Option-cases (lookup w.watcher_id d)) [
      | inl e ↦ rw e (
          ground
            (arith, n, nat_eq_iff w.watcher_id self_id, lookup-insert w.watcher_id self_id w d))
      | inr (old, e) ↦ rw e refl
    ];
    closed = λ e. absurd (cc e);
  }

  pub remove-IsOther :
      (i : ActorId) (r : WatcherRegistry Sink) → i ≢ self_id → IsOther r (remove i r)
  unfolding remove
  remove-IsOther i none n = record { sound = λ v. v; same = refl; closed = λ e. e }
  remove-IsOther i (some d) n = record {
    sound = λ v. let (e, v', _) = remove_lem i d v in subst (IsSound C L self_id own_sink) e v';
    same = ground (arith, n, nat_eq_iff i self_id, lookup-erase i self_id d);
    closed = λ e. absurd (cc e);
  }

  abbrev pub replaced :
      WatcherRegistry Sink → Watching C self_id own_sink → Watching C self_id own_sink
  replaced r s = record s { registries = set_registry C self_id own_sink s.registries self_id r }

  pub registered-replaced :
      (r : WatcherRegistry Sink) (s : Watching C self_id own_sink) (j : ActorId)
      → IsOther (s.registries self_id) r
      → registered C L self_id own_sink ((replaced r s).registries j)
        ≡ registered C L self_id own_sink (s.registries j)
  registered-replaced r s j o = elim (Bool-cases (nat_eq self_id j)) [
    | inl e ↦ rw e (
        o.same
        ∙ ap (λ k. registered C L self_id own_sink (s.registries k)) ((nat_eq_iff self_id j).0 e))
    | inr e ↦ rw e refl
  ]

  pub replaced-IsWatching :
      (r : WatcherRegistry Sink) (s : Watching C self_id own_sink)
      → IsOther (s.registries self_id) r
      → IsWatching C L self_id own_sink s
      → IsWatching C L self_id own_sink (replaced r s)
  replaced-IsWatching r s o v = record {
    connected = v.connected;
    sound =
        set_registry-IsSound C L self_id own_sink s.registries self_id r v.sound
          (o.sound (v.sound self_id));
    covered = λ j h. omega (arith, registered-replaced r s j o, v.covered j h);
  }

  pub replaced-IsTidy :
      (r : WatcherRegistry Sink) (s : Watching C self_id own_sink)
      → IsOther (s.registries self_id) r
      → IsTidy C L self_id own_sink s
      → IsTidy C L self_id own_sink (replaced r s)
  replaced-IsTidy r s o v = record {
    noted = λ j h. v.noted j (sym (registered-replaced r s j o) ∙ h);
    closed = λ j h. elim (Bool-cases (nat_eq self_id j)) [
      | inl e ↦ rw e (o.closed (ap s.registries ((nat_eq_iff self_id j).0 e) ∙ v.closed j h))
      | inr e ↦ rw e (v.closed j h)
    ];
  }
