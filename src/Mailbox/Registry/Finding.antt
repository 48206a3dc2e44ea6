-- ===== src/Mailbox/Registry/Finding.antt =====
-- tellus/src/mailbox.rs, `WatcherRegistry`: what one call leaves of a watcher.
use tellus.Prelude.{◌≡◌, ◌≢◌, refl, Option, none, some, ok, arith}
use tellus.Prelude.Dict.{nat_key, Dict, lookup, insert, erase, lookup-insert, lookup-erase}
use tellus.Actor.{ActorId}
use tellus.Mailbox.Registry.{Watcher, or_insert, add, remove}

module _ {Sink : Type 0} where
  lookup-or_insert :
      (w : Watcher Sink) (j : ActorId) (d : Dict ActorId (Watcher Sink)) (o : Option (Watcher Sink))
      → w.watcher_id ≢ j
      → lookup j (or_insert w d o) ≡ lookup j d
  unfolding or_insert
  lookup-or_insert w j d none h = ground (arith, lookup-insert w.watcher_id j w d)
  lookup-or_insert w j d (some old) h = refl

  pub lookup-add :
      (w : Watcher Sink) (j : ActorId) (d : Dict ActorId (Watcher Sink))
      → w.watcher_id ≢ j
      → (d' : Dict ActorId (Watcher Sink)) × ((add w (some d)).1 ≡ some d')
        × (lookup j d' ≡ lookup j d)
  unfolding add
  lookup-add w j d h = (
    or_insert w d (lookup w.watcher_id d),
    refl,
    lookup-or_insert w j d (lookup w.watcher_id d) h,
  )

  pub lookup-add_new :
      (w : Watcher Sink) (d : Dict ActorId (Watcher Sink))
      → lookup w.watcher_id d ≡ none
      → (d' : Dict ActorId (Watcher Sink)) × (add w (some d) ≡ (ok tt, some d'))
        × (lookup w.watcher_id d' ≡ some w)
  unfolding add or_insert
  lookup-add_new w d h = (
    insert w.watcher_id w d,
    rw h refl,
    ground (arith, lookup-insert w.watcher_id w.watcher_id w d),
  )

  pub lookup-remove :
      (i j : ActorId) (d : Dict ActorId (Watcher Sink))
      → i ≢ j
      → (d' : Dict ActorId (Watcher Sink)) × (remove i (some d) ≡ some d')
        × (lookup j d' ≡ lookup j d)
  unfolding remove
  lookup-remove i j d h = (erase i d, refl, ground (arith, lookup-erase i j d))
