-- ===== src/Mailbox/Registry/Closing.antt =====
-- tellus/src/mailbox.rs, `WatcherRegistry`: calls that race with the closing of the registration.
use tellus.Prelude.{
  ℕ, ◌+◌, ◌≡◌, refl, ap, ◌∙◌, Bool, true, false, Option, Option-cases, inl, inr, none, some, List,
  [], ◌∷◌, map, err, arith, if◌then◌else◌, nat_eq,
}
use tellus.Prelude.Dict.{
  nat_key, Dict, lookup, insert, erase, lookup-insert, lookup-erase, NodupKeys, insert-NodupKeys,
  erase-NodupKeys,
}
use tellus.Actor.{ActorId}
use tellus.Mailbox.{actor_terminated}
use tellus.Mailbox.Registry.{
  Watcher, WatcherRegistry, open_registry, or_insert, add, remove, take_watchers,
}

-- A call of one of the owners.
pub data Call (Sink : Type 0) : Type 0 where
  adds : Watcher Sink → Call Sink
  removes : ActorId → Call Sink

module _ {Sink : Type 0} where
  abbrev pub calls : List (Call Sink) → WatcherRegistry Sink → WatcherRegistry Sink
  calls [] r = r
  calls (adds w ∷ cs) r = calls cs (add w r).1
  calls (removes i ∷ cs) r = calls cs (remove i r)

  -- Whether the last call that names the ID added it.
  abbrev pub is_watching : ActorId → List (Call Sink) → Bool → Bool
  is_watching j [] b = b
  is_watching j (adds w ∷ cs) b = is_watching j cs (if nat_eq w.watcher_id j then true else b)
  is_watching j (removes i ∷ cs) b = is_watching j cs (if nat_eq i j then false else b)

  -- How often the ID is signalled.
  abbrev pub signals : ActorId → List (Watcher Sink) → ℕ
  signals j [] = 0
  signals j (w ∷ ws) = (if nat_eq w.watcher_id j then 1 else 0) + signals j ws

  abbrev pub is_some : Option (Watcher Sink) → Bool
  is_some none = false
  is_some (some w) = true

  -- Each watcher stands under its own ID.
  abbrev pub IsKeyed : Dict ActorId (Watcher Sink) → Type 0
  IsKeyed [] = Unit {0}
  IsKeyed ((k, w) ∷ d) = (w.watcher_id ≡ k) × IsKeyed d

  insert-IsKeyed :
      (w : Watcher Sink) (d : Dict ActorId (Watcher Sink))
      → IsKeyed d
      → IsKeyed (insert w.watcher_id w d)
  unfolding insert
  insert-IsKeyed w [] h = (refl, tt)
  insert-IsKeyed w ((k, v) ∷ d) (e, h) = ground (arith, insert-IsKeyed w d h)

  erase-IsKeyed : (i : ActorId) (d : Dict ActorId (Watcher Sink)) → IsKeyed d → IsKeyed (erase i d)
  unfolding erase
  erase-IsKeyed i [] h = tt
  erase-IsKeyed i ((k, v) ∷ d) (e, h) = ground (arith, erase-IsKeyed i d h)

  pub signals-values :
      (j : ActorId) (d : Dict ActorId (Watcher Sink))
      → IsKeyed d
      → NodupKeys d
      → signals j (map (λ e. e.1) d) ≡ (if is_some (lookup j d) then 1 else 0)
  unfolding lookup
  signals-values j [] k u = refl
  signals-values j ((i, w) ∷ d) (e, k) (fresh, u) = ground (arith, signals-values j d k u)

  pub record IsOpen (d : Dict ActorId (Watcher Sink)) : Type 0 where
    pub keyed : IsKeyed d
    pub nodup : NodupKeys d

  pub add_lem :
      (w : Watcher Sink) (d : Dict ActorId (Watcher Sink))
      → IsOpen d
      → (d' : Dict ActorId (Watcher Sink)) × ((add w (some d)).1 ≡ some d')
        × IsOpen d'
        × ((j : ActorId)
            → is_some (lookup j d')
              ≡ (if nat_eq w.watcher_id j then true else is_some (lookup j d)))
  unfolding add or_insert
  add_lem w d v = elim (Option-cases (lookup w.watcher_id d)) [
    | inl e ↦ (
      insert w.watcher_id w d,
      rw e refl,
      record {
        keyed = insert-IsKeyed w d v.keyed;
        nodup = insert-NodupKeys w.watcher_id w d v.nodup;
      },
      λ j. ground (arith, lookup-insert w.watcher_id j w d),
    )
    | inr (old, e) ↦ (d, rw e refl, v, λ j. ground (arith, ap (λ k. lookup k d)))
  ]

  pub remove_lem :
      (i : ActorId) (d : Dict ActorId (Watcher Sink))
      → IsOpen d
      → (remove i (some d) ≡ some (erase i d))
        × IsOpen (erase i d)
        × ((j : ActorId)
            → is_some (lookup j (erase i d)) ≡ (if nat_eq i j then false else is_some (lookup j d)))
  unfolding remove
  remove_lem i d v = (
    refl,
    record { keyed = erase-IsKeyed i d v.keyed; nodup = erase-NodupKeys i d v.nodup },
    λ j. ground (arith, lookup-erase i j d),
  )

  calls_lem :
      (cs : List (Call Sink)) (d : Dict ActorId (Watcher Sink))
      → IsOpen d
      → (d' : Dict ActorId (Watcher Sink)) × (calls cs (some d) ≡ some d')
        × IsOpen d'
        × ((j : ActorId) → is_some (lookup j d') ≡ is_watching j cs (is_some (lookup j d)))
  calls_lem [] d v = (d, refl, v, λ j. refl)
  calls_lem (adds w ∷ cs) d v =
      let (d₁, e₁, v₁, h₁) = add_lem w d v in
      let (d₂, e₂, v₂, h₂) = calls_lem cs d₁ v₁ in
      (d₂, ap (calls cs) e₁ ∙ e₂, v₂, λ j. h₂ j ∙ ap (is_watching j cs) (h₁ j))
  calls_lem (removes i ∷ cs) d v =
      let (e₁, v₁, h₁) = remove_lem i d v in
      let (d₂, e₂, v₂, h₂) = calls_lem cs (erase i d) v₁ in
      (d₂, ap (calls cs) e₁ ∙ e₂, v₂, λ j. h₂ j ∙ ap (is_watching j cs) (h₁ j))

  calls_closed : (cs : List (Call Sink)) → calls cs none ≡ none
  unfolding add remove
  calls_closed [] = refl
  calls_closed (adds w ∷ cs) = calls_closed cs
  calls_closed (removes i ∷ cs) = calls_closed cs

  pub take_watchers-closed : (r : WatcherRegistry Sink) → (take_watchers r).1 ≡ none
  unfolding take_watchers
  take_watchers-closed none = refl
  take_watchers-closed (some d) = refl

  -- The registration starts open, owners add and remove watchers in any order, and the actor's task
  -- takes the watchers. Exactly the IDs whose last call added them are signalled, each of them once;
  -- whatever calls come later, every add is refused and a second take is empty. So no watcher is
  -- both accepted and left without its signal.
  take_watchers_lem :
      (before after : List (Call Sink))
      → let (told, r) = take_watchers (calls before (open_registry Sink)) in
        ((j : ActorId) → signals j told ≡ (if is_watching j before false then 1 else 0))
        × ((w : Watcher Sink) → (add w (calls after r)).0 ≡ err actor_terminated)
        × ((take_watchers (calls after r)).0 ≡ [])
  unfolding take_watchers add lookup
  take_watchers_lem before after =
      let (d, e, v, h) = calls_lem before [] (record { keyed = tt; nodup = tt }) in
      rw e (
        λ j. signals-values j d v.keyed v.nodup ∙ ap (λ (b : Bool). if b then 1 else 0) (h j),
        λ w. rw (calls_closed after) refl,
        rw (calls_closed after) refl,
      )
