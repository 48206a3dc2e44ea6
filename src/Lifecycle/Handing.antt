-- ===== src/Lifecycle/Handing.antt =====
-- tellus/src/actor_context.rs: each incoming is handed to one incarnation, in order.
use tellus.Prelude.{
  ◌≡◌, ◌⊎◌, inl, inr, refl, ap, sym, ◌∙◌, Bool, true, false, Option, none, some, List, [], ◌∷◌,
  ◌++◌, map, catch_and_log, append_nil, ℕ, Option-cases,
}
use mathlib.Core.List.{append_assoc, map-append}
use tellus.Config.{SupervisionStrategy}
use tellus.Actor.{Actor, Incoming, Control, continue, stop}
use tellus.Lifecycle.{
  Ended, stopped_by_parent, stopped_itself, failed, waiting, Incarnation, Pause, Life, Turns,
  receive_incoming, serve, started, incarnate, goes_on, pausing, life,
}

-- What all the incarnations have handled, one after the other.
pub all_handled : {M : Type 0} → List (Incarnation M) → List (Incoming M)
all_handled [] = []
all_handled (i ∷ is) = i.handled ++ all_handled is

-- The turns behind the last incarnation.
pub left :
    {M : Type 0} → List (Option (Incoming M)) → List (Incarnation M) → List (Option (Incoming M))
left turns [] = turns
left turns (i ∷ is) = left i.rest is

control-cases :
    {S : Type 0} (r : Option (Control S))
    → (r ≡ none) ⊎ (r ≡ some stop) ⊎ ((s : S) × (r ≡ some (continue s)))
control-cases none = inl refl
control-cases (some stop) = inr (inl refl)
control-cases (some (continue s)) = inr (inr (s, refl))

module _ (A : Actor) where
  serve_lem :
      (state : A.State) (turns : Turns A)
      → turns ≡ map some (serve A state turns).handled ++ (serve A state turns).rest
  unfolding serve
  serve_lem state [] = refl
  serve_lem state (none ∷ turns) = refl
  serve_lem state (some incoming ∷ turns) =
      ap (◌∷◌ (some incoming)) (elim (control-cases (receive_incoming A incoming state)) [
        | inl e ↦ rw e refl
        | inr (inl e) ↦ rw e refl
        | inr (inr (state', e)) ↦ rw e (serve_lem state' turns)
      ])

  incarnate_lem :
      (turns : Turns A) → turns ≡ map some (incarnate A turns).handled ++ (incarnate A turns).rest
  unfolding incarnate
  incarnate_lem turns = elim (Option-cases (catch_and_log A.init)) [
    | inl e ↦ rw (e, started) refl
    | inr (state, e) ↦ rw (e, started) (serve_lem state turns)
  ]

  Covers : Turns A → Life A.Message → Type 0
  Covers turns l = turns ≡ map some (all_handled l.incarnations) ++ left turns l.incarnations

  Covers-one :
      (turns : Turns A) (i : Incarnation A.Message) (over : Bool)
      → turns ≡ map some i.handled ++ i.rest
      → Covers turns (record { incarnations = i ∷ []; over = over })
  unfolding Covers all_handled left
  Covers-one turns i over h = h ∙ ap (λ xs. map some xs ++ i.rest) (sym (append_nil i.handled))

  Covers-more :
      (turns : Turns A) (i : Incarnation A.Message) (again : Life A.Message) (over : Bool)
      → turns ≡ map some i.handled ++ i.rest
      → Covers i.rest again
      → Covers turns (record { incarnations = i ∷ again.incarnations; over = over })
  unfolding Covers all_handled left
  Covers-more turns i again over h k =
      h
      ∙ ap (λ r. map some i.handled ++ r) k
      ∙ sym (
          append_assoc (map some i.handled) (map some (all_handled again.incarnations))
            (left i.rest again.incarnations))
      ∙ ap (λ r. r ++ left i.rest again.incarnations)
          (sym (map-append some i.handled (all_handled again.incarnations)))

  Covers-goes_on :
      (turns : Turns A) (i : Incarnation A.Message) (ended : Ended) (restarting : Bool)
      (again : Life A.Message)
      → turns ≡ map some i.handled ++ i.rest
      → Covers i.rest again
      → Covers turns (goes_on A i ended restarting again)
  unfolding goes_on
  Covers-goes_on turns i failed true again h k = Covers-more turns i again again.over h k
  Covers-goes_on turns i failed false again h k = Covers-one turns i true h
  Covers-goes_on turns i stopped_by_parent restarting again h k = Covers-one turns i true h
  Covers-goes_on turns i stopped_itself restarting again h k = Covers-one turns i true h
  Covers-goes_on turns i waiting restarting again h k = Covers-one turns i false h

  Covers-pausing :
      (turns : Turns A) (i : Incarnation A.Message) (ended : Ended)
      → turns ≡ map some i.handled ++ i.rest
      → Covers turns (pausing A i ended)
  unfolding pausing
  Covers-pausing turns i failed h = Covers-one turns i false h
  Covers-pausing turns i stopped_by_parent h = Covers-one turns i true h
  Covers-pausing turns i stopped_itself h = Covers-one turns i true h
  Covers-pausing turns i waiting h = Covers-one turns i false h

  -- Over all its incarnations an actor handles what its mailbox gives it in order, each incoming once:
  -- also one at which an incarnation fails is not handled again, and the next incarnation goes on
  -- with the one behind it.
  pub life-all_handled :
      (strategy : SupervisionStrategy) (pauses : List Pause) (restarts : ℕ) (turns : Turns A)
      → let l = life A strategy pauses restarts turns in
        turns ≡ map some (all_handled l.incarnations) ++ left turns l.incarnations
  unfolding life Covers
  life-all_handled strategy [] restarts turns =
      Covers-pausing turns (incarnate A turns) (incarnate A turns).ended (incarnate_lem turns)
  life-all_handled strategy (pause ∷ pauses) restarts turns =
      let i = incarnate A turns in
      Covers-goes_on turns i i.ended _ _ (incarnate_lem turns)
        (life-all_handled strategy pauses _ i.rest)
