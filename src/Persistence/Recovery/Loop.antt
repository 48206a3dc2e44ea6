-- ===== src/Persistence/Recovery/Loop.antt =====
-- tellus/src/persistence/spawn.rs, the loop of `recover`: enough fuel is given, and the pages add up.
use tellus.Prelude.{
  ℕ, zero, suc, ◌+◌, ◌-◌, ◌≤◌, ◌<◌, ◌≡◌, refl, ap, sym, ◌∙◌, Bool, true, false, Bool-cases, none,
  some, List, length, take, drop, drop-drop, take_all, length-take, length-drop, take-append-drop,
  ltb, ltb→lt, if◌then◌else◌, arith, u64_max, done, catch_and_log, and_then, Option-cases, inl, inr,
  min,
}
use tellus.Prelude.Int.{i64_max}
use tellus.Persistence.SeqNo.{SeqNo}
use tellus.Persistence.Id.{PersistenceId}
use tellus.Persistence.Store.{EncodedEvent, StoredEvent}
use tellus.Persistence.Store.Numbered.{
  numbered, numbered_at, length-numbered, take-numbered, drop-numbered,
}
use tellus.Persistence.Store.Contract.{IsEventStore}
use tellus.Persistence.EventSourced.{EventSourced, Persistence}
use tellus.Persistence.Recovery.{page_limit, replay_page, replay_from, starting_at}
use tellus.Persistence.Recovery.Replay.{replayed, replayed-append, replay_page-replayed}

pub page_limit_pos : 0 < page_limit
unfolding page_limit
page_limit_pos = omega arith

pub page_limit_small : page_limit ≤ i64_max
unfolding page_limit
page_limit_small = omega arith

-- The stream of an ID, and reads of it that do not fail up to its end.
pub record IsReadable {World : Type 0} (A : EventSourced) (P : Persistence World A)
    (L : IsEventStore P.event_store) (w : World) (id : PersistenceId) : Type 0 where
  pub valid : L.Valid w
  pub fits : length (L.stream w id) ≤ u64_max
  pub reads :
      (n : ℕ)
      → n ≤ length (L.stream w id)
      → (page : List StoredEvent) × (P.event_store.read w id n page_limit ≡ done page)

module _ {World : Type 0} (A : EventSourced) (P : Persistence World A)
    (L : IsEventStore P.event_store) (w : World) (id : PersistenceId)
    (readable : IsReadable A P L w id) where
  abbrev events_from : ℕ → List EncodedEvent
  events_from n = drop n (L.stream w id)

  abbrev page_at : ℕ → List EncodedEvent
  page_at n = take page_limit (events_from n)

  read_page :
      (n : ℕ)
      → n ≤ length (L.stream w id)
      → P.event_store.read w id n page_limit ≡ done (numbered n (page_at n))
  read_page n le =
      let (page, e) = readable.reads n le in
      e
      ∙ ap done (
          L.read_ok w id n page_limit page readable.valid page_limit_small e
          ∙ ap (take page_limit) (drop-numbered n 0 (L.stream w id))
          ∙ take-numbered page_limit (0 + n) (events_from n)
          ∙ numbered_at {m = 0 + n} {n = n} (page_at n) (omega arith))

  length-page_at : (n : ℕ) → length (page_at n) ≡ min page_limit (length (L.stream w id) - n)
  length-page_at n =
      length-take page_limit (events_from n) ∙ ap (min page_limit) (length-drop n (L.stream w id))

  page_replayed :
      (s : A.State) (n : ℕ)
      → n ≤ length (L.stream w id)
      → catch_and_log (replay_page A s n (numbered n (page_at n)))
        ≡ starting_at A (n + length (page_at n)) (replayed A s (page_at n))
  page_replayed s n le =
      replay_page-replayed A s n (page_at n) (omega (arith, length-page_at n, readable.fits))

  -- The events from a position are those of its page and those behind the page.
  replayed_by_page :
      (s : A.State) (n : ℕ)
      → replayed A s (events_from n)
        ≡ and_then (replayed A s (page_at n)) (λ s'. replayed A s' (events_from (n + page_limit)))
  replayed_by_page s n =
      ap (replayed A s) (sym (take-append-drop page_limit (events_from n)))
      ∙ replayed-append A s (page_at n) (drop page_limit (events_from n))
      ∙ ap (λ es. and_then (replayed A s (page_at n)) (λ s'. replayed A s' es))
          (drop-drop page_limit n (L.stream w id))

  turn_failed :
      (fuel : ℕ) (s : A.State) (n : SeqNo)
      → n ≤ length (L.stream w id)
      → replayed A s (page_at n) ≡ none
      → replay_from A P (suc fuel) w id s n ≡ some none
  unfolding replay_from starting_at
  turn_failed fuel s n le e =
      rw (read_page n le, replay_from) (rw (page_replayed s n le, replay_from) (rw e refl))

  -- A short page is the rest of the stream, and any other is full.
  short_page :
      (n : ℕ)
      → n ≤ length (L.stream w id)
      → ltb (length (numbered n (page_at n))) page_limit ≡ true
      → (page_at n ≡ events_from n) × (n + length (page_at n) ≡ length (L.stream w id))
  short_page n le t =
      let few = ltb→lt (length (numbered n (page_at n))) page_limit t in
      (
        take_all page_limit (events_from n) (
            omega (
              arith,
              few,
              length-numbered n (page_at n),
              length-page_at n,
              length-drop n (L.stream w id),
            )),
        omega (arith, few, length-numbered n (page_at n), length-page_at n),
      )

  full_page :
      (n : ℕ)
      → ltb (length (numbered n (page_at n))) page_limit ≡ false
      → n + length (page_at n) ≡ n + page_limit
  full_page n t = ground (arith, length-numbered n (page_at n), length-page_at n)

  turn_done :
      (fuel : ℕ) (s s' : A.State) (n : SeqNo) (short : Bool)
      → n ≤ length (L.stream w id)
      → replayed A s (page_at n) ≡ some s'
      → ltb (length (numbered n (page_at n))) page_limit ≡ short
      → replay_from A P (suc fuel) w id s n ≡ (
          if short
          then some (some (s', n + length (page_at n)))
          else replay_from A P fuel w id s' (n + length (page_at n)))
  unfolding replay_from starting_at
  turn_done fuel s s' n true le e t =
      rw (read_page n le, replay_from) (rw (page_replayed s n le, replay_from) (rw e (rw t refl)))
  turn_done fuel s s' n false le e t =
      rw (read_page n le, replay_from) (rw (page_replayed s n le, replay_from) (rw e (rw t refl)))

  -- The pages add up: where the store keeps its laws and the stream can be read from every
  -- position, no longer than a `u64` counts, with fuel for each event the loop ends, and it has
  -- applied exactly the events from its position on, in order, or failed because one of them does
  -- not decode or apply.
  pub replay_from-replayed :
      (fuel : ℕ) (s : A.State) (n : SeqNo)
      → n ≤ length (L.stream w id)
      → length (L.stream w id) < n + fuel
      → replay_from A P fuel w id s n
        ≡ some (starting_at A (length (L.stream w id)) (replayed A s (events_from n)))
  replay_from-replayed zero s n le enough = absurd (omega arith)
  replay_from-replayed (suc fuel) s n le enough = elim (Option-cases (replayed A s (page_at n))) [
    | inl e ↦
        turn_failed fuel s n le e ∙ rw (replayed_by_page s n) (rw e (unfold starting_at in refl))
    | inr (s', e) ↦ elim (Bool-cases (ltb (length (numbered n (page_at n))) page_limit)) [
      | inl t ↦
          turn_done fuel s s' n true le e t
          ∙ (let (whole, end) = short_page n le t in
              unfold starting_at in
              (ap (λ m. some (some (s', m))) end
                ∙ ap (λ r. some (starting_at A (length (L.stream w id)) r))
                    (sym (ap (replayed A s) (sym whole) ∙ e))))
      | inr t ↦
          turn_done fuel s s' n false le e t
          ∙ (let m = n + length (page_at n) in
              let full = full_page n t in
              replay_from-replayed fuel s' m (omega (arith, length-page_at n))
                (omega (arith, full, page_limit_pos))
              ∙ ap (λ r. some (starting_at A (length (L.stream w id)) r))
                  (sym (
                    replayed_by_page s n
                    ∙ rw e (ap (λ k. replayed A s' (events_from k)) (sym full)))))
    ]
  ]
