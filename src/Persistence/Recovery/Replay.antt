-- ===== src/Persistence/Recovery/Replay.antt =====
-- tellus/src/persistence/spawn.rs, `replay_page`: a page that follows on is one fold over its events.
use tellus.Prelude.{
  suc, ◌+◌, ◌≤◌, ◌≡◌, ◌≢◌, refl, ap, ◌∙◌, Option, some, List, [], ◌∷◌, ◌++◌, length, arith, u64_max,
  failed, done, done_of_catch, sym, catch_and_log, catch_and_log-bind_attempt, catch_panic_and_log,
  and_then, Option-cases, inl, inr,
}
use tellus.Persistence.SeqNo.{SeqNo, succ_exact}
use tellus.Persistence.Store.{EncodedEvent, StoredEvent}
use tellus.Persistence.Store.Numbered.{numbered}
use tellus.Persistence.EventSourced.{EventSourced}
use tellus.Persistence.Recovery.{decode_event, replay_one, replay_page, starting_at, gap}

module _ (A : EventSourced) where
  -- One event, decoded and applied; `none` where either fails or panics.
  unfoldable pub step : A.State → EncodedEvent → Option A.State
  step s e =
      and_then (catch_and_log (decode_event A e)) (λ event. catch_panic_and_log (A.apply s event))

  -- The specification of a replay: the events in order, with no pages and no numbers.
  unfoldable pub replayed : A.State → List EncodedEvent → Option A.State
  replayed s [] = some s
  replayed s (e ∷ es) = and_then (step s e) (λ s'. replayed s' es)

  pub replayed-append :
      (s : A.State) (xs ys : List EncodedEvent)
      → replayed s (xs ++ ys) ≡ and_then (replayed s xs) (λ s'. replayed s' ys)
  unfolding replayed
  replayed-append s [] ys = refl
  replayed-append s (x ∷ xs) ys = elim (Option-cases (step s x)) [
    | inl e ↦ rw e
    | inr (s', e) ↦ rw e (replayed-append s' xs ys)
  ]

  replay_one-step :
      (s : A.State) (n : SeqNo) (e : EncodedEvent)
      → n + 1 ≤ u64_max
      → catch_and_log (replay_one A s n (record { seq_no = n; event = e }))
        ≡ starting_at A (suc n) (step s e)
  unfolding replay_one step starting_at
  replay_one-step s n e h = ground (arith, succ_exact n h)

  -- A page whose numbers follow on from the position is replayed as one fold over its events, and
  -- leaves the position behind the last of them.
  pub replay_page-replayed :
      (s : A.State) (n : SeqNo) (es : List EncodedEvent)
      → n + length es ≤ u64_max
      → catch_and_log (replay_page A s n (numbered n es))
        ≡ starting_at A (n + length es) (replayed s es)
  unfolding replay_page replayed starting_at
  replay_page-replayed s n [] h = ap (λ m. some (s, m)) (omega arith)
  replay_page-replayed s n (e ∷ es) h =
      rw
        (
          catch_and_log-bind_attempt (replay_one A s n (record { seq_no = n; event = e }))
              (λ (s', n'). replay_page A s' n' (numbered (suc n) es)),
          replay_one-step s n e (omega arith),
        )
        (elim (Option-cases (step s e)) [
          | inl p ↦ rw p
          | inr (s', p) ↦ rw p (
              replay_page-replayed s' (suc n) es (omega arith)
              ∙ ap (λ m. starting_at A m (replayed s' es)) (omega arith))
        ])

  replay_one-step_done :
      (s s' : A.State) (n : SeqNo) (e : EncodedEvent)
      → n + 1 ≤ u64_max
      → step s e ≡ some s'
      → replay_one A s n (record { seq_no = n; event = e }) ≡ done (s', suc n)
  unfolding starting_at
  replay_one-step_done s s' n e h p =
      done_of_catch (replay_one A s n (record { seq_no = n; event = e }))
        (replay_one-step s n e h ∙ ap (starting_at A (suc n)) p)

  -- A record whose number is not the one that its place in the page asks for, below or above, stops
  -- the replay there, whatever it holds and whatever follows: where the events before it replay, the
  -- error names the number found and the number expected.
  pub replay_page_gap :
      (s s' : A.State) (n : SeqNo) (es : List EncodedEvent) (stored : StoredEvent)
      (rest : List StoredEvent)
      → n + length es ≤ u64_max
      → replayed s es ≡ some s'
      → stored.seq_no ≢ n + length es
      → replay_page A s n (numbered n es ++ stored ∷ rest)
        ≡ failed (gap stored.seq_no (n + length es))
  unfolding replay_page replayed
  replay_page_gap s s' n [] stored rest room same other = unfold replay_one in ground arith
  replay_page_gap s s' n (e ∷ es) stored rest room same other = elim (Option-cases (step s e)) [
    | inl p ↦ absurd (cc (sym (ap (λ o. and_then o (λ x. replayed x es)) p) ∙ same))
    | inr (x, p) ↦ rw (replay_one-step_done s x n e (omega arith) p) (
        replay_page_gap x s' (suc n) es stored rest (omega arith)
          (sym (ap (λ o. and_then o (λ x. replayed x es)) p) ∙ same) (λ q. other (omega arith))
        ∙ ap (λ m. failed (gap stored.seq_no m)) (omega arith))
  ]
