-- ===== src/EventLoop/Order.antt =====
-- The order of the events in the loop of internal/concurrency.
use hioload_ws.Prelude.{
  ◌++◌, ◌∙◌, ◌∷◌, ◌≡◌, List, OnSome, [], ap, append-snoc, append_assoc, arith, false, if_cases,
  if_lem, length, ltb, refl, run_steps, run_steps-always, some, sym, ℕ,
}
use hioload_ws.EventLoop.{
  EventLoop, Place, Step, advance, advances, after_drain, call_next, calling, clearing, dispatch,
  drain_one, draining, idle, leave_run, new_event_loop, panicked, push_fails, pushes, receive_event,
  receives, registers, returned, running, runs, see_quit, sees_quit, start_run, stops, take_step,
  testing, time_out, times_out, unregisters, waiting,
}

-- The events of the batch that were not dispatched yet.
abbrev pub waiting_events : Place → List ℕ → List ℕ
waiting_events waiting b = b
waiting_events testing b = b
waiting_events (draining i) b = b
waiting_events _ b = []

-- The batch of the waiting select is empty.
abbrev pub IsWaitEmpty : Place → List ℕ → Type 0
IsWaitEmpty waiting b = b ≡ []
IsWaitEmpty _ b = Unit {0}

-- Every event that was accepted was dispatched, waits in the batch or waits in the inbox, in order.
abbrev pub InOrder : EventLoop → Type 0
InOrder s =
    (s.pushed ≡ s.dispatched ++ (waiting_events s.place s.batch ++ s.inbox))
    × IsWaitEmpty s.place s.batch

-- The first event of the inbox goes to the batch.
append-moved :
    {p : List ℕ} (d b q : List ℕ) (ev : ℕ)
    → p ≡ d ++ (b ++ (ev ∷ q))
    → p ≡ d ++ ((b ++ (ev ∷ [])) ++ q)
append-moved d b q ev h = h ∙ ap (λ z. d ++ z) (sym (append_assoc b (ev ∷ []) q))

-- Outside the loop no event waits in the batch.
at_rest : (p : Place) (b : List ℕ) → running p ≡ false → waiting_events p b ≡ []
at_rest idle b r = refl
at_rest returned b r = refl
at_rest clearing b r = refl
at_rest waiting b r = grind (arith, r)
at_rest testing b r = grind (arith, r)
at_rest panicked b r = refl
at_rest (draining i) b r = grind (arith, r)
at_rest (calling cs) b r = refl

module _ (s : EventLoop) where
  after_drain-InOrder :
      (b : List ℕ)
      → b ≡ s.batch
      → s.pushed ≡ s.dispatched ++ (s.batch ++ s.inbox)
      → InOrder (after_drain s b)
  after_drain-InOrder [] e h = (h, sym e)
  after_drain-InOrder (ev ∷ evs) e h = (h, tt)

  drain_one-InOrder :
      (i : ℕ) (q : List ℕ)
      → q ≡ s.inbox
      → s.pushed ≡ s.dispatched ++ (s.batch ++ q)
      → InOrder (drain_one s i q)
  drain_one-InOrder i [] e h =
      after_drain-InOrder s.batch refl (h ∙ ap (λ z. s.dispatched ++ (s.batch ++ z)) e)
  drain_one-InOrder i (ev ∷ q) e h =
      if_lem InOrder (ltb i s.batch_size) (append-moved s.dispatched s.batch q ev h, tt)
        (after_drain-InOrder s.batch refl (h ∙ ap (λ z. s.dispatched ++ (s.batch ++ z)) e))

  dispatch-InOrder :
      (b : List ℕ) → s.pushed ≡ s.dispatched ++ (b ++ s.inbox) → InOrder (dispatch s b)
  dispatch-InOrder [] h = (h, tt)
  dispatch-InOrder (ev ∷ evs) h = (h ∙ sym (append_assoc s.dispatched (ev ∷ evs) s.inbox), tt)

  call_next-InOrder :
      (cs : List (ℕ × ℕ)) → s.pushed ≡ s.dispatched ++ s.inbox → InOrder (call_next s cs)
  call_next-InOrder [] h = (h, tt)
  call_next-InOrder (c ∷ cs) h = (h, tt)

  advance-InOrder :
      (p : Place)
      → s.pushed ≡ s.dispatched ++ (waiting_events p s.batch ++ s.inbox)
      → OnSome InOrder (advance s p)
  advance-InOrder idle h = tt
  advance-InOrder clearing h = (h, tt)
  advance-InOrder waiting h = tt
  advance-InOrder testing h = dispatch-InOrder s.batch h
  advance-InOrder returned h = tt
  advance-InOrder panicked h = tt
  advance-InOrder (draining i) h = drain_one-InOrder i s.inbox refl h
  advance-InOrder (calling cs) h = call_next-InOrder cs h

  start_run-InOrder : InOrder s → InOrder (start_run s)
  start_run-InOrder h =
      if_cases InOrder (running s.place) (λ r. h)
        (λ r. (h.0 ∙ ap (λ z. s.dispatched ++ (z ++ s.inbox)) (at_rest s.place s.batch r), tt))

  leave_run-InOrder : s.pushed ≡ s.dispatched ++ s.inbox → InOrder (leave_run s)
  leave_run-InOrder h = if_lem InOrder s.done (h, tt) (h, tt)

  see_quit-InOrder :
      (p : Place)
      → s.pushed ≡ s.dispatched ++ (waiting_events p s.batch ++ s.inbox)
      → IsWaitEmpty p s.batch
      → OnSome InOrder (see_quit s p)
  see_quit-InOrder waiting h w =
      if_lem (OnSome InOrder) s.quit
        (leave_run-InOrder (h ∙ ap (λ z. s.dispatched ++ (z ++ s.inbox)) w)) tt
  see_quit-InOrder idle h w = tt
  see_quit-InOrder clearing h w = tt
  see_quit-InOrder testing h w = tt
  see_quit-InOrder returned h w = tt
  see_quit-InOrder panicked h w = tt
  see_quit-InOrder (draining i) h w = tt
  see_quit-InOrder (calling cs) h w = tt

  receive_event-InOrder :
      (p : Place) (q : List ℕ)
      → s.pushed ≡ s.dispatched ++ (waiting_events p s.batch ++ q)
      → OnSome InOrder (receive_event s p q)
  receive_event-InOrder waiting [] h = tt
  receive_event-InOrder waiting (ev ∷ q) h = (append-moved s.dispatched s.batch q ev h, tt)
  receive_event-InOrder idle q h = tt
  receive_event-InOrder clearing q h = tt
  receive_event-InOrder testing q h = tt
  receive_event-InOrder returned q h = tt
  receive_event-InOrder panicked q h = tt
  receive_event-InOrder (draining i) q h = tt
  receive_event-InOrder (calling cs) q h = tt

  time_out-InOrder :
      (p : Place)
      → s.pushed ≡ s.dispatched ++ (waiting_events p s.batch ++ s.inbox)
      → OnSome InOrder (time_out s p)
  time_out-InOrder waiting h = (h, tt)
  time_out-InOrder idle h = tt
  time_out-InOrder clearing h = tt
  time_out-InOrder testing h = tt
  time_out-InOrder returned h = tt
  time_out-InOrder panicked h = tt
  time_out-InOrder (draining i) h = tt
  time_out-InOrder (calling cs) h = tt

pub take_step-InOrder :
    (step : Step) (s : EventLoop) → InOrder s → OnSome InOrder (take_step step s)
unfolding take_step
take_step-InOrder (pushes ev) s h =
    if_lem (OnSome InOrder) (ltb (length s.inbox) s.ring_capacity)
      (append-snoc s.dispatched (waiting_events s.place s.batch) s.inbox ev h.0, h.1) tt
take_step-InOrder (registers k) s h = h
take_step-InOrder (unregisters k) s h = h
take_step-InOrder push_fails s h = if_lem (OnSome InOrder) s.quit h tt
take_step-InOrder runs s h = start_run-InOrder s h
take_step-InOrder stops s h = h
take_step-InOrder advances s h = advance-InOrder s s.place h.0
take_step-InOrder sees_quit s h = see_quit-InOrder s s.place h.0 h.1
take_step-InOrder receives s h = receive_event-InOrder s s.place s.inbox h.0
take_step-InOrder times_out s h = time_out-InOrder s s.place h.0

-- Every event that `Push` accepted is in one place and in its order: after every sequence of steps of
-- the producers, of the loop and of `Stop`, the events whose dispatch began, those that wait in the
-- batch and those in the inbox are together the accepted ones, in the order of the calls of `Push`.
pub run_steps-in_order :
    (batch_size ring_capacity : ℕ) (steps : List Step) (s : EventLoop)
    → run_steps take_step steps (new_event_loop batch_size ring_capacity) ≡ some s
    → s.pushed ≡ s.dispatched ++ (waiting_events s.place s.batch ++ s.inbox)
run_steps-in_order batch_size ring_capacity steps s e =
    (run_steps-always take_step InOrder take_step-InOrder steps
      (new_event_loop batch_size ring_capacity) (refl, tt) s e).0
