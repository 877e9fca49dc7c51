-- ===== src/EventLoop/Calls.antt =====
-- The calls of the handlers by the loop of internal/concurrency.
use hioload_ws.Prelude.{
  ◌++◌, ◌∙◌, ◌∷◌, ◌≡◌, All, List, OnSome, [], ap, append-nil, append_assoc, arith, false, if_cases,
  if_lem, length, ltb, refl, run_steps, run_steps-always, run_steps-keeps, some, sym, ℕ,
}
use hioload_ws.EventLoop.{
  EventLoop, Place, Step, advance, advances, after_drain, call_next, calling, calls_of, calls_with,
  clearing, dispatch, drain_one, draining, idle, new_event_loop, panicked, push_fails, pushes,
  receive_event, receives, registers, returned, running, runs, see_quit, sees_quit, start_run,
  stops, take_step, testing, time_out, times_out, unregisters, waiting,
}
use hioload_ws.EventLoop.Order.{InOrder, take_step-InOrder, waiting_events}

-- The calls of the current dispatch that are left.
abbrev pub calls_left : Place → List (ℕ × ℕ)
calls_left (calling cs) = cs
calls_left _ = []

-- The steps that change no handler.
abbrev pub KeepsHandlers : Step → Type 0
KeepsHandlers (registers h) = ⊥
KeepsHandlers (unregisters h) = ⊥
KeepsHandlers _ = Unit {0}

pub calls_of-append :
    (hs evs more : List ℕ) → calls_of hs (evs ++ more) ≡ calls_of hs evs ++ calls_of hs more
calls_of-append hs [] more = refl
calls_of-append hs (ev ∷ evs) more =
    ap (λ z. calls_with hs ev ++ z) (calls_of-append hs evs more)
    ∙ sym (append_assoc (calls_with hs ev) (calls_of hs evs) (calls_of hs more))

-- The calls that were made and those that are left are the calls of what was dispatched.
abbrev pub Called : List ℕ → EventLoop → Type 0
Called hs s = (s.handlers ≡ hs) × (s.called ++ calls_left s.place ≡ calls_of hs s.dispatched)

not_running : (p : Place) → running p ≡ false → calls_left p ≡ []
not_running (calling cs) r = grind (arith, r)
not_running idle r = refl
not_running clearing r = refl
not_running waiting r = refl
not_running testing r = refl
not_running returned r = refl
not_running panicked r = refl
not_running (draining i) r = refl

module _ (hs : List ℕ) (s : EventLoop) (fixed : s.handlers ≡ hs) where
  after_drain-Called :
      (b : List ℕ) → s.called ++ [] ≡ calls_of hs s.dispatched → Called hs (after_drain s b)
  after_drain-Called [] h = (fixed, h)
  after_drain-Called (ev ∷ evs) h = (fixed, h)

  drain_one-Called :
      (i : ℕ) (q : List ℕ) → s.called ++ [] ≡ calls_of hs s.dispatched → Called hs (drain_one s i q)
  drain_one-Called i [] h = after_drain-Called s.batch h
  drain_one-Called i (ev ∷ q) h =
      if_lem (Called hs) (ltb i s.batch_size) (fixed, h) (after_drain-Called s.batch h)

  dispatch-Called :
      (b : List ℕ) → s.called ++ [] ≡ calls_of hs s.dispatched → Called hs (dispatch s b)
  dispatch-Called [] h = (fixed, h)
  dispatch-Called (ev ∷ evs) h = (
    fixed,
    ap (λ z. z ++ calls_of s.handlers (ev ∷ evs)) (sym (append-nil s.called) ∙ h)
        ∙ ap (λ k. calls_of hs s.dispatched ++ calls_of k (ev ∷ evs)) fixed
        ∙ sym (calls_of-append hs s.dispatched (ev ∷ evs)),
  )

  call_next-Called :
      (cs : List (ℕ × ℕ)) → s.called ++ cs ≡ calls_of hs s.dispatched → Called hs (call_next s cs)
  call_next-Called [] h = (fixed, h)
  call_next-Called (c ∷ cs) h = (fixed, append_assoc s.called (c ∷ []) cs ∙ h)

  advance-Called :
      (p : Place)
      → s.called ++ calls_left p ≡ calls_of hs s.dispatched
      → OnSome (Called hs) (advance s p)
  advance-Called idle h = tt
  advance-Called clearing h = (fixed, h)
  advance-Called waiting h = tt
  advance-Called testing h = dispatch-Called s.batch h
  advance-Called returned h = tt
  advance-Called panicked h = tt
  advance-Called (draining i) h = drain_one-Called i s.inbox h
  advance-Called (calling cs) h = call_next-Called cs h

  start_run-Called :
      s.called ++ calls_left s.place ≡ calls_of hs s.dispatched → Called hs (start_run s)
  start_run-Called h =
      if_cases (Called hs) (running s.place) (λ r. (fixed, h))
        (λ r. (fixed, ap (λ z. s.called ++ z) (sym (not_running s.place r)) ∙ h))

  see_quit-Called :
      (p : Place)
      → s.called ++ calls_left p ≡ calls_of hs s.dispatched
      → OnSome (Called hs) (see_quit s p)
  see_quit-Called waiting h =
      if_lem (OnSome (Called hs)) s.quit (if_lem (Called hs) s.done (fixed, h) (fixed, h)) tt
  see_quit-Called idle h = tt
  see_quit-Called clearing h = tt
  see_quit-Called testing h = tt
  see_quit-Called returned h = tt
  see_quit-Called panicked h = tt
  see_quit-Called (draining i) h = tt
  see_quit-Called (calling cs) h = tt

  receive_event-Called :
      (p : Place) (q : List ℕ)
      → s.called ++ calls_left p ≡ calls_of hs s.dispatched
      → OnSome (Called hs) (receive_event s p q)
  receive_event-Called waiting [] h = tt
  receive_event-Called waiting (ev ∷ q) h = (fixed, h)
  receive_event-Called idle q h = tt
  receive_event-Called clearing q h = tt
  receive_event-Called testing q h = tt
  receive_event-Called returned q h = tt
  receive_event-Called panicked q h = tt
  receive_event-Called (draining i) q h = tt
  receive_event-Called (calling cs) q h = tt

  time_out-Called :
      (p : Place)
      → s.called ++ calls_left p ≡ calls_of hs s.dispatched
      → OnSome (Called hs) (time_out s p)
  time_out-Called waiting h = (fixed, h)
  time_out-Called idle h = tt
  time_out-Called clearing h = tt
  time_out-Called testing h = tt
  time_out-Called returned h = tt
  time_out-Called panicked h = tt
  time_out-Called (draining i) h = tt
  time_out-Called (calling cs) h = tt

pub take_step-Called :
    (hs : List ℕ) (step : Step)
    → KeepsHandlers step
    → (s : EventLoop) → Called hs s
    → OnSome (Called hs) (take_step step s)
unfolding take_step
take_step-Called hs (pushes ev) k s h =
    if_lem (OnSome (Called hs)) (ltb (length s.inbox) s.ring_capacity) h tt
take_step-Called hs (registers k) x s h = absurd x
take_step-Called hs (unregisters k) x s h = absurd x
take_step-Called hs push_fails k s h = if_lem (OnSome (Called hs)) s.quit h tt
take_step-Called hs runs k s h = start_run-Called hs s h.0 h.1
take_step-Called hs stops k s h = h
take_step-Called hs advances k s h = advance-Called hs s h.0 s.place h.1
take_step-Called hs sees_quit k s h = see_quit-Called hs s h.0 s.place h.1
take_step-Called hs receives k s h = receive_event-Called hs s h.0 s.place s.inbox h.1
take_step-Called hs times_out k s h = time_out-Called hs s h.0 s.place h.1

-- The calls of a run: with the handlers `hs` registered before and none added or removed later, the
-- calls that were made, those that the current dispatch has left and those that the events waiting in
-- the batch and the inbox will give are the calls of the accepted events, each event to every handler
-- in the order of registration, and the events in the order of `Push`.
pub run_steps-calls :
    (batch_size ring_capacity : ℕ) (hs : List ℕ) (steps : List Step) (s : EventLoop)
    → All KeepsHandlers steps
    → run_steps take_step steps (record (new_event_loop batch_size ring_capacity) { handlers = hs })
      ≡ some s
    → s.called ++ (calls_left s.place ++ calls_of hs (waiting_events s.place s.batch ++ s.inbox))
      ≡ calls_of hs s.pushed
run_steps-calls batch_size ring_capacity hs steps s a e =
    let start = record (new_event_loop batch_size ring_capacity) { handlers = hs } in
    let called : Called hs s =
      run_steps-keeps take_step KeepsHandlers (Called hs) (take_step-Called hs) steps a start
        (refl, refl) s e in
    let ordered : InOrder s =
      run_steps-always take_step InOrder take_step-InOrder steps start (refl, tt) s e in
    let rest = waiting_events s.place s.batch ++ s.inbox in
    sym (append_assoc s.called (calls_left s.place) (calls_of hs rest))
    ∙ ap (λ z. z ++ calls_of hs rest) called.1
    ∙ sym (calls_of-append hs s.dispatched rest)
    ∙ ap (calls_of hs) (sym ordered.0)
