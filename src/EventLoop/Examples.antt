-- ===== src/EventLoop/Examples.antt =====
-- Runs of the event loop at concrete inputs.
use hioload_ws.Prelude.{◌++◌, ◌∷◌, ◌≡◌, List, [], arith, refl, run_steps, some, ℕ}
use hioload_ws.EventLoop.{
  EventLoop, Step, calling, calls_of, clearing, new_event_loop, pushes, runs, take_step, waiting,
}
use hioload_ws.EventLoop.Alone.{only_advances, run-catches_up}
use hioload_ws.EventLoop.Calls.{run_steps-calls}

-- A loop with a batch of two and the handlers 7 and 8; three events are pushed before `Run`.
abbrev three_pushed : List Step
three_pushed = pushes 1 ∷ pushes 2 ∷ pushes 3 ∷ runs ∷ only_advances 6

abbrev some_state : EventLoop
some_state = record (new_event_loop 2 4) {
  handlers = 7 ∷ 8 ∷ [];
  inbox = 3 ∷ [];
  place = calling ((8, 1) ∷ (7, 2) ∷ (8, 2) ∷ []);
  batch = 1 ∷ 2 ∷ [];
  pushed = 1 ∷ 2 ∷ 3 ∷ [];
  dispatched = 1 ∷ 2 ∷ [];
  called = (7, 1) ∷ [];
}

abbrev top_state : EventLoop
top_state = record (new_event_loop 2 4) {
  handlers = 7 ∷ 8 ∷ [];
  inbox = 1 ∷ 2 ∷ 3 ∷ [];
  place = clearing;
}

abbrev waiting_state : EventLoop
waiting_state = record (new_event_loop 2 4) { inbox = 5 ∷ []; place = waiting; pushed = 5 ∷ [] }

run_steps-calls_example :
    ((7, 1) ∷ []) ++ (((8, 1) ∷ (7, 2) ∷ (8, 2) ∷ []) ++ calls_of (7 ∷ 8 ∷ []) (3 ∷ []))
    ≡ calls_of (7 ∷ 8 ∷ []) (1 ∷ 2 ∷ 3 ∷ [])
unfolding run_steps take_step
run_steps-calls_example =
    run_steps-calls 2 4 (7 ∷ 8 ∷ []) three_pushed some_state
      (tt, (tt, (tt, (tt, (tt, (tt, (tt, (tt, (tt, (tt, tt)))))))))) refl

run-catches_up_example :
    (n : ℕ) × (s' : EventLoop) × (run_steps take_step (only_advances n) top_state ≡ some s')
    × (s'.place ≡ waiting)
    × (s'.inbox ≡ [])
    × (s'.dispatched ≡ [] ++ (1 ∷ 2 ∷ 3 ∷ []))
    × (s'.called ≡ [] ++ calls_of (7 ∷ 8 ∷ []) (1 ∷ 2 ∷ 3 ∷ []))
run-catches_up_example = run-catches_up top_state (omega arith) refl
