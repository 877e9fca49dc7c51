-- ===== src/Executor/Examples.antt =====
-- Runs of the executor at concrete inputs.
-- Two workers, a task for each, and a resize to one worker; a call of `Submit` that had the second queue
-- by then enqueues in it when it is cut off, and the next one finds that its index is out of range.
use hioload_ws.Executor.{closes}
use hioload_ws.Executor.Rest.{closed-executed}
use hioload_ws.Executor.State.{holding}
use hioload_ws.Prelude.{◌≤◌, ◌≤◌}
use hioload_ws.Executor.State.{stopped}
use hioload_ws.Executor.State.{dequeuing, exited}
use hioload_ws.Prelude.{length}
use hioload_ws.Prelude.{refl}
use hioload_ws.Executor.{resize_ends}
use hioload_ws.Executor.{resize_begins}
use hioload_ws.Executor.Balance.{run_steps-accepted}
use hioload_ws.Executor.{resizes}
use hioload_ws.Executor.Sums.{queued}
use hioload_ws.Executor.{works}
use hioload_ws.Prelude.{true, ◌+◌, ◌+◌}
use hioload_ws.Prelude.{◌≡◌, ◌≡◌}
use hioload_ws.Executor.State.{new_worker}
use hioload_ws.Executor.{advances}
use hioload_ws.Prelude.{◌∷◌, ◌∷◌}
use hioload_ws.Executor.{submits}
use hioload_ws.Prelude.{[]}
use hioload_ws.Executor.Sums.{total}
use hioload_ws.Executor.{Step, take_step}
use hioload_ws.Executor.State.{new_executor}
use hioload_ws.Executor.State.{Executor}
use hioload_ws.Prelude.{List, run_steps}

abbrev shrinking : List Step
shrinking =
    submits 5
    ∷ advances 0 0
    ∷ advances 0 0
    ∷ advances 0 0
    ∷ submits 6
    ∷ advances 0 1
    ∷ advances 0 0
    ∷ submits 7
    ∷ advances 0 3
    ∷ works 0
    ∷ works 0
    ∷ resizes 1
    ∷ resize_begins
    ∷ works 1
    ∷ resize_ends
    ∷ advances 1 0
    ∷ advances 0 0
    ∷ []

abbrev shrunk : Executor
shrunk = record (new_executor 8 2) {
  queues = [] ∷ (6 ∷ []) ∷ [];
  local_queues = 0 ∷ [];
  workers = new_worker 0 ∷ [];
  accepted = 5 ∷ 6 ∷ [];
  executed = 5 ∷ [];
  panicked = true;
}

run_steps-accepted_example :
    total (λ t. t) (5 ∷ 6 ∷ [])
    ≡ total (λ t. t) (5 ∷ []) + (queued (λ t. t) ([] ∷ (6 ∷ []) ∷ []) + 0)
unfolding run_steps take_step
run_steps-accepted_example = run_steps-accepted (λ t. t) 8 2 shrinking shrunk refl

-- A worker that looks for a task when it is stopped; one more stands in its queue, and a call of
-- `Submit` still has that queue.
abbrev closed_state : Executor
closed_state = record (new_executor 8 1) {
  queues = (5 ∷ 6 ∷ []) ∷ [];
  workers = record { local_queue = 0; stop = true; place = dequeuing } ∷ [];
  closer = stopped;
  calls = holding 7 0 ∷ [];
  accepted = 5 ∷ 6 ∷ [];
}

abbrev later_state : Executor
later_state = record closed_state {
  queues = (6 ∷ 7 ∷ []) ∷ [];
  workers = record { local_queue = 0; stop = true; place = exited } ∷ [];
  calls = [];
  accepted = 5 ∷ 6 ∷ 7 ∷ [];
  executed = 5 ∷ [];
}

closed-executed_example : length later_state.executed ≤ 0 + 1
unfolding run_steps take_step
closed-executed_example =
    closed-executed closed_state (works 0 ∷ submits 9 ∷ advances 0 0 ∷ works 0 ∷ closes ∷ [])
      later_state (refl, tt) refl refl refl
