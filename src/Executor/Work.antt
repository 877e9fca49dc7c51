-- ===== src/Executor/Work.antt =====
-- The loop of a worker of core/concurrency/executor.go.
-- A step of worker `j`: `safeExecute` runs the task, whether it panics or not.
use hioload_ws.Prelude.{[]}
use hioload_ws.Prelude.{get_elem?, ◌++◌, ◌++◌}
use hioload_ws.Executor.State.{dequeuing, selecting, selecting}
use hioload_ws.Prelude.{◌∷◌}
use hioload_ws.Executor.State.{exited}
use hioload_ws.Prelude.{if◌then◌else◌, if◌then◌else◌}
use hioload_ws.Executor.State.{selecting_global}
use hioload_ws.Prelude.{none, none, none, none, set}
use hioload_ws.Executor.State.{WorkerPlace}
use hioload_ws.Prelude.{List, some}
use hioload_ws.Prelude.{Option}
use hioload_ws.Executor.State.{Worker}
use hioload_ws.Executor.State.{Executor}
use hioload_ws.Prelude.{ℕ}

abbrev pub dequeue_local : ℕ → Executor → Worker → List ℕ → Executor
dequeue_local j s w [] = record s {
  workers = set s.workers j (record w { place = selecting_global });
}
dequeue_local j s w (t ∷ q) = record s {
  queues = set s.queues w.local_queue q;
  workers = set s.workers j (record w { place = selecting });
  executed = s.executed ++ (t ∷ []);
}

abbrev pub dequeue_from : ℕ → Executor → Worker → Option (List ℕ) → Option Executor
dequeue_from j s w none = none
dequeue_from j s w (some q) = some (dequeue_local j s w q)

abbrev pub select_global : ℕ → Executor → Worker → List ℕ → Executor
select_global j s w [] = record s {
  workers = set s.workers j (record w { place = if w.stop then exited else selecting });
}
select_global j s w (t ∷ q) = record s {
  workers = set s.workers j (record w { place = selecting });
  global_queue = q;
  executed = s.executed ++ (t ∷ []);
}

abbrev pub work_at : ℕ → Executor → Worker → WorkerPlace → Option Executor
work_at j s w selecting = some (record s {
  workers = set s.workers j (record w { place = if w.stop then exited else dequeuing });
})
work_at j s w dequeuing = dequeue_from j s w (get_elem? s.queues w.local_queue)
work_at j s w selecting_global = some (select_global j s w s.global_queue)
work_at j s w exited = none

abbrev pub work : ℕ → Executor → Option Worker → Option Executor
work j s none = none
work j s (some w) = work_at j s w w.place

-- The second select takes `stopCh` although there is a task.
abbrev pub quit_at : ℕ → Executor → Worker → WorkerPlace → Option Executor
quit_at j s w selecting = none
quit_at j s w dequeuing = none
quit_at j s w selecting_global =
    if w.stop
    then some (record s { workers = set s.workers j (record w { place = exited }) })
    else none
quit_at j s w exited = none

abbrev pub quit_worker : ℕ → Executor → Option Worker → Option Executor
quit_worker j s none = none
quit_worker j s (some w) = quit_at j s w w.place
