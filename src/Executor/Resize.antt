-- ===== src/Executor/Resize.antt =====
-- `Resize`, `manageResizes` and `Close` of core/concurrency/executor.go.
-- The receive of a request by `manageResizes`; a send on the closed channel is a panic.
use hioload_ws.Executor.State.{selecting_global}
use hioload_ws.Executor.State.{dequeuing, new_workers}
use hioload_ws.Executor.State.{addresses, selecting}
use hioload_ws.Prelude.{◌-◌}
use hioload_ws.Prelude.{[], [], [], [], length, take}
use hioload_ws.Executor.State.{awaiting, awaiting, exited, is_closed, is_open, stopped}
use Prim.Native.Nat.{zero}
use hioload_ws.Prelude.{false, ltb, none, replicate, some, ◌∷◌}
use hioload_ws.Executor.State.{closing, removing, requested}
use hioload_ws.Prelude.{Bool, List, Option, if◌then◌else◌, if◌then◌else◌, suc, true, ◌++◌, ◌++◌}
use hioload_ws.Executor.State.{Closer}
use hioload_ws.Executor.State.{Executor, Manager, Worker, WorkerPlace}
use hioload_ws.Prelude.{ℕ}

abbrev pub request_resize : ℕ → Executor → Manager → Option Executor
request_resize n s awaiting = some (
    if is_closed s.closer then record s { panicked = true } else record s { manager = requested n })
request_resize n s (requested m) =
    if is_closed s.closer then some (record s { panicked = true }) else none
request_resize n s (removing m) =
    if is_closed s.closer then some (record s { panicked = true }) else none

-- `newCount` that is not positive is 1.
abbrev pub at_least_one : ℕ → ℕ
at_least_one zero = 1
at_least_one (suc n) = suc n

-- The closing of the stop channels of the workers behind the first `n`, with whether one of them was
-- closed already.
abbrev pub stop_worker : Worker → Worker
stop_worker w = record w { stop = true }

abbrev pub stop_from : ℕ → List Worker → List Worker
stop_from n [] = []
stop_from zero (w ∷ ws) = stop_worker w ∷ stop_from zero ws
stop_from (suc n) (w ∷ ws) = w ∷ stop_from n ws

abbrev pub any_stopped : ℕ → List Worker → Bool
any_stopped n [] = false
any_stopped zero (w ∷ ws) = if w.stop then true else any_stopped zero ws
any_stopped (suc n) (w ∷ ws) = any_stopped n ws

abbrev pub stop_extra : ℕ → Executor → Executor
stop_extra n s =
    if any_stopped n s.workers
    then record s { panicked = true }
    else record s { workers = stop_from n s.workers; manager = removing n }

-- The loop that adds `n` workers and their queues.
abbrev pub add_workers : ℕ → Executor → Executor
add_workers n s = record s {
  queues = s.queues ++ replicate n [];
  local_queues = s.local_queues ++ addresses (length s.queues) n;
  workers = s.workers ++ new_workers (length s.queues) n;
  manager = awaiting;
}

-- `manageResizes` once it has the mutex.
abbrev pub resize_to : ℕ → Executor → Executor
resize_to n s =
    if ltb (length s.workers) n
    then add_workers (n - length s.workers) s
    else if ltb n (length s.workers)
    then stop_extra n s
    else record s { manager = awaiting }

abbrev pub begin_resize : Executor → Manager → Option Executor
begin_resize s awaiting = none
begin_resize s (requested n) = some (resize_to (at_least_one n) s)
begin_resize s (removing n) = none

-- Whether all the workers behind the first `n` have exited.
abbrev pub is_exited : WorkerPlace → Bool
is_exited exited = true
is_exited selecting = false
is_exited dequeuing = false
is_exited selecting_global = false

abbrev pub all_exited : ℕ → List Worker → Bool
all_exited n [] = true
all_exited zero (w ∷ ws) = if is_exited w.place then all_exited zero ws else false
all_exited (suc n) (w ∷ ws) = all_exited n ws

-- The cutting of the two slices after the last `stoppedCh`.
abbrev pub end_resize : Executor → Manager → Option Executor
end_resize s awaiting = none
end_resize s (requested n) = none
end_resize s (removing n) =
    if all_exited n s.workers
    then some (record s {
      workers = take n s.workers;
      local_queues = take n s.local_queues;
      manager = awaiting;
    })
    else none

-- `Close` up to the mutex, and the closing of the stop channels, for which the mutex has to be free.
abbrev pub begin_close : Executor → Closer → Executor
begin_close s is_open = record s { closer = closing }
begin_close s closing = s
begin_close s stopped = s

abbrev pub mutex_free : Manager → Bool
mutex_free awaiting = true
mutex_free (requested n) = true
mutex_free (removing n) = false

abbrev pub stop_all : Executor → Closer → Option Executor
stop_all s is_open = none
stop_all s closing =
    if mutex_free s.manager
    then some (
        if any_stopped 0 s.workers
        then record s { panicked = true }
        else record s { workers = stop_from 0 s.workers; closer = stopped })
    else none
stop_all s stopped = none
