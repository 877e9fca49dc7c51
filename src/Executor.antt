-- ===== src/Executor.antt =====
-- core/concurrency/executor.go, of which internal/concurrency/executor.go is a copy over the other
-- queue. The goroutines that take part are the callers of `Submit`, the workers, `manageResizes` and
-- `Close`; what one of them does between two points where another can come in is one step, and `none`
-- means that the step cannot be taken in that state. Tasks are numbers that name them. A local queue
-- is a list of at most 1024 tasks, as the lock-free queue behaves; it is created with that capacity.
-- A load of a slice, which the source does without a lock, is one step.
pub mod State
pub mod Submit
pub mod Resize
pub mod Work
pub mod Sums
pub mod Balance
pub mod Rest
mod Examples
use hioload_ws.Executor.Resize.{stop_all}
use hioload_ws.Executor.Resize.{begin_close}
use hioload_ws.Executor.Resize.{end_resize}
use hioload_ws.Executor.Resize.{begin_resize}
use hioload_ws.Executor.Submit.{advance_picked}
use hioload_ws.Executor.Submit.{pick}
use hioload_ws.Executor.Submit.{give_up_picked}
use hioload_ws.Executor.Work.{quit_worker}
use hioload_ws.Prelude.{get_elem?}
use hioload_ws.Executor.Work.{work}
use hioload_ws.Executor.Resize.{request_resize}
use hioload_ws.Prelude.{none}
use hioload_ws.Executor.Submit.{check_open}
use hioload_ws.Prelude.{if◌then◌else◌, if◌then◌else◌, some}
use hioload_ws.Prelude.{Option}
use hioload_ws.Prelude.{ℕ}
use hioload_ws.Executor.State.{Executor}

-- `advances i now` is the next step of the `i`th call under way, `gives_up i` the end of one.
pub data Step : Type 0 where
  submits resizes works quits gives_up : ℕ → Step
  advances : ℕ → ℕ → Step
  resize_begins resize_ends closes stops_all : Step

abbrev pub step_of : Step → Executor → Option Executor
step_of (submits task) s = some (check_open task s)
step_of (resizes n) s = request_resize n s s.manager
step_of (works j) s = work j s (get_elem? s.workers j)
step_of (quits j) s = quit_worker j s (get_elem? s.workers j)
step_of (gives_up i) s = give_up_picked s (pick i s.calls)
step_of (advances i now) s = advance_picked now s (pick i s.calls)
step_of resize_begins s = begin_resize s s.manager
step_of resize_ends s = end_resize s s.manager
step_of closes s = some (begin_close s s.closer)
step_of stops_all s = stop_all s s.closer

-- After a panic there is no step.
unfoldable pub take_step : Step → Executor → Option Executor
take_step step s = if s.panicked then none else step_of step s
