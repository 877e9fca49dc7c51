-- ===== src/Scheduler.antt =====
-- core/concurrency/scheduler.go and its copy in internal/concurrency. The functions that are scheduled
-- share only the map of timers, where each has its own entry, so the state is that of one of them: its
-- timer, the goroutine that `Schedule` starts, and the `schedCancelable`. `none` means that a step
-- cannot be taken. Timers are those of Go 1.23, which go.mod asks for: `Stop` also stops a timer that
-- has expired and was not received from, after which nothing can be received, and is true just if it
-- stopped the timer.
pub mod Once
mod Examples
use hioload_ws.Prelude.{◌+◌, Bool, Option, false, if◌then◌else◌, none, some, true, ℕ}

-- The timer counts, has expired and waits for `timer.C` to be received from, was received from, or
-- was stopped.
pub data Timer : Type 0 where
  armed fired drained stopped : Timer

-- The goroutine waits in its select, is in `fn`, is behind the select, or has returned.
pub data Goroutine : Type 0 where
  waiting calling leaving gone : Goroutine

-- `done` tells that the channel is closed, `in_timers` that the map has the timer, `runs` how often
-- `fn` was called; `panicked` is a second close of `done`.
pub record Task : Type 0 where
  pub timer : Timer
  pub goroutine : Goroutine
  pub done : Bool
  pub in_timers : Bool
  pub runs : ℕ
  pub panicked : Bool

abbrev pub schedule : Task
schedule = record {
  timer = armed;
  goroutine = waiting;
  done = false;
  in_timers = true;
  runs = 0;
  panicked = false;
}

-- The timer expires.
abbrev pub fire : Task → Timer → Option Task
fire s armed = some (record s { timer = fired })
fire s fired = none
fire s drained = none
fire s stopped = none

-- The two cases of the select.
abbrev pub receive : Task → Goroutine → Timer → Option Task
receive s waiting fired =
    some (record s { timer = drained; goroutine = calling; runs = s.runs + 1 })
receive s _ _ = none

abbrev pub see_done : Task → Goroutine → Option Task
see_done s waiting = if s.done then some (record s { goroutine = leaving }) else none
see_done s calling = none
see_done s leaving = none
see_done s gone = none

-- `fn` returns; then the timer is deleted from the map.
abbrev pub leave : Task → Goroutine → Option Task
leave s waiting = none
leave s calling = some (record s { goroutine = leaving })
leave s leaving = some (record s { goroutine = gone; in_timers = false })
leave s gone = none

abbrev pub close_done : Task → Task
close_done s = if s.done then record s { panicked = true } else record s { done = true }

-- `cancel`, of which `Cancel` of the cancelable is a call.
abbrev pub cancel : Task → Timer → Task
cancel s armed = close_done (record s { timer = stopped })
cancel s fired = close_done (record s { timer = stopped })
cancel s drained = s
cancel s stopped = s

-- `Cancel` of the scheduler is `cancel` and then this.
abbrev pub forget : Task → Task
forget s = record s { in_timers = false }

pub data Step : Type 0 where
  fires receives sees_done leaves cancels forgets : Step

unfoldable pub take_step : Step → Task → Option Task
take_step fires s = fire s s.timer
take_step receives s = receive s s.goroutine s.timer
take_step sees_done s = see_done s s.goroutine
take_step leaves s = leave s s.goroutine
take_step cancels s = some (cancel s s.timer)
take_step forgets s = some (forget s)
