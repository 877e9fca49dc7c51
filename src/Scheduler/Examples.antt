-- ===== src/Scheduler/Examples.antt =====
-- Runs of the scheduler at concrete inputs.
use hioload_ws.Prelude.{true}
use hioload_ws.Prelude.{◌∷◌, ◌≡◌, ◌≢◌, ◌≤◌, ◌⊎◌, [], false, refl, run_steps}
use hioload_ws.Scheduler.{
  Task, cancels, fires, gone, leaves, schedule, sees_done, stopped, take_step,
}
use hioload_ws.Scheduler.Once.{run_steps-once}

abbrev cut_short : Task
cut_short = record schedule { timer = stopped; goroutine = gone; done = true; in_timers = false }

run_steps-once_example :
    (0 ≤ 1)
    × ((cut_short.done ≡ false) ⊎ ((cut_short.timer ≡ stopped) × (cut_short.runs ≡ 0)))
    × ((cut_short.goroutine ≢ gone) ⊎ (cut_short.in_timers ≡ false))
    × (cut_short.panicked ≡ false)
unfolding run_steps take_step
run_steps-once_example =
    run_steps-once (fires ∷ cancels ∷ sees_done ∷ leaves ∷ cancels ∷ []) cut_short refl
