-- ===== src/Highlevel/Tracking/Examples.antt =====
-- A history of the tracked connections at concrete inputs.
use hioload_ws.Prelude.{refl}
use hioload_ws.Prelude.{inl}
use hioload_ws.Prelude.{arith}
use hioload_ws.Prelude.{[]}
use hioload_ws.Highlevel.Tracking.Histories.{run_steps-conn_store}
use hioload_ws.Prelude.{◌↔◌, ◌↔◌, ◌∷◌}
use hioload_ws.Prelude.{none, true}
use hioload_ws.Highlevel.Tracking.{arrives}
use hioload_ws.Prelude.{some, ◌≡◌, ◌≡◌}
use hioload_ws.Highlevel.Tracking.{is_tracked}
use hioload_ws.Highlevel.Tracking.{Step}
use hioload_ws.Prelude.{List, Option, run_steps}
use hioload_ws.Highlevel.Tracking.{Tracker}
use hioload_ws.Highlevel.Tracking.{is_open, closes, closes_on, take_step, goes_on, new_tracker}

-- Connection 5 arrives, is closed and arrives again, before the deletion from the store and after it;
-- connection 6 comes meanwhile.
abbrev visits : List Step
visits =
    arrives 5
    ∷ goes_on
    ∷ goes_on
    ∷ goes_on
    ∷ closes 0
    ∷ closes_on 0
    ∷ arrives 6
    ∷ closes_on 0
    ∷ goes_on
    ∷ goes_on
    ∷ goes_on
    ∷ arrives 5
    ∷ closes_on 0
    ∷ arrives 5
    ∷ goes_on
    ∷ goes_on
    ∷ goes_on
    ∷ []

abbrev or_new_tracker : Option Tracker → Tracker
or_new_tracker none = new_tracker
or_new_tracker (some s) = s

abbrev after_visits : Tracker
after_visits = or_new_tracker (run_steps take_step visits new_tracker)

visited : run_steps take_step visits new_tracker ≡ some after_visits
unfolding run_steps take_step
visited = refl

run_steps-conn_store_example :
    (is_tracked 2 after_visits.connections ≡ true)
    × ((after_visits.conn_store 5 ≡ some 2) ↔ ((after_visits.conns 2).closing ≡ is_open))
unfolding run_steps take_step
run_steps-conn_store_example =
    run_steps-conn_store visits after_visits 2 visited (omega arith) (λ e. grind (arith, e)) refl
      (inl refl)
