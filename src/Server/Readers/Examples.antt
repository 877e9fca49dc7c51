-- ===== src/Server/Readers/Examples.antt =====
-- A run of the readers of a server at concrete inputs: the last `Push` comes after `Stop`.
use hioload_ws.Prelude.{◌⊎◌, ◌⊎◌}
use hioload_ws.Prelude.{false}
use hioload_ws.Server.Readers.Accounted.{offered}
use hioload_ws.Server.Readers.{push_fails}
use hioload_ws.Prelude.{true}
use hioload_ws.Server.Readers.Accounted.{accepted}
use hioload_ws.Server.Readers.{stop_called}
use hioload_ws.Prelude.{◌++◌, ◌∷◌, ◌≡◌, List, [], if◌then◌else◌, ltb, refl, run_steps, ℕ}
use hioload_ws.EventLoop.{calling, new_event_loop}
use hioload_ws.Server.Readers.{
  Readers, Step, advanced, loops, pushes_next, put, reads, run_called, take_step,
}
use hioload_ws.Server.Readers.Delivery.{run_steps-delivered}

-- Events below 10 are of connection 0, the others of connection 1.
abbrev tens : ℕ → ℕ
tens ev = if ltb ev 10 then 0 else 1

abbrev two_readers : List Step
two_readers =
    reads 0 (1 ∷ 2 ∷ [])
    ∷ reads 1 (11 ∷ [])
    ∷ pushes_next 0
    ∷ pushes_next 1
    ∷ loops run_called
    ∷ loops advanced
    ∷ loops advanced
    ∷ loops advanced
    ∷ loops advanced
    ∷ loops advanced
    ∷ loops advanced
    ∷ loops stop_called
    ∷ push_fails 0
    ∷ []

abbrev after_readers : Readers
after_readers = record {
  loop = record (new_event_loop 4 4) {
    handlers = 7 ∷ [];
    quit = true;
    place = calling ((7, 11) ∷ []);
    batch = 1 ∷ 11 ∷ [];
    pushed = 1 ∷ 11 ∷ [];
    dispatched = 1 ∷ 11 ∷ [];
    called = (7, 1) ∷ [];
  };
  to_push = put (put (put (put (put (λ c. []) 0 (1 ∷ 2 ∷ [])) 1 (11 ∷ [])) 0 (2 ∷ [])) 1 []) 0 [];
  answers =
      put (put (put (λ c. []) 0 ((1, true) ∷ [])) 1 ((11, true) ∷ [])) 0
        ((1, true) ∷ (2, false) ∷ []);
  taken = put (put (λ c. []) 0 (1 ∷ 2 ∷ [])) 1 (11 ∷ []);
}

run_steps-delivered_example :
    ((1 ∷ []) ++ [] ≡ accepted (after_readers.answers 0))
    × (offered (after_readers.answers 0) ++ after_readers.to_push 0 ≡ after_readers.taken 0)
    × ((after_readers.loop.quit ≡ true)
        ⊎ (accepted (after_readers.answers 0) ≡ offered (after_readers.answers 0)))
unfolding run_steps take_step hioload_ws.EventLoop.take_step
run_steps-delivered_example = run_steps-delivered tens 4 4 7 two_readers after_readers 0 refl
