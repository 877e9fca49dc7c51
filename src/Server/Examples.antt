-- ===== src/Server/Examples.antt =====
-- Runs of the server at concrete inputs.
use hioload_ws.Prelude.{◌∷◌, ◌≡◌, ◌≤◌, List, [], arith, length, refl, run_steps, some, true}
use hioload_ws.Executor.State.{new_executor}
use hioload_ws.Poller.{new_poller_adapter}
use hioload_ws.Server.{
  Config, Server, Step, accepts, default_config, ends, new_server, plain_server, shuts_down,
  take_step, with_batch_size, with_executor_workers,
}
use hioload_ws.Server.Limit.{run_steps-limited}
use hioload_ws.Server.Options.{new_server-parts}

abbrev small_config : Config
small_config = record (default_config 4) { executor_workers = 2; max_connections = 2 }

new_server-parts_example :
    ((new_server 4 (some small_config) (with_batch_size 64 ∷ with_executor_workers 8 ∷ [])).poller
      ≡ new_poller_adapter 32 1024)
    × ((new_server 4
          (some small_config)
          (with_batch_size 64 ∷ with_executor_workers 8 ∷ [])).executor
        ≡ new_executor 4 2)
new_server-parts_example =
    new_server-parts 4 small_config (with_batch_size 64 ∷ with_executor_workers 8 ∷ [])

-- The third connection is turned away, the fourth comes after one has ended.
abbrev four_connections : List Step
four_connections = accepts 1 ∷ accepts 2 ∷ accepts 3 ∷ ends 0 ∷ accepts 4 ∷ shuts_down ∷ []

abbrev after_four : Server
after_four = record (plain_server 4 small_config) {
  conn_count = 2;
  shutdown = true;
  running = 2 ∷ 4 ∷ [];
  rejected = 3 ∷ [];
  ended = 1 ∷ [];
}

run_steps-limited_example :
    (2 ≡ length after_four.running) × (length after_four.running ≤ small_config.max_connections)
unfolding run_steps take_step new_server
run_steps-limited_example =
    run_steps-limited 4 small_config [] four_connections after_four (omega arith) refl
