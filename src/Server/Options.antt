-- ===== src/Server/Options.antt =====
-- What the options of a server change.
use hioload_ws.Prelude.{◌∷◌, ◌≡◌, List, [], refl, some, ℕ}
use hioload_ws.Executor.State.{new_executor}
use hioload_ws.Poller.{new_poller_adapter}
use hioload_ws.Server.{
  Config, Server, ServerOption, apply_option, apply_options, new_server, plain_server,
  use_middleware, with_affinity_scope, with_batch_size, with_executor_workers, with_middleware,
}

apply_options-parts :
    (opts : List ServerOption) (s : Server)
    → ((apply_options opts s).poller ≡ s.poller) × ((apply_options opts s).executor ≡ s.executor)
apply_options-parts [] s = (refl, refl)
apply_options-parts ((with_middleware mw) ∷ opts) s = apply_options-parts opts (use_middleware mw s)
apply_options-parts (with_affinity_scope n ∷ opts) s =
    apply_options-parts opts (apply_option (with_affinity_scope n) s)
apply_options-parts (with_batch_size n ∷ opts) s =
    apply_options-parts opts (apply_option (with_batch_size n) s)
apply_options-parts (with_executor_workers n ∷ opts) s =
    apply_options-parts opts (apply_option (with_executor_workers n) s)

-- The options come too late for what they are named after: whatever the options, the poller is made
-- with the batch size and the ring of the configuration that was passed, and the executor with its
-- number of workers.
pub new_server-parts :
    (num_cpu : ℕ) (cfg : Config) (opts : List ServerOption)
    → ((new_server num_cpu (some cfg) opts).poller
        ≡ new_poller_adapter cfg.batch_size cfg.reactor_ring)
      × ((new_server num_cpu (some cfg) opts).executor ≡ new_executor num_cpu cfg.executor_workers)
unfolding new_server
new_server-parts num_cpu cfg opts = apply_options-parts opts (plain_server num_cpu cfg)
