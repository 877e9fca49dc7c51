-- ===== src/Server.antt =====
-- lowlevel/server: NewServer and the options (server.go, options.go, types.go), and the accepting,
-- the tracking and the ending of connections with `Shutdown` (run.go). A connection is the number that
-- names it; the accept loop, the goroutines of the connections and the callers of `Shutdown` take
-- turns, and `none` means that a step cannot be taken. The middleware is in Chain.
pub mod Options
pub mod Limit
pub mod Readers
mod Examples
use hioload_ws.Prelude.{
  ◌++◌, ◌+◌, ◌-◌, ◌∷◌, Bool, List, Option, [], false, if◌then◌else◌, ltb, none, not, some, suc,
  true, zero, ℕ,
}
use hioload_ws.Executor.State.{Executor, new_executor}
use hioload_ws.Executor.Submit.{pick}
use hioload_ws.Poller.{PollerAdapter, new_poller_adapter}

-- The fields of `Config` that the modelled code reads.
pub record Config : Type 0 where
  pub batch_size : ℕ
  pub reactor_ring : ℕ
  pub executor_workers : ℕ
  pub affinity_scope : ℕ
  pub max_connections : ℕ

-- `api.ScopeThread`
abbrev pub scope_thread : ℕ
scope_thread = 1

-- `default_config` is nil's replacement; the number of workers is that of the runtime.
abbrev pub default_config : ℕ → Config
default_config num_cpu = record {
  batch_size = 32;
  reactor_ring = 1024;
  executor_workers = num_cpu;
  affinity_scope = scope_thread;
  max_connections = 10000;
}

-- `middleware` are the numbers that name the middleware; `accepting` tells that the accept loop runs,
-- `running` are the connections with a goroutine, `rejected` those that the limit turned away,
-- `ended` those whose goroutine has returned; `panicked` is a second close of `shutdownCh`.
pub record Server : Type 0 where
  pub cfg : Config
  pub poller : PollerAdapter
  pub executor : Executor
  pub middleware : List ℕ
  pub conn_count : ℕ
  pub shutdown : Bool
  pub accepting : Bool
  pub running : List ℕ
  pub rejected : List ℕ
  pub ended : List ℕ
  pub panicked : Bool

pub data ServerOption : Type 0 where
  with_middleware : List ℕ → ServerOption
  with_affinity_scope with_batch_size with_executor_workers : ℕ → ServerOption

abbrev pub use_middleware : List ℕ → Server → Server
use_middleware mw s = record s { middleware = s.middleware ++ mw }

abbrev pub set_cfg : Config → Server → Server
set_cfg c s = record s { cfg = c }

abbrev pub apply_option : ServerOption → Server → Server
apply_option (with_middleware mw) s = use_middleware mw s
apply_option (with_affinity_scope scope) s = set_cfg (record s.cfg { affinity_scope = scope }) s
apply_option (with_batch_size batch) s = set_cfg (record s.cfg { batch_size = batch }) s
apply_option (with_executor_workers n) s = set_cfg (record s.cfg { executor_workers = n }) s

abbrev pub apply_options : List ServerOption → Server → Server
apply_options [] s = s
apply_options (opt ∷ opts) s = apply_options opts (apply_option opt s)

-- The server before the options.
abbrev pub plain_server : ℕ → Config → Server
plain_server num_cpu cfg = record {
  cfg = cfg;
  poller = new_poller_adapter cfg.batch_size cfg.reactor_ring;
  executor = new_executor num_cpu cfg.executor_workers;
  middleware = [];
  conn_count = 0;
  shutdown = false;
  accepting = true;
  running = [];
  rejected = [];
  ended = [];
  panicked = false;
}

abbrev pub given_config : ℕ → Option Config → Config
given_config num_cpu none = default_config num_cpu
given_config num_cpu (some cfg) = cfg

unfoldable pub new_server : ℕ → Option Config → List ServerOption → Server
new_server num_cpu cfg opts = apply_options opts (plain_server num_cpu (given_config num_cpu cfg))

-- The body of the accept loop with a connection: the goroutine of `handleConnWithTracking` starts, or
-- the connection is closed.
abbrev pub spawn : ℕ → Server → Server
spawn c s = record s { running = s.running ++ (c ∷ []) }

abbrev pub accept_limited : ℕ → Server → Server
accept_limited c s =
    if ltb s.conn_count s.cfg.max_connections
    then spawn c (record s { conn_count = s.conn_count + 1 })
    else record s { rejected = s.rejected ++ (c ∷ []) }

abbrev pub accept : ℕ → Server → Option Server
accept c s =
    if s.accepting
    then some (if ltb 0 s.cfg.max_connections then accept_limited c s else spawn c s)
    else none

-- `Accept` fails and the loop returns.
abbrev pub accept_fails : Server → Option Server
accept_fails s = if s.accepting then some (record s { accepting = false }) else none

-- One of the goroutines returns; its deferred function closes the connection and counts it off.
abbrev pub end_connection : Server → Option (ℕ × List ℕ) → Option Server
end_connection s none = none
end_connection s (some (c, rest)) = some (record s {
  running = rest;
  ended = s.ended ++ (c ∷ []);
  conn_count = if ltb 0 s.cfg.max_connections then s.conn_count - 1 else s.conn_count;
})

-- `close(s.shutdownCh)`
abbrev pub shut_down : Server → Server
shut_down s = if s.shutdown then record s { panicked = true } else record s { shutdown = true }

pub data Step : Type 0 where
  accepts ends : ℕ → Step
  accept_error shuts_down : Step

unfoldable pub take_step : Step → Server → Option Server
take_step (accepts c) s = accept c s
take_step (ends i) s = end_connection s (pick i s.running)
take_step accept_error s = accept_fails s
take_step shuts_down s = some (shut_down s)
