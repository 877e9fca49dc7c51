-- ===== src/Control.antt =====
-- control/config.go, metrics.go, debug.go and hotreload.go, and adapters/control_adapter.go over them.
-- A Go map with string keys is that of Session.Map, whose order the ranges follow; a value is the
-- number that names it, a callback and a probe too. `value_of` tells what a probe returns and
-- `calls_store` whether a callback calls a method of the store it is registered with.
pub mod Reload
pub mod Stats
mod Examples
use hioload_ws.Prelude.{
  ◌++◌, ◌∷◌, Bool, List, Option, [], false, if◌then◌else◌, none, some, true, ℕ,
}
use hioload_ws.Session.Map.{Key, store_at}

pub record ConfigStore : Type 0 where
  pub config : List (Key × ℕ)
  pub listeners : List ℕ

abbrev pub new_config_store : ConfigStore
new_config_store = record { config = []; listeners = [] }

-- The range loops that copy one map into another, with what the key gets in front.
abbrev pub copy_into : Key → List (Key × ℕ) → List (Key × ℕ) → List (Key × ℕ)
copy_into prefix [] out = out
copy_into prefix ((k, v) ∷ m) out = copy_into prefix m (store_at out (prefix ++ k) v)

-- `GetSnapshot` of the store and of the registry.
abbrev pub get_snapshot : List (Key × ℕ) → List (Key × ℕ)
get_snapshot m = copy_into [] m []

-- `SetConfig` of the store up to the listeners.
abbrev pub merge : List (Key × ℕ) → ConfigStore → ConfigStore
merge cfg cs = record cs { config = copy_into [] cfg cs.config }

-- The listeners that `SetConfigSync` calls with the lock held; `none` is one that waits for the lock.
abbrev pub called_then : ℕ → Option (List ℕ) → Option (List ℕ)
called_then fn none = none
called_then fn (some fns) = some (fn ∷ fns)

abbrev pub run_locked : (ℕ → Bool) → List ℕ → Option (List ℕ)
run_locked calls_store [] = some []
run_locked calls_store (fn ∷ fns) =
    let rest = run_locked calls_store fns in if calls_store fn then none else called_then fn rest

abbrev pub listen : ℕ → ConfigStore → ConfigStore
listen fn cs = record cs { listeners = cs.listeners ++ (fn ∷ []) }

-- `DumpState`, over what the probes return.
abbrev pub dump_values : (ℕ → ℕ) → List (Key × ℕ) → List (Key × ℕ)
dump_values value_of [] = []
dump_values value_of ((k, fn) ∷ m) = (k, value_of fn) ∷ dump_values value_of m

abbrev pub dump_state : (ℕ → ℕ) → List (Key × ℕ) → List (Key × ℕ)
dump_state value_of probes = copy_into [] (dump_values value_of probes) []

-- A `ControlAdapter` with the global list of hotreload.go.
pub record Plane : Type 0 where
  pub config : ConfigStore
  pub metrics : List (Key × ℕ)
  pub debug : List (Key × ℕ)
  pub reload_hooks : List ℕ

abbrev pub platform_cpus : Key
platform_cpus =
    b'p' ∷ b'l' ∷ b'a' ∷ b't' ∷ b'f' ∷ b'o' ∷ b'r' ∷ b'm' ∷ b'.' ∷ b'c' ∷ b'p' ∷ b'u' ∷ b's' ∷ []

-- `cpus` is the probe that the platform registers.
abbrev pub new_control_adapter : ℕ → List ℕ → Plane
new_control_adapter cpus hooks = record {
  config = new_config_store;
  metrics = [];
  debug = (platform_cpus, cpus) ∷ [];
  reload_hooks = hooks;
}

-- `Set` of the registry, and `RegisterDebugProbe`.
abbrev pub set_metric : Key → ℕ → Plane → Plane
set_metric k v p = record p { metrics = store_at p.metrics k v }

abbrev pub register_debug_probe : Key → ℕ → Plane → Plane
register_debug_probe k fn p = record p { debug = store_at p.debug k fn }

abbrev pub on_reload : ℕ → Plane → Plane
on_reload fn p = record p {
  config = listen fn p.config;
  reload_hooks = p.reload_hooks ++ (fn ∷ []);
}

-- `SetConfig` of the adapter, with the callbacks in the order of their calls.
pub data Reloaded : Type 0 where
  deadlock : Reloaded
  reloaded : List ℕ → Plane → Reloaded

abbrev pub after_listeners : Plane → Option (List ℕ) → Reloaded
after_listeners p none = deadlock
after_listeners p (some fns) = reloaded (fns ++ p.reload_hooks) p

unfoldable pub set_config : (ℕ → Bool) → List (Key × ℕ) → Plane → Reloaded
set_config calls_store cfg p =
    after_listeners (record p { config = merge cfg p.config })
      (run_locked calls_store p.config.listeners)

abbrev pub get_config : Plane → List (Key × ℕ)
get_config p = get_snapshot p.config.config

abbrev pub metrics_prefix : Key
metrics_prefix = b'm' ∷ b'e' ∷ b't' ∷ b'r' ∷ b'i' ∷ b'c' ∷ b's' ∷ b'.' ∷ []

abbrev pub debug_prefix : Key
debug_prefix = b'd' ∷ b'e' ∷ b'b' ∷ b'u' ∷ b'g' ∷ b'.' ∷ []

unfoldable pub stats : (ℕ → ℕ) → Plane → List (Key × ℕ)
stats value_of p = copy_into debug_prefix (dump_state value_of p.debug) (
    copy_into metrics_prefix (get_snapshot p.metrics)
      (copy_into [] (get_snapshot p.config.config) []))
