-- ===== src/Server/Limit.antt =====
-- The limit on connections.
use Prim.Native.Nat.{zero}
use mathlib.Core.Option.{some-injective}
use hioload_ws.Prelude.{
  ◌<◌, ◌∙◌, ◌∷◌, ◌≡◌, ◌≤◌, List, OnSome, Option, [], ap, arith, if_cases, if_lem, length,
  length-append, ltb, none, refl, run_steps, run_steps-always, some, suc, tests, true, ℕ,
}
use hioload_ws.Executor.Submit.{pick, pick_then}
use hioload_ws.Server.{
  Config, Server, ServerOption, Step, accept, accept_error, accept_limited, accepts, apply_option,
  apply_options, end_connection, ends, new_server, plain_server, shuts_down, take_step,
  use_middleware, with_affinity_scope, with_batch_size, with_executor_workers, with_middleware,
}

-- The counter counts the goroutines, and both are within the limit.
abbrev Within : ℕ → Server → Type 0
Within limit s =
    (s.cfg.max_connections ≡ limit) × (s.conn_count ≡ length s.running) × (s.conn_count ≤ limit)

length-pick :
    (i : ℕ) (xs : List ℕ) (x : ℕ) (rest : List ℕ)
    → pick i xs ≡ some (x, rest)
    → length xs ≡ suc (length rest)
length-pick i [] x rest e = grind (arith, e)
length-pick zero (y ∷ xs) x rest e =
    ap suc (ap (λ z. length z.1) (some-injective (y, xs) (x, rest) e))
length-pick (suc i) (y ∷ xs) x rest e = later (pick i xs) (length-pick i xs) e
  where
    later :
        (o : Option (ℕ × List ℕ))
        → ((z : ℕ) (zs : List ℕ) → o ≡ some (z, zs) → length xs ≡ suc (length zs))
        → pick_then y o ≡ some (x, rest)
        → suc (length xs) ≡ suc (length rest)
    later none h e = grind (arith, e)
    later (some (z, zs)) h e =
        ap suc (h z zs refl) ∙ ap (λ r. suc (length r.1)) (some-injective (z, y ∷ zs) (x, rest) e)

accept_limited-Within :
    (limit c : ℕ) (s : Server) → Within limit s → Within limit (accept_limited c s)
accept_limited-Within limit c s h =
    if_cases (Within limit) (ltb s.conn_count s.cfg.max_connections)
      (λ r. (h.0, omega (arith, h.1, length-append s.running (c ∷ [])), omega (tests, r, h.0)))
      (λ r. h)

accept-Within :
    (limit c : ℕ) (s : Server) → 0 < limit → Within limit s → OnSome (Within limit) (accept c s)
accept-Within limit c s pos h =
    if_lem (OnSome (Within limit)) s.accepting
      (if_cases (Within limit) (ltb 0 s.cfg.max_connections)
        (λ r. accept_limited-Within limit c s h) (λ r. absurd (ground (arith, r, h.0, pos))))
      tt

end_connection-Within :
    (limit i : ℕ) (s : Server)
    → 0 < limit
    → Within limit s
    → (o : Option (ℕ × List ℕ)) → pick i s.running ≡ o
    → OnSome (Within limit) (end_connection s o)
end_connection-Within limit i s pos h none e = tt
end_connection-Within limit i s pos h (some (c, rest)) e =
    let on : ltb 0 s.cfg.max_connections ≡ true = ground (arith, h.0, pos) in
    let one : length s.running ≡ suc (length rest) = length-pick i s.running c rest e in
    rw on (h.0, omega (arith, one, h.1), omega (arith, h.2))

take_step-Within :
    (limit : ℕ)
    → 0 < limit
    → (step : Step) (s : Server) → Within limit s
    → OnSome (Within limit) (take_step step s)
unfolding take_step
take_step-Within limit pos (accepts c) s h = accept-Within limit c s pos h
take_step-Within limit pos (ends i) s h =
    end_connection-Within limit i s pos h (pick i s.running) refl
take_step-Within limit pos accept_error s h = if_lem (OnSome (Within limit)) s.accepting h tt
take_step-Within limit pos shuts_down s h = if_lem (Within limit) s.shutdown h h

apply_options-Within :
    (limit : ℕ) (opts : List ServerOption) (s : Server)
    → Within limit s
    → Within limit (apply_options opts s)
apply_options-Within limit [] s h = h
apply_options-Within limit ((with_middleware mw) ∷ opts) s h =
    apply_options-Within limit opts (use_middleware mw s) h
apply_options-Within limit ((with_affinity_scope n) ∷ opts) s h =
    apply_options-Within limit opts (apply_option (with_affinity_scope n) s) h
apply_options-Within limit ((with_batch_size n) ∷ opts) s h =
    apply_options-Within limit opts (apply_option (with_batch_size n) s) h
apply_options-Within limit ((with_executor_workers n) ∷ opts) s h =
    apply_options-Within limit opts (apply_option (with_executor_workers n) s) h

new_server-Within :
    (num_cpu : ℕ) (cfg : Config) (opts : List ServerOption)
    → Within cfg.max_connections (new_server num_cpu (some cfg) opts)
unfolding new_server
new_server-Within num_cpu cfg opts =
    apply_options-Within cfg.max_connections opts (plain_server num_cpu cfg)
      (refl, refl, omega arith)

-- The limit on connections holds: with a limit above 0, at every time of every run of a new server,
-- whatever its options, the counter is the number of connections that have a goroutine, and that is
-- at most the limit.
pub run_steps-limited :
    (num_cpu : ℕ) (cfg : Config) (opts : List ServerOption) (steps : List Step) (s : Server)
    → 0 < cfg.max_connections
    → run_steps take_step steps (new_server num_cpu (some cfg) opts) ≡ some s
    → (s.conn_count ≡ length s.running) × (length s.running ≤ cfg.max_connections)
run_steps-limited num_cpu cfg opts steps s pos e =
    let w : Within cfg.max_connections s =
      run_steps-always take_step (Within cfg.max_connections)
        (take_step-Within cfg.max_connections pos) steps (new_server num_cpu (some cfg) opts)
        (new_server-Within num_cpu cfg opts) s e in
    (w.1, omega (arith, w.1, w.2))
