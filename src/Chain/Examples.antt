-- ===== src/Chain/Examples.antt =====
-- A chain of middleware at concrete inputs.
use hioload_ws.Prelude.{◌*◌, ◌+◌, ◌∷◌, ◌≡◌, List, [], ℕ}
use hioload_ws.Chain.{handled_by, new_handler_chain, new_middleware_handler, use_all}
use hioload_ws.Chain.Same.{chains_agree}
use hioload_ws.Highlevel.Routes.{apply_middleware}

abbrev two_wrappers : List (ℕ → ℕ)
two_wrappers = (λ n. n * 10 + 1) ∷ (λ n. n * 10 + 2) ∷ []

chains_agree_example :
    (new_handler_chain 7 two_wrappers ≡ 721)
    × (apply_middleware two_wrappers 7 ≡ 721)
    × (handled_by (use_all two_wrappers (new_middleware_handler 7)) ≡ 721)
chains_agree_example = chains_agree two_wrappers 7
