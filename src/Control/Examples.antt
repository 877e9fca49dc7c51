-- ===== src/Control/Examples.antt =====
-- The control plane at concrete inputs.
use hioload_ws.Prelude.{
  ◌++◌, ◌∙◌, ◌∷◌, ◌≡◌, ◌≢◌, [], ap, arith, false, get_or, none, refl, some, sym, ℕ,
}
use hioload_ws.Control.{
  Plane, debug_prefix, metrics_prefix, new_control_adapter, platform_cpus, set_config, stats,
}
use hioload_ws.Control.Reload.{register_all, set_config-on_reload}
use hioload_ws.Control.Stats.{find-stats}
use hioload_ws.Session.Map.{Key, find}

set_config-on_reload_example :
    set_config
      (λ fn. false)
      ((b'a' ∷ [], 5) ∷ [])
      (register_all (1 ∷ 2 ∷ []) (new_control_adapter 0 (9 ∷ [])))
    ≡ hioload_ws.Control.reloaded
        (1 ∷ 2 ∷ 9 ∷ 1 ∷ 2 ∷ [])
        (record (new_control_adapter 0 (9 ∷ [])) {
          config = record { config = (b'a' ∷ [], 5) ∷ []; listeners = 1 ∷ 2 ∷ [] };
          reload_hooks = 9 ∷ 1 ∷ 2 ∷ [];
        })
set_config-on_reload_example =
    set_config-on_reload (λ fn. false) 0 (9 ∷ []) (1 ∷ 2 ∷ []) ((b'a' ∷ [], 5) ∷ [])

abbrev some_plane : Plane
some_plane = record (new_control_adapter 0 []) {
  config = record { config = (b'a' ∷ [], 5) ∷ []; listeners = [] };
  metrics = (b'x' ∷ [], 7) ∷ [];
}

other_key :
    (p : Key) (c : ℕ) (cs : Key) → p ≡ c ∷ cs → (c ≡ b'a' → ⊥) → (i : Key) → p ++ i ≢ b'a' ∷ []
other_key p c cs e ne i e' =
    absurd (ne (ap (λ z. get_or (z ++ i) 0 0) (sym e) ∙ ap (λ z. get_or z 0 0) e'))

find-stats_example :
    (find (stats (λ fn. 4) some_plane) (debug_prefix ++ platform_cpus) ≡ some 4)
    × (find (stats (λ fn. 4) some_plane) (metrics_prefix ++ platform_cpus) ≡ none)
    × (find (stats (λ fn. 4) some_plane) (b'a' ∷ []) ≡ some 5)
find-stats_example =
    find-stats (λ fn. 4) some_plane platform_cpus (b'a' ∷ []) (refl, tt) (refl, tt) (refl, tt)
      (other_key debug_prefix _ _ refl (λ e. omega (arith, e)))
      (other_key metrics_prefix _ _ refl (λ e. omega (arith, e)))
