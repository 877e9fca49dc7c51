-- ===== src/Control/Reload.antt =====
-- Which callbacks a change of the configuration calls.
use hioload_ws.Prelude.{
  ◌++◌, ◌||◌, ◌∙◌, ◌∷◌, ◌≡◌, Bool, List, [], ap, append-nil, append_assoc, ap₂, false,
  if◌then◌else◌, none, refl, some, sym, true, ℕ,
}
use hioload_ws.Control.{
  Plane, after_listeners, called_then, copy_into, deadlock, new_control_adapter, on_reload,
  reloaded, run_locked, set_config,
}
use hioload_ws.Session.Map.{Key}

abbrev pub register_all : List ℕ → Plane → Plane
register_all [] p = p
register_all (fn ∷ fns) p = register_all fns (on_reload fn p)

abbrev pub any_calls : (ℕ → Bool) → List ℕ → Bool
any_calls calls_store [] = false
any_calls calls_store (fn ∷ fns) = calls_store fn || any_calls calls_store fns

-- What the registrations do to the two lists.
register_all_lem :
    (fns : List ℕ) (p : Plane)
    → register_all fns p ≡ record p {
      config = record p.config { listeners = p.config.listeners ++ fns };
      reload_hooks = p.reload_hooks ++ fns;
    }
register_all_lem [] p =
    ap₂ (λ z w. record p { config = record p.config { listeners = z }; reload_hooks = w })
      (sym (append-nil p.config.listeners)) (sym (append-nil p.reload_hooks))
register_all_lem (fn ∷ fns) p =
    register_all_lem fns (on_reload fn p)
    ∙ ap₂ (λ z w. record p { config = record p.config { listeners = z }; reload_hooks = w })
        (append_assoc p.config.listeners (fn ∷ []) fns) (append_assoc p.reload_hooks (fn ∷ []) fns)

run_locked_lem :
    (calls_store : ℕ → Bool) (fns : List ℕ)
    → run_locked calls_store fns ≡ (if any_calls calls_store fns then none else some fns)
run_locked_lem calls_store [] = refl
run_locked_lem calls_store (fn ∷ fns) =
    ap (λ o. if calls_store fn then none else called_then fn o) (run_locked_lem calls_store fns)
    ∙ split (calls_store fn) (any_calls calls_store fns)
  where
    split :
        (a b : Bool)
        → (if a then none else called_then fn (if b then none else some fns))
          ≡ (if a || b then none else some (fn ∷ fns))
    split true b = refl
    split false true = refl
    split false false = refl

-- Every callback runs twice: after callbacks were registered with `OnReload` of a new adapter, where
-- `hooks` were in the global list before, `SetConfig` calls each of them once as a listener, then the
-- other hooks, then each of them again as a hook, and the values are merged; but if one of them calls a
-- method of the store, `SetConfig` never returns.
pub set_config-on_reload :
    (calls_store : ℕ → Bool) (cpus : ℕ) (hooks fns : List ℕ) (cfg : List (Key × ℕ))
    → set_config calls_store cfg (register_all fns (new_control_adapter cpus hooks)) ≡ (
        if any_calls calls_store fns
        then deadlock
        else reloaded (fns ++ (hooks ++ fns)) (record (new_control_adapter cpus hooks) {
          config = record { config = copy_into [] cfg []; listeners = fns };
          reload_hooks = hooks ++ fns;
        }))
unfolding set_config
set_config-on_reload calls_store cpus hooks fns cfg =
    let after = record (new_control_adapter cpus hooks) {
      config = record { config = copy_into [] cfg []; listeners = fns };
      reload_hooks = hooks ++ fns;
    } in
    ap (set_config calls_store cfg) (register_all_lem fns (new_control_adapter cpus hooks))
    ∙ ap (after_listeners after) (run_locked_lem calls_store fns)
    ∙ split after (any_calls calls_store fns)
  where
    split :
        (after : Plane) (b : Bool)
        → after_listeners after (if b then none else some fns)
          ≡ (if b then deadlock else reloaded (fns ++ after.reload_hooks) after)
    split after true = refl
    split after false = refl
