-- ===== src/Poller/Registered.antt =====
-- The event loop calls the handlers that are registered with the adapter.
use Prim.Native.Nat.{zero}
use hioload_ws.Prelude.{
  ◌++◌, ◌+◌, ◌<◌, ◌∙◌, ◌∷◌, ◌≡◌, All-append, List, OnSome, Option, [], ap, arith, get_elem?, length,
  length-append, none, refl, run_steps, run_steps-always, some, suc, sym, ℕ,
}
use hioload_ws.EventLoop.{without_handler}
use hioload_ws.Poller.{
  Call, Handler, PollerAdapter, Search, absent, found, index_of, new_poller_adapter, panic, reached,
  register, registers, remove_at, take_call, unregister_at, unregister_bridge, unregisters,
}
use hioload_ws.Poller.Bridges.{
  All-remove_at, Distinct, Distinct-remove_at, Distinct-snoc, IsFresh, IsFresh-suc, reached-all,
  without_handler-remove_at,
}

-- The loop has the bridges, each once, and they hold the handlers in their order.
abbrev pub InStep : PollerAdapter → Type 0
InStep p =
    (p.event_loop.handlers ≡ p.bridges)
    × (p.inners ≡ p.handlers)
    × Distinct p.bridges
    × IsFresh p.next p.bridges
    × (length p.bridges ≡ length p.inners)

length-remove_at {ℓ κ} :
    {A : Type ℓ} {B : Type κ} (i : ℕ) (xs : List A) (ys : List B)
    → length xs ≡ length ys
    → length (remove_at i xs) ≡ length (remove_at i ys)
length-remove_at i [] [] e = e
length-remove_at i [] (y ∷ ys) e = absurd (omega (arith, e))
length-remove_at i (x ∷ xs) [] e = absurd (omega (arith, e))
length-remove_at zero (x ∷ xs) (y ∷ ys) e = omega (arith, e)
length-remove_at (suc i) (x ∷ xs) (y ∷ ys) e =
    omega (arith, length-remove_at i xs ys (omega (arith, e)))

register-InStep : (h : Handler) (p : PollerAdapter) → InStep p → InStep (register h p)
register-InStep h p s = (
  ap (λ z. z ++ (p.next ∷ [])) s.0,
  ap (λ z. z ++ (h ∷ [])) s.1,
  Distinct-snoc p.next p.bridges s.3 s.2,
  All-append (λ c. c < p.next + 1) p.bridges (p.next ∷ []) (IsFresh-suc p.next p.bridges s.3)
      (omega arith, tt),
  length-append p.bridges (p.next ∷ [])
      ∙ ap (λ n. n + 1) s.4
      ∙ sym (length-append p.inners (h ∷ [])),
)

unregister_bridge-InStep :
    (i : ℕ) (p : PollerAdapter)
    → InStep p
    → (o : Option ℕ) → get_elem? p.bridges i ≡ o
    → OnSome InStep (unregister_bridge i p o)
unregister_bridge-InStep i p s none e = tt
unregister_bridge-InStep i p s (some b) e = (
  ap (without_handler b) s.0 ∙ without_handler-remove_at i b p.bridges s.2 e,
  ap (remove_at i) s.1,
  Distinct-remove_at i p.bridges s.2,
  All-remove_at _ i p.bridges s.3,
  length-remove_at i p.bridges p.inners s.4,
)

unregister_at-InStep :
    (p : PollerAdapter) → InStep p → (r : Search) → OnSome InStep (unregister_at p r)
unregister_at-InStep p s (found i) = unregister_bridge-InStep i p s (get_elem? p.bridges i) refl
unregister_at-InStep p s absent = s
unregister_at-InStep p s panic = tt

take_call-InStep : (c : Call) (p : PollerAdapter) → InStep p → OnSome InStep (take_call c p)
unfolding take_call
take_call-InStep (registers h) p s = register-InStep h p s
take_call-InStep (unregisters h) p s = unregister_at-InStep p s (index_of h p.handlers)

-- After any sequence of `Register` and `Unregister` that does not panic, what the loop calls for an
-- event are the handlers that the adapter keeps, each as often as it is kept and in their order.
pub calls-registered :
    (batch_size ring_capacity : ℕ) (calls : List Call) (p : PollerAdapter)
    → run_steps take_call calls (new_poller_adapter batch_size ring_capacity) ≡ some p
    → reached p.event_loop.handlers p.bridges p.inners ≡ p.handlers
calls-registered batch_size ring_capacity calls p e =
    let s : InStep p =
      run_steps-always take_call InStep take_call-InStep calls
        (new_poller_adapter batch_size ring_capacity) (refl, refl, tt, tt, refl) p e in
    ap (λ z. reached z p.bridges p.inners) s.0 ∙ reached-all p.bridges p.inners s.2 s.4 ∙ s.1
