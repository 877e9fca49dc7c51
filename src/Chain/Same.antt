-- ===== src/Chain/Same.antt =====
-- The three chains are the same.
use Prim.Native.Nat.{zero}
use hioload_ws.Prelude.{
  ◌++◌, ◌∙◌, ◌∷◌, ◌≡◌, List, [], ap, append-nil, append_assoc, get_elem?, length, refl, suc, sym, ℕ,
}
use hioload_ws.Chain.{
  MiddlewareHandler, chain_from, handled_by, new_handler_chain, new_middleware_handler, use_all,
  use_middleware, wrap,
}
use hioload_ws.Highlevel.Routes.{apply_middleware}
use hioload_ws.Highlevel.Routes.Groups.{wrap_from-cons}

module _ {H : Type 0} where
  -- Each around the rest, the first outermost.
  abbrev pub around : List (H → H) → H → H
  around [] h = h
  around (m ∷ ms) h = m (around ms h)

  chain_from-cons :
      (m : H → H) (ms : List (H → H)) (n : ℕ) (h : H)
      → chain_from (m ∷ ms) (suc n) h ≡ m (chain_from ms n h)
  chain_from-cons m ms zero h = refl
  chain_from-cons m ms (suc n) h = chain_from-cons m ms n (wrap h (get_elem? ms n))

  chain_lem : (ms : List (H → H)) (h : H) → chain_from ms (length ms) h ≡ around ms h
  chain_lem [] h = refl
  chain_lem (m ∷ ms) h = chain_from-cons m ms (length ms) h ∙ ap m (chain_lem ms h)

  apply_middleware_lem : (ms : List (H → H)) (h : H) → apply_middleware ms h ≡ around ms h
  unfolding apply_middleware
  apply_middleware_lem [] h = refl
  apply_middleware_lem (m ∷ ms) h =
      wrap_from-cons m ms (length ms) h ∙ ap m (apply_middleware_lem ms h)

  use_all_lem :
      (ms : List (H → H)) (mh : MiddlewareHandler H)
      → handled_by (use_all ms mh) ≡ around (mh.middleware ++ ms) mh.handler
  unfolding handled_by
  use_all_lem [] mh =
      chain_lem mh.middleware mh.handler
      ∙ ap (λ z. around z mh.handler) (sym (append-nil mh.middleware))
  use_all_lem (m ∷ ms) mh =
      use_all_lem ms (use_middleware m mh)
      ∙ ap (λ z. around z mh.handler) (append_assoc mh.middleware (m ∷ []) ms)

  -- The three chains agree: for any middleware and handler, `NewHandlerChain`, the `applyMiddleware` of
  -- highlevel/ and a `MiddlewareHandler` on which `Use` was called for each one in order all give the
  -- handler that has the first middleware outermost and the last around the handler itself, so that
  -- the first one is entered first, which the comment in `applyMiddleware` says of the last.
  pub chains_agree :
      (ms : List (H → H)) (h : H)
      → (new_handler_chain h ms ≡ around ms h)
        × (apply_middleware ms h ≡ around ms h)
        × (handled_by (use_all ms (new_middleware_handler h)) ≡ around ms h)
  unfolding new_handler_chain
  chains_agree ms h =
      (chain_lem ms h, apply_middleware_lem ms h, use_all_lem ms (new_middleware_handler h))
