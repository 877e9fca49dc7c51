-- ===== src/Chain.antt =====
-- The chains of middleware: NewHandlerChain of lowlevel/server/handler_chain.go and the middleware
-- handler of adapters/handler_adapter.go; that of highlevel/server.go is in Highlevel.Routes. A handler
-- is a value of any type.
pub mod Same
mod Examples
use hioload_ws.Prelude.{
  ◌++◌, ◌∙◌, ◌∷◌, ◌≡◌, List, Option, [], ap, get_elem?, length, none, refl, some, suc, sym, zero, ℕ,
}
use hioload_ws.Highlevel.Routes.{apply_middleware}

module _ {H : Type 0} where
  -- A round of the loop; an index out of range does not come up.
  abbrev pub wrap : H → Option (H → H) → H
  wrap h none = h
  wrap h (some m) = m h

  -- The loops, from index `i` - 1 down to 0.
  abbrev pub chain_from : List (H → H) → ℕ → H → H
  chain_from mw zero h = h
  chain_from mw (suc i) h = chain_from mw i (wrap h (get_elem? mw i))

  unfoldable pub new_handler_chain : H → List (H → H) → H
  new_handler_chain base mw = chain_from mw (length mw) base

pub record MiddlewareHandler (H : Type 0) : Type 0 where
  pub handler : H
  pub middleware : List (H → H)

module _ {H : Type 0} where
  abbrev pub new_middleware_handler : H → MiddlewareHandler H
  new_middleware_handler h = record { handler = h; middleware = [] }

  abbrev pub use_middleware : (H → H) → MiddlewareHandler H → MiddlewareHandler H
  use_middleware m mh = record mh { middleware = mh.middleware ++ (m ∷ []) }

  -- The handler that `Handle` calls.
  unfoldable pub handled_by : MiddlewareHandler H → H
  handled_by mh = chain_from mh.middleware (length mh.middleware) mh.handler

  abbrev pub use_all : List (H → H) → MiddlewareHandler H → MiddlewareHandler H
  use_all [] mh = mh
  use_all (m ∷ ms) mh = use_all ms (use_middleware m mh)
