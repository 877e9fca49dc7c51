-- ===== src/Highlevel/Serve/Delivery.antt =====
-- A message comes to the handler of its path.
use hioload_ws.Prelude.{[]}
use hioload_ws.Prelude.{◌∷◌}
use hioload_ws.Prelude.{◌++◌}
use hioload_ws.Prelude.{if◌then◌else◌}
use hioload_ws.Prelude.{◌≡◌, true, ℕ}
use hioload_ws.Api.Buffer.{Buffer}
use hioload_ws.Highlevel.Inbox.{offer}
use hioload_ws.Highlevel.Routes.{RegexpPackage}
use hioload_ws.Highlevel.Serve.{Server}

module _ (pkg : RegexpPackage) where
  -- What a server is to be after a message for a `Conn` that goes to a handler.
  abbrev pub Delivers : ℕ → ℕ → Buffer → Server pkg → Server pkg → Type 0
  Delivers handler c b s s' =
      (s'.runs ≡ (if s.handler_once c then s.runs else s.runs ++ ((handler, c) ∷ [])))
      × (s'.handler_once c ≡ true)
      × (s'.inbox c ≡ offer b (s.inbox c))
      × (s'.released ≡ s.released)
      × (s'.rejected ≡ s.rejected)
