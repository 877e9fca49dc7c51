-- ===== src/Highlevel/Serve.antt =====
-- The handler that `ListenAndServe` of highlevel/server.go gives to the underlying server: a message
-- is taken to the route of its connection's path, to the `Conn` of its connection and to that one's
-- inbound queue, and the handler is started once.
pub mod Delivery
use hioload_ws.Prelude.{
  ◌++◌, ◌∷◌, Bool, List, Option, [], false, if◌then◌else◌, none, refl, some, suc, true, zero, ℕ,
}
use hioload_ws.Api.Buffer.{Buffer}
use hioload_ws.Highlevel.Inbox.{Inbox, new_inbox, offer}
use hioload_ws.Highlevel.Routes.{
  Found, RegexpPackage, RouteHandler, RouteTable, find_handler, found, method_get, not_found,
  panics,
}
use hioload_ws.Highlevel.Tracking.{Tracker, get_or_create_conn, new_tracker, put_at}
use hioload_ws.Session.Map.{Key}

-- What the underlying server hands over: the buffer, and the connection with its path, if it has one.
pub record Message : Type 0 where
  pub buffer : Buffer
  pub connection : Option (ℕ × Key)

module _ (pkg : RegexpPackage) where
  -- `handler_once` tells of each `Conn` whether its handler has started, `runs` are the handlers that
  -- were started, each with its `Conn`, and `rejected` the connections that were closed at once.
  pub record Server : Type 0 where
    pub routes : RouteTable pkg
    pub tracker : Tracker
    pub inbox : ℕ → Inbox
    pub handler_once : ℕ → Bool
    pub runs : List (ℕ × ℕ)
    pub rejected : List ℕ
    pub released : List Buffer

  abbrev pub new_server : RouteTable pkg → Server
  new_server routes = record {
    routes = routes;
    tracker = new_tracker;
    inbox = λ c. new_inbox;
    handler_once = λ c. false;
    runs = [];
    rejected = [];
    released = [];
  }

  -- `runHandlerOnce`
  abbrev pub run_handler_once : ℕ → ℕ → Server → Server
  run_handler_once handler c s = if s.handler_once c then s else record s {
    handler_once = put_at s.handler_once c true;
    runs = s.runs ++ ((handler, c) ∷ []);
  }

  abbrev pub enqueue_and_run : RouteHandler → Buffer → Server → ℕ × Tracker → Server
  enqueue_and_run h b s (c, tracker) =
      run_handler_once h.handler c
        (record s { tracker = tracker; inbox = put_at s.inbox c (offer b (s.inbox c)) })

  abbrev pub release_in : Buffer → Server → Server
  release_in b s = record s { released = s.released ++ (b ∷ []) }

  -- With a connection: its route found, or not.
  abbrev pub serve_route : Buffer → ℕ → Server → Found → Option Server
  serve_route b ws s panics = none
  serve_route b ws s not_found =
      some (release_in b (record s { rejected = s.rejected ++ (ws ∷ []) }))
  serve_route b ws s (found h params) =
      some (enqueue_and_run h b s (get_or_create_conn ws s.tracker))

  abbrev pub serve_connection : Buffer → Server → Option (ℕ × Key) → Option Server
  serve_connection b s none = some (release_in b s)
  serve_connection b s (some (ws, path)) =
      serve_route b ws s (find_handler pkg s.routes path method_get)

  abbrev pub serve_data : Message → Server → Option (List ℕ) → Option Server
  serve_data m s none = some s
  serve_data m s (some bs) = serve_connection m.buffer s m.connection

  -- The handler on one message; `none` is a panic.
  unfoldable pub serve : Message → Server → Option Server
  serve m s = serve_data m s m.buffer.bytes

  abbrev pub serve_rest : (Server → Option Server) → Option Server → Option Server
  serve_rest rest none = none
  serve_rest rest (some s) = rest s

  unfoldable pub serve_all : List Message → Server → Option Server
  serve_all [] s = some s
  serve_all (m ∷ ms) s = serve_rest (serve_all ms) (serve m s)
