-- ===== src/Poller.antt =====
-- adapters/poller_adapter.go over the event loop of EventLoop. An `api.Handler` is an object or a
-- function value (`HandlerFunc` is one); a bridge is the number that names it, given out by `next`.
pub mod Bridges
pub mod Registered
mod Examples
use hioload_ws.Prelude.{
  ◌++◌, ◌+◌, ◌==◌, ◌∷◌, Bool, List, Option, [], false, get_elem?, if◌then◌else◌, none, some, suc,
  true, zero, ℕ,
}
use hioload_ws.EventLoop.{
  EventLoop, new_event_loop, pending_events, register_handler, unregister_handler,
}

pub data Handler : Type 0 where
  object function : ℕ → Handler

-- `==` of two interface values; with two functions it panics.
pub data Compared : Type 0 where
  same different panics : Compared

abbrev pub compared : Bool → Compared
compared true = same
compared false = different

abbrev pub compare_handlers : Handler → Handler → Compared
compare_handlers (object a) (object b) = compared (a == b)
compare_handlers (object a) (function b) = different
compare_handlers (function a) (object b) = different
compare_handlers (function a) (function b) = panics

-- `inners` are the handlers within the bridges; `started` tells that a goroutine was made for `Run`,
-- whose steps are those of EventLoop.
pub record PollerAdapter : Type 0 where
  pub event_loop : EventLoop
  pub started : Bool
  pub handlers : List Handler
  pub bridges : List ℕ
  pub inners : List Handler
  pub next : ℕ

abbrev pub new_poller_adapter : ℕ → ℕ → PollerAdapter
new_poller_adapter batch_size ring_capacity = record {
  event_loop = new_event_loop batch_size ring_capacity;
  started = false;
  handlers = [];
  bridges = [];
  inners = [];
  next = 0;
}

abbrev pub register : Handler → PollerAdapter → PollerAdapter
register h p = record p {
  event_loop = register_handler p.next p.event_loop;
  started = true;
  handlers = p.handlers ++ (h ∷ []);
  bridges = p.bridges ++ (p.next ∷ []);
  inners = p.inners ++ (h ∷ []);
  next = p.next + 1;
}

-- `append(s[:i], s[i+1:]...)`
abbrev pub remove_at {ℓ} : {A : Type ℓ} → ℕ → List A → List A
remove_at i [] = []
remove_at zero (x ∷ xs) = xs
remove_at (suc i) (x ∷ xs) = x ∷ remove_at i xs

-- The loop of `Unregister`: the index of the first handler that is equal.
pub data Search : Type 0 where
  found : ℕ → Search
  absent panic : Search

abbrev pub later : Search → Search
later (found i) = found (i + 1)
later absent = absent
later panic = panic

abbrev pub index_by : Compared → Search → Search
index_by same rest = found 0
index_by different rest = later rest
index_by panics rest = panic

abbrev pub index_of : Handler → List Handler → Search
index_of h [] = absent
index_of h (k ∷ ks) = index_by (compare_handlers k h) (index_of h ks)

abbrev pub unregister_bridge : ℕ → PollerAdapter → Option ℕ → Option PollerAdapter
unregister_bridge i p none = none
unregister_bridge i p (some b) = some (record p {
  event_loop = unregister_handler b p.event_loop;
  handlers = remove_at i p.handlers;
  bridges = remove_at i p.bridges;
  inners = remove_at i p.inners;
})

-- `none` is a panic: of the comparison, or of an index.
abbrev pub unregister_at : PollerAdapter → Search → Option PollerAdapter
unregister_at p (found i) = unregister_bridge i p (get_elem? p.bridges i)
unregister_at p absent = some p
unregister_at p panic = none

abbrev pub unregister : Handler → PollerAdapter → Option PollerAdapter
unregister h p = unregister_at p (index_of h p.handlers)

-- `Poll` handles nothing; it tells how many events wait.
abbrev pub poll : ℕ → PollerAdapter → ℕ
poll max_events p = pending_events p.event_loop

pub data Call : Type 0 where
  registers unregisters : Handler → Call

unfoldable pub take_call : Call → PollerAdapter → Option PollerAdapter
take_call (registers h) p = some (register h p)
take_call (unregisters h) p = unregister h p

-- The handlers that a call of all handlers of the loop reaches through the bridges.
abbrev pub inner_of : List ℕ → List Handler → ℕ → List Handler
inner_of [] hs b = []
inner_of (c ∷ cs) [] b = []
inner_of (c ∷ cs) (h ∷ hs) b = if c == b then h ∷ [] else inner_of cs hs b

abbrev pub reached : List ℕ → List ℕ → List Handler → List Handler
reached [] cs hs = []
reached (b ∷ bs) cs hs = inner_of cs hs b ++ reached bs cs hs
