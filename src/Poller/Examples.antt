-- ===== src/Poller/Examples.antt =====
-- Runs of the poller adapter at concrete inputs.
use hioload_ws.Prelude.{◌∷◌, ◌≡◌, List, [], refl, run_steps, true}
use hioload_ws.EventLoop.{new_event_loop}
use hioload_ws.Poller.{
  Call, PollerAdapter, new_poller_adapter, object, reached, registers, take_call, unregisters,
}
use hioload_ws.Poller.Registered.{calls-registered}

abbrev example_calls : List Call
example_calls =
    registers (object 7) ∷ registers (object 8) ∷ registers (object 7) ∷ unregisters (object 7) ∷ []

abbrev example_poller : PollerAdapter
example_poller = record (new_poller_adapter 2 4) {
  event_loop = record (new_event_loop 2 4) { handlers = 1 ∷ 2 ∷ [] };
  started = true;
  handlers = object 8 ∷ object 7 ∷ [];
  bridges = 1 ∷ 2 ∷ [];
  inners = object 8 ∷ object 7 ∷ [];
  next = 3;
}

calls-registered_example :
    reached (1 ∷ 2 ∷ []) (1 ∷ 2 ∷ []) example_poller.inners ≡ example_poller.handlers
unfolding run_steps take_call
calls-registered_example = calls-registered 2 4 example_calls example_poller refl
