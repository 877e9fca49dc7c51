-- ===== src/EventLoop.antt =====
-- The event loops: internal/concurrency/eventloop.go, which the poller adapter runs, and where it
-- differs core/concurrency/eventloop.go. Each call of a producer, each select that `Run` passes and
-- each call of a handler is one step, and `none` means that the step cannot be taken in that state.
-- Events and handlers are numbers that name them; the inbox is a channel with room for at least one.
pub mod Order
pub mod Calls
pub mod Pushed
pub mod Alone
mod Examples
use hioload_ws.Prelude.{
  ◌*◌, ◌++◌, ◌+◌, ◌==◌, ◌∷◌, Bool, List, Option, [], false, if◌then◌else◌, length, ltb, none, some,
  true, zero, ℕ,
}

-- Where `Run` is: not called, at the top of the loop, in the draining loop with its `i`, in the waiting
-- select, at the test of the batch, in the loops over the batch and the handlers with the calls that
-- they have still to make, returned, or stopped by the panic of a second `close(el.doneCh)`.
pub data Place : Type 0 where
  idle clearing waiting testing returned panicked : Place
  draining : ℕ → Place
  calling : List (ℕ × ℕ) → Place

-- `pushed` are the events that `Push` accepted, `dispatched` those whose handlers were loaded,
-- `called` the calls of handlers.
pub record EventLoop : Type 0 where
  pub handlers : List ℕ
  pub inbox : List ℕ
  pub batch_size : ℕ
  pub ring_capacity : ℕ
  pub quit : Bool
  pub done : Bool
  pub place : Place
  pub batch : List ℕ
  pub backoff_ns : ℕ
  pub pushed : List ℕ
  pub dispatched : List ℕ
  pub called : List (ℕ × ℕ)

abbrev pub new_event_loop : ℕ → ℕ → EventLoop
new_event_loop batch_size ring_capacity = record {
  handlers = [];
  inbox = [];
  batch_size = batch_size;
  ring_capacity = ring_capacity;
  quit = false;
  done = false;
  place = idle;
  batch = [];
  backoff_ns = 1;
  pushed = [];
  dispatched = [];
  called = [];
}

abbrev pub max_backoff_ns : ℕ
max_backoff_ns = 1000000

abbrev pub register_handler : ℕ → EventLoop → EventLoop
register_handler h s = record s { handlers = s.handlers ++ (h ∷ []) }

abbrev pub without_handler : ℕ → List ℕ → List ℕ
without_handler h [] = []
without_handler h (k ∷ ks) = if k == h then without_handler h ks else k ∷ without_handler h ks

abbrev pub unregister_handler : ℕ → EventLoop → EventLoop
unregister_handler h s = record s { handlers = without_handler h s.handlers }

-- The send of `Push`.
abbrev pub send_event : ℕ → EventLoop → EventLoop
send_event ev s = record s { inbox = s.inbox ++ (ev ∷ []); pushed = s.pushed ++ (ev ∷ []) }

-- `Push` that sends, and `Push` that sees that the loop is stopped; otherwise it waits.
abbrev pub push : ℕ → EventLoop → Option EventLoop
push ev s = if ltb (length s.inbox) s.ring_capacity then some (send_event ev s) else none

abbrev pub push_stopped : EventLoop → Option EventLoop
push_stopped s = if s.quit then some s else none

-- The closing of `quitCh` in `Stop`.
abbrev pub stop : EventLoop → EventLoop
stop s = record s { quit = true }

abbrev pub pending_events : EventLoop → ℕ
pending_events s = length s.inbox

-- The calls that the two loops over a batch and the handlers make.
abbrev pub calls_with : List ℕ → ℕ → List (ℕ × ℕ)
calls_with [] ev = []
calls_with (h ∷ hs) ev = (h, ev) ∷ calls_with hs ev

abbrev pub calls_of : List ℕ → List ℕ → List (ℕ × ℕ)
calls_of hs [] = []
calls_of hs (ev ∷ evs) = calls_with hs ev ++ calls_of hs evs

-- `el.running`, which is true from the call of `Run` until the end of its deferred function.
abbrev pub running : Place → Bool
running idle = false
running returned = false
running _ = true

-- The call of `Run`, which returns at once when the loop runs.
abbrev pub start_run : EventLoop → EventLoop
start_run s =
    if running s.place then s else record s { place = clearing; batch = []; backoff_ns = 1 }

-- The deferred function of `Run`.
abbrev pub leave_run : EventLoop → EventLoop
leave_run s =
    if s.done then record s { place = panicked } else record s { done = true; place = returned }

-- The end of the draining loop.
abbrev pub after_drain : EventLoop → List ℕ → EventLoop
after_drain s [] = record s { place = waiting }
after_drain s (ev ∷ evs) = record s { place = testing }

-- A round of the draining loop.
abbrev pub drain_one : EventLoop → ℕ → List ℕ → EventLoop
drain_one s i [] = after_drain s s.batch
drain_one s i (ev ∷ q) =
    if ltb i s.batch_size
    then record s { place = draining (i + 1); batch = s.batch ++ (ev ∷ []); inbox = q }
    else after_drain s s.batch

-- The test of the batch and the loading of the handlers.
abbrev pub dispatch : EventLoop → List ℕ → EventLoop
dispatch s [] = record s { place = clearing }
dispatch s (ev ∷ evs) = record s {
  place = calling (calls_of s.handlers (ev ∷ evs));
  dispatched = s.dispatched ++ (ev ∷ evs);
}

-- The next call of a handler; after the last one `Run` is at the top of the loop again.
abbrev pub call_next : EventLoop → List (ℕ × ℕ) → EventLoop
call_next s [] = record s { place = clearing; backoff_ns = 1 }
call_next s (c ∷ cs) = record s { place = calling cs; called = s.called ++ (c ∷ []) }

-- What `Run` does next outside the waiting select.
abbrev pub advance : EventLoop → Place → Option EventLoop
advance s idle = none
advance s clearing = some (record s { place = draining 0; batch = [] })
advance s waiting = none
advance s testing = some (dispatch s s.batch)
advance s returned = none
advance s panicked = none
advance s (draining i) = some (drain_one s i s.inbox)
advance s (calling cs) = some (call_next s cs)

-- The three cases of the waiting select.
abbrev pub see_quit : EventLoop → Place → Option EventLoop
see_quit s waiting = if s.quit then some (leave_run s) else none
see_quit s _ = none

abbrev pub receive_event : EventLoop → Place → List ℕ → Option EventLoop
receive_event s waiting (ev ∷ q) =
    some (record s { place = testing; batch = s.batch ++ (ev ∷ []); inbox = q; backoff_ns = 1 })
receive_event s _ _ = none

abbrev pub longer_backoff : ℕ → ℕ
longer_backoff b = if ltb max_backoff_ns (b * 2) then max_backoff_ns else b * 2

abbrev pub time_out : EventLoop → Place → Option EventLoop
time_out s waiting = some (record s { place = testing; backoff_ns = longer_backoff s.backoff_ns })
time_out s _ = none

pub data Step : Type 0 where
  pushes registers unregisters : ℕ → Step
  push_fails runs stops advances sees_quit receives times_out : Step

unfoldable pub take_step : Step → EventLoop → Option EventLoop
take_step (pushes ev) s = push ev s
take_step (registers h) s = some (register_handler h s)
take_step (unregisters h) s = some (unregister_handler h s)
take_step push_fails s = push_stopped s
take_step runs s = some (start_run s)
take_step stops s = some (stop s)
take_step advances s = advance s s.place
take_step sees_quit s = see_quit s s.place
take_step receives s = receive_event s s.place s.inbox
take_step times_out s = time_out s s.place

-- The loop of core/concurrency: `Push` fails on a full inbox, and the two cases of the select that do
-- not return go to the top of the loop, since the dispatch is the `else` of the test before them.
abbrev pub core_push : ℕ → EventLoop → EventLoop
core_push ev s = if ltb (length s.inbox) s.ring_capacity then send_event ev s else s

abbrev pub core_receive : EventLoop → Place → List ℕ → Option EventLoop
core_receive s waiting (ev ∷ q) =
    some (record s { place = clearing; batch = s.batch ++ (ev ∷ []); inbox = q; backoff_ns = 1 })
core_receive s _ _ = none

abbrev pub core_time_out : EventLoop → Place → Option EventLoop
core_time_out s waiting =
    some (record s { place = clearing; backoff_ns = longer_backoff s.backoff_ns })
core_time_out s _ = none

unfoldable pub core_take_step : Step → EventLoop → Option EventLoop
core_take_step (pushes ev) s = some (core_push ev s)
core_take_step (registers h) s = some (register_handler h s)
core_take_step (unregisters h) s = some (unregister_handler h s)
core_take_step push_fails s = none
core_take_step runs s = some (start_run s)
core_take_step stops s = some (stop s)
core_take_step advances s = advance s s.place
core_take_step sees_quit s = see_quit s s.place
core_take_step receives s = core_receive s s.place s.inbox
core_take_step times_out s = core_time_out s s.place
