-- ===== src/Server/Readers.antt =====
-- `handleConnWithTracking` of lowlevel/server/run.go over the event loop that the poller runs: the
-- goroutine of each connection reads buffers and pushes an event for each; the loop and the other
-- goroutines take their steps between. An event is the number that names it, and `conn_of` tells the
-- connection in it. `none` means that a step cannot be taken.
pub mod Accounted
pub mod Delivery
mod Examples
use hioload_ws.Prelude.{
  ◌++◌, ◌==◌, ◌∷◌, Bool, List, Option, [], false, if◌then◌else◌, none, some, true, ℕ,
}
use hioload_ws.EventLoop.{
  EventLoop, advances, push, push_stopped, receives, runs, sees_quit, stops, times_out,
}
use hioload_ws.EventLoop

-- `to_push` are the events of a connection's goroutine that are still to be pushed, `answers` those that
-- were, each with what `Push` returned, and `taken` all that it read.
pub record Readers : Type 0 where
  pub loop : EventLoop
  pub to_push : ℕ → List ℕ
  pub answers : ℕ → List (ℕ × Bool)
  pub taken : ℕ → List ℕ

-- The entry of one connection changes.
abbrev pub put : {A : Type 0} → (ℕ → List A) → ℕ → List A → ℕ → List A
put f c evs d = if d == c then evs else f d

abbrev pub is_of : (ℕ → ℕ) → ℕ → List ℕ → Bool
is_of conn_of c [] = true
is_of conn_of c (ev ∷ evs) = if conn_of ev == c then is_of conn_of c evs else false

-- `RecvZeroCopy` returns, once the buffers before are pushed.
abbrev pub read_buffers : (ℕ → ℕ) → ℕ → List ℕ → Readers → List ℕ → Option Readers
read_buffers conn_of c evs s [] =
    if is_of conn_of c evs
    then some (record s { to_push = put s.to_push c evs; taken = put s.taken c (s.taken c ++ evs) })
    else none
read_buffers conn_of c evs s (w ∷ ws) = none

-- `poller.Push` of the next buffer returns `sent`, which is not looked at: it sends, or the loop is
-- stopped; a full inbox of a loop that runs makes it wait.
abbrev pub pushed_to : ℕ → ℕ → List ℕ → Bool → Readers → Option EventLoop → Option Readers
pushed_to c ev evs sent s none = none
pushed_to c ev evs sent s (some l) = some (record s {
  loop = l;
  to_push = put s.to_push c evs;
  answers = put s.answers c (s.answers c ++ ((ev, sent) ∷ []));
})

abbrev pub push_next : ℕ → Readers → List ℕ → Option Readers
push_next c s [] = none
push_next c s (ev ∷ evs) = pushed_to c ev evs true s (push ev s.loop)

abbrev pub push_refused : ℕ → Readers → List ℕ → Option Readers
push_refused c s [] = none
push_refused c s (ev ∷ evs) = pushed_to c ev evs false s (push_stopped s.loop)

-- A step of the loop and of its other users.
abbrev pub with_loop : Readers → Option EventLoop → Option Readers
with_loop s none = none
with_loop s (some l) = some (record s { loop = l })

-- The steps of the loop that are no `Push`.
pub data LoopStep : Type 0 where
  run_called stop_called advanced quit_seen received timed_out : LoopStep

abbrev pub loop_step : LoopStep → hioload_ws.EventLoop.Step
loop_step run_called = runs
loop_step stop_called = stops
loop_step advanced = advances
loop_step quit_seen = sees_quit
loop_step received = receives
loop_step timed_out = times_out

pub data Step : Type 0 where
  reads : ℕ → List ℕ → Step
  pushes_next push_fails : ℕ → Step
  loops : LoopStep → Step

unfoldable pub take_step : (ℕ → ℕ) → Step → Readers → Option Readers
take_step conn_of (reads c evs) s = read_buffers conn_of c evs s (s.to_push c)
take_step conn_of (pushes_next c) s = push_next c s (s.to_push c)
take_step conn_of (push_fails c) s = push_refused c s (s.to_push c)
take_step conn_of (loops step) s =
    with_loop s (hioload_ws.EventLoop.take_step (loop_step step) s.loop)
