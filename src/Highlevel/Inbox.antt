-- ===== src/Highlevel/Inbox.antt =====
-- The inbound queue of a server-side `Conn` in highlevel/conn.go: `enqueueIncoming`,
-- `startOverflowWorker`, `readBufferFromIncoming` and the draining of `Close`. Each select that a
-- goroutine passes is one step, and `none` means that the step cannot be taken in that state; a
-- history is a list of steps of the poller, the worker, the reader and the closer in any order.
pub mod Weight
pub mod Histories
pub mod Balance
pub mod Limits
pub mod Left
pub mod Ordered
pub mod Order
mod Examples
use hioload_ws.Prelude.{
  ◌*◌, ◌++◌, ◌∷◌, Bool, List, Option, [], false, if◌then◌else◌, length, ltb, none, refl, some, suc,
  true, zero, ℕ,
}
use hioload_ws.Api.Buffer.{Buffer}

-- The worker that drains `overflow` into `incoming`: in its outer select, with a buffer that waits for
-- room, in the loop that releases what is pending, and after its return.
pub data Worker : Type 0 where
  idle draining stopped : Worker
  holding : Buffer → Worker

-- The closer: `Close` not called, in its loop over `incoming`, or past it.
pub data Closer : Type 0 where
  is_open drains finished : Closer

-- `overflow` is nil (`none`) until the worker starts. `pending` are the buffers of calls of
-- `enqueueIncoming` that found `incoming` full, `done` tells that the channel of the connection is
-- closed. `released`, `delivered` and `dropped` are what was given back to the pool, returned to the
-- reader, and left behind without either.
pub record Inbox : Type 0 where
  pub incoming : List Buffer
  pub overflow : Option (List Buffer)
  pub pending : List Buffer
  pub worker : Worker
  pub closer : Closer
  pub done : Bool
  pub released : List Buffer
  pub delivered : List Buffer
  pub dropped : List Buffer

-- `cap(c.incoming)`, and the capacity that the worker chooses.
abbrev pub incoming_capacity : ℕ
incoming_capacity = 128

abbrev pub overflow_capacity : ℕ
overflow_capacity = if ltb (incoming_capacity * 8) 2048 then 2048 else incoming_capacity * 8

abbrev pub new_inbox : Inbox
new_inbox = record {
  incoming = [];
  overflow = none;
  pending = [];
  worker = idle;
  closer = is_open;
  done = false;
  released = [];
  delivered = [];
  dropped = [];
}

-- `overflowOnce`
abbrev pub started : Option (List Buffer) → Option (List Buffer)
started none = some []
started (some q) = some q

-- `enqueueIncoming` up to its second select.
unfoldable pub offer : Buffer → Inbox → Inbox
offer b s =
    if ltb (length s.incoming) incoming_capacity
    then record s { incoming = s.incoming ++ (b ∷ []) }
    else record s { overflow = started s.overflow; pending = s.pending ++ (b ∷ []) }

-- One of the waiting calls, and the others.
abbrev pub pick_then : Buffer → Option (Buffer × List Buffer) → Option (Buffer × List Buffer)
pick_then c none = none
pick_then c (some (b, rest)) = some (b, c ∷ rest)

abbrev pub pick : ℕ → List Buffer → Option (Buffer × List Buffer)
pick i [] = none
pick zero (b ∷ bs) = some (b, bs)
pick (suc i) (b ∷ bs) = pick_then b (pick i bs)

-- The second select of a waiting call: there is room in `overflow`, or the connection is done.
abbrev pub spill_to : Inbox → Option (List Buffer) → Option (Buffer × List Buffer) → Option Inbox
spill_to s q none = none
spill_to s none (some (b, rest)) = none
spill_to s (some q) (some (b, rest)) =
    if ltb (length q) overflow_capacity
    then some (record s { overflow = some (q ++ (b ∷ [])); pending = rest })
    else none

abbrev pub abandon_of : Inbox → Option (Buffer × List Buffer) → Option Inbox
abandon_of s none = none
abandon_of s (some (b, rest)) =
    if s.done then some (record s { pending = rest; released = s.released ++ (b ∷ []) }) else none

-- The worker receives from `overflow`: in its outer select it keeps the buffer, in the draining loop
-- it releases it and ends when there is none.
abbrev pub worker_receives : Inbox → Worker → Option (List Buffer) → Option Inbox
worker_receives s w none = none
worker_receives s idle (some []) = none
worker_receives s idle (some (b ∷ q)) = some (record s { overflow = some q; worker = holding b })
worker_receives s draining (some []) = some (record s { worker = stopped })
worker_receives s draining (some (b ∷ q)) =
    some (record s { overflow = some q; released = s.released ++ (b ∷ []) })
worker_receives s stopped (some q) = none
worker_receives s (holding b) (some q) = none

-- The worker sends what it holds to `incoming`.
abbrev pub worker_sends : Inbox → Worker → Option Inbox
worker_sends s idle = none
worker_sends s draining = none
worker_sends s stopped = none
worker_sends s (holding b) =
    if ltb (length s.incoming) incoming_capacity
    then some (record s { incoming = s.incoming ++ (b ∷ []); worker = idle })
    else none

-- The worker sees that the connection is done: with a buffer in hand it releases that and returns,
-- otherwise it drains; before it has started there is none.
abbrev pub worker_done : Inbox → Worker → Option (List Buffer) → Option Inbox
worker_done s w none = none
worker_done s idle (some q) = if s.done then some (record s { worker = draining }) else none
worker_done s draining (some q) = none
worker_done s stopped (some q) = none
worker_done s (holding b) (some q) =
    if s.done then some (record s { worker = stopped; released = s.released ++ (b ∷ []) }) else none

-- `readBufferFromIncoming` when it receives; without data it reports that the connection is closed.
abbrev pub read_from : Inbox → Option (List ℕ) → Buffer → List Buffer → Inbox
read_from s none b q = record s { incoming = q; dropped = s.dropped ++ (b ∷ []) }
read_from s (some bs) b q = record s { incoming = q; delivered = s.delivered ++ (b ∷ []) }

abbrev pub read_incoming : Inbox → List Buffer → Option Inbox
read_incoming s [] = none
read_incoming s (b ∷ q) = some (read_from s b.bytes b q)

-- A round of the loop in `Close`, which ends when `incoming` is empty; the connection is then closed.
abbrev pub drain_from : Inbox → Option (List ℕ) → Buffer → List Buffer → Inbox
drain_from s none b q = record s { incoming = q; dropped = s.dropped ++ (b ∷ []) }
drain_from s (some bs) b q = record s { incoming = q; released = s.released ++ (b ∷ []) }

abbrev pub close_round : Inbox → Closer → List Buffer → Option Inbox
close_round s is_open q = some (record s { closer = drains })
close_round s drains [] = some (record s { closer = finished; done = true })
close_round s drains (b ∷ q) = some (drain_from s b.bytes b q)
close_round s finished q = none

-- The steps: `connection_done` is a close of the connection below.
pub data Step : Type 0 where
  offers : Buffer → Step
  spills abandons : ℕ → Step
  receives sends sees_done reads closes connection_done : Step

unfoldable pub take_step : Step → Inbox → Option Inbox
take_step (offers b) s = some (offer b s)
take_step (spills i) s = spill_to s s.overflow (pick i s.pending)
take_step (abandons i) s = abandon_of s (pick i s.pending)
take_step receives s = worker_receives s s.worker s.overflow
take_step sends s = worker_sends s s.worker
take_step sees_done s = worker_done s s.worker s.overflow
take_step reads s = read_incoming s s.incoming
take_step closes s = close_round s s.closer s.incoming
take_step connection_done s = some (record s { done = true })

-- A history from a state; `none` if one of its steps cannot be taken.
abbrev pub history_from : (Inbox → Option Inbox) → Option Inbox → Option Inbox
history_from rest none = none
history_from rest (some s) = rest s

unfoldable pub history : List Step → Inbox → Option Inbox
history [] s = some s
history (step ∷ steps) s = history_from (history steps) (take_step step s)
