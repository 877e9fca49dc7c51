-- ===== src/Client.antt =====
-- The client of lowlevel/client/facade.go and its batch in lowlevel/client/batch.go: the sending side
-- as steps of the callers of `Send` and `WriteMessage`, of `sendLoop` and of `Close`, the reading side,
-- and the reader over a transport. `none` means that a step cannot be taken in that state. The
-- semaphore of the batch makes `Append` and `Swap` one step each.
pub mod Order
pub mod Appends
pub mod Received
pub mod Reader
mod Examples
use hioload_ws.Prelude.{
  ◌%◌, ◌++◌, ◌+◌, ◌∷◌, Bool, List, Option, [], false, if◌then◌else◌, length, ltb, none, some, suc,
  true, zero, ℕ,
}
use hioload_ws.Prelude.Int.{pos}
use hioload_ws.Frame.{WsFrame, opcode_binary, zero_key}
use hioload_ws.Frame.Encode.{Encoded, encode_frame_to_buffer_with_mask, encoded, panic, too_large}

-- `sendLoop`: in its select, with a batch that it has swapped out and has still to send, the same on
-- its way out, and returned.
pub data LoopPlace : Type 0 where
  selecting finished : LoopPlace
  sending sending_last : List (List ℕ) → LoopPlace

-- `batch` are the encoded frames in `sendBatch`; `checking` counts the calls that have appended and
-- have still to compare the length of the batch; `callers` are the batches that such calls have
-- swapped out and have still to send. `appended` are all encoded frames that were appended, `sent`
-- those that `transport.Send` was called with.
pub record Client : Type 0 where
  pub batch_size : ℕ
  pub batch : List (List ℕ)
  pub checking : ℕ
  pub callers : List (List (List ℕ))
  pub loop : LoopPlace
  pub flush_signal : Bool
  pub cancelled : Bool
  pub closed : Bool
  pub appended : List (List ℕ)
  pub sent : List (List ℕ)

abbrev pub new_client : ℕ → Client
new_client batch_size = record {
  batch_size = batch_size;
  batch = [];
  checking = 0;
  callers = [];
  loop = selecting;
  flush_signal = false;
  cancelled = false;
  closed = false;
  appended = [];
  sent = [];
}

-- The frame of `WriteMessage`, with `byte(messageType)`.
abbrev pub client_frame : ℕ → List ℕ → WsFrame
client_frame message_type msg = record {
  is_final = true;
  opcode = message_type % 256;
  masked = true;
  payload_len = pos (length msg);
  mask_key = zero_key;
  payload = msg;
  buf = none;
}

-- `Batch.Append`
abbrev pub append : List ℕ → Client → Client
append raw s = record s {
  batch = s.batch ++ (raw ∷ []);
  appended = s.appended ++ (raw ∷ []);
  checking = s.checking + 1;
}

-- A message that cannot be encoded is dropped by `Send` and an error of `WriteMessage`.
abbrev pub append_encoded : Encoded → Client → Option Client
append_encoded too_large s = some s
append_encoded (encoded raw) s = some (append raw s)
append_encoded panic s = none

-- `WriteMessage` up to the test of the length, on a slice of the pool, and `Send`.
unfoldable pub write_message : ℕ → List ℕ → List ℕ → Client → Option Client
write_message message_type scratch msg s =
    append_encoded (encode_frame_to_buffer_with_mask (client_frame message_type msg) true scratch) s

abbrev pub send : List ℕ → List ℕ → Client → Option Client
send scratch msg s = write_message opcode_binary scratch msg s

-- `flush` of a caller up to its `transport.Send`: `Swap`, and nothing more if the batch was empty.
abbrev pub caller_flush : Client → List (List ℕ) → Client
caller_flush s [] = record s { batch = [] }
caller_flush s (b ∷ bs) = record s { batch = []; callers = s.callers ++ ((b ∷ bs) ∷ []) }

-- The test of the length behind `Append`, and `signalFlush`.
abbrev pub check_length : Client → ℕ → Option Client
check_length s zero = none
check_length s (suc n) = some (
    let s₁ = record s { checking = n } in
    if ltb (length s.batch) s.batch_size
    then record s₁ { flush_signal = true }
    else caller_flush s₁ s.batch)

-- One of the swapped batches, and the others.
abbrev pub pick_then :
    List (List ℕ)
    → Option (List (List ℕ) × List (List (List ℕ)))
    → Option (List (List ℕ) × List (List (List ℕ)))
pick_then c none = none
pick_then c (some (b, rest)) = some (b, c ∷ rest)

abbrev pub pick : ℕ → List (List (List ℕ)) → Option (List (List ℕ) × List (List (List ℕ)))
pick i [] = none
pick zero (b ∷ bs) = some (b, bs)
pick (suc i) (b ∷ bs) = pick_then b (pick i bs)

-- `transport.Send` of a caller's flush, whatever it returns.
abbrev pub caller_send : Client → Option (List (List ℕ) × List (List (List ℕ))) → Option Client
caller_send s none = none
caller_send s (some (b, rest)) = some (record s { callers = rest; sent = s.sent ++ b })

-- `flush` of `sendLoop` up to its `transport.Send`.
abbrev pub loop_flush : Client → List (List ℕ) → Client
loop_flush s [] = record s { batch = [] }
loop_flush s (b ∷ bs) = record s { batch = []; loop = sending (b ∷ bs) }

abbrev pub last_flush : Client → List (List ℕ) → Client
last_flush s [] = record s { batch = []; loop = finished }
last_flush s (b ∷ bs) = record s { batch = []; loop = sending_last (b ∷ bs) }

-- The three cases of the select of `sendLoop`.
abbrev pub loop_tick : Client → LoopPlace → Option Client
loop_tick s selecting = some (loop_flush s s.batch)
loop_tick s finished = none
loop_tick s (sending b) = none
loop_tick s (sending_last b) = none

abbrev pub loop_signal : Client → LoopPlace → Option Client
loop_signal s selecting =
    if s.flush_signal then some (loop_flush (record s { flush_signal = false }) s.batch) else none
loop_signal s finished = none
loop_signal s (sending b) = none
loop_signal s (sending_last b) = none

abbrev pub loop_done : Client → LoopPlace → Option Client
loop_done s selecting = if s.cancelled then some (last_flush s s.batch) else none
loop_done s finished = none
loop_done s (sending b) = none
loop_done s (sending_last b) = none

-- `transport.Send` of the loop's flush.
abbrev pub loop_send : Client → LoopPlace → Option Client
loop_send s selecting = none
loop_send s finished = none
loop_send s (sending b) = some (record s { loop = selecting; sent = s.sent ++ b })
loop_send s (sending_last b) = some (record s { loop = finished; sent = s.sent ++ b })

-- `Close`: the cancel, and the close of the connection once `sendLoop` has returned.
abbrev pub cancel : Client → Client
cancel s = record s { cancelled = true }

abbrev pub close_connection : Client → LoopPlace → Option Client
close_connection s selecting = none
close_connection s finished = some (record s { closed = true })
close_connection s (sending b) = none
close_connection s (sending_last b) = none

-- `writes message_type scratch msg` and `caller_sends i` name the call.
pub data Step : Type 0 where
  writes : ℕ → List ℕ → List ℕ → Step
  caller_sends : ℕ → Step
  checks ticks signalled sees_done loop_sends cancels closes : Step

unfoldable pub take_step : Step → Client → Option Client
take_step (writes message_type scratch msg) s = write_message message_type scratch msg s
take_step (caller_sends i) s = caller_send s (pick i s.callers)
take_step checks s = check_length s s.checking
take_step ticks s = loop_tick s s.loop
take_step signalled s = loop_signal s s.loop
take_step sees_done s = loop_done s s.loop
take_step loop_sends s = loop_send s s.loop
take_step cancels s = some (cancel s)
take_step closes s = close_connection s s.loop
