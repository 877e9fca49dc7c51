-- ===== src/Connection/Send.antt =====
-- `SendFrame` and `sendLoop` of protocol/connection.go.
pub mod Order
pub mod Limits
use hioload_ws.Prelude.{
  ◌&&◌, ◌++◌, ◌-◌, ◌∷◌, Bool, List, Option, [], drop, false, if◌then◌else◌, length, ltb, none, some,
  suc, take, true, zero, ℕ,
}
use hioload_ws.Prelude.Int.{pos_part}
use hioload_ws.Connection.{Connection, add_int64, close}
use hioload_ws.Frame.{WsFrame}
use hioload_ws.Frame.Encode.{Encoded, encode_frame_to_buffer_with_mask, encoded, panic, too_large}

-- The end of a call: it returned with an error (`true`) or without, it waits on a channel, or it
-- panicked.
pub data SendResult : Type 0 where
  returned : Bool → Connection → SendResult
  blocked : SendResult
  panicked : SendResult

-- The part of `SendFrame` behind the queueing, `transport.Send` failing as `fails` says.
unfoldable pub send_direct : Bool → Connection → WsFrame → SendResult
send_direct fails c f = elim (encode_frame_to_buffer_with_mask f f.masked []) [
  | too_large ↦ returned true c
  | panic ↦ panicked
  | encoded bytes ↦
      let c' = record c { sent = c.sent ++ ((bytes ∷ []) ∷ []) } in
      if fails
      then returned true c'
      else returned false (record c' {
        frames_sent = add_int64 c.frames_sent 1;
        bytes_sent = add_int64 c.bytes_sent (pos_part f.payload_len);
      })
]

-- `SendFrame`. The channel send waits when the outbox is full.
unfoldable pub send_frame : Bool → Connection → WsFrame → SendResult
send_frame fails c f =
    if c.closed
    then returned true c
    else let c' = if c.send_running then c else record c { send_running = true } in
      if c'.send_running
      then (if ltb (length c'.outbox) c'.channel_size
          then returned false (record c' { outbox = c'.outbox ++ (f ∷ []) })
          else blocked)
      else send_direct fails c' f

-- `maxBatch`
abbrev pub max_batch : ℕ
max_batch = 32

-- The encodings of a batch, or what stopped them.
pub data Batch : Type 0 where
  all_encoded : List (List ℕ) → Batch
  failed : Batch
  crashed : Batch

abbrev pub add_bytes : List ℕ → Batch → Batch
add_bytes bytes (all_encoded out) = all_encoded (bytes ∷ out)
add_bytes bytes failed = failed
add_bytes bytes crashed = crashed

abbrev pub add_encoded : Encoded → Batch → Batch
add_encoded too_large rest = failed
add_encoded panic rest = crashed
add_encoded (encoded bytes) rest = add_bytes bytes rest

-- The frames of a batch in order; the first error ends it.
unfoldable pub encode_batch : List WsFrame → Batch
encode_batch [] = all_encoded []
encode_batch (f ∷ fs) =
    add_encoded (encode_frame_to_buffer_with_mask f f.masked []) (encode_batch fs)

-- `transport.Send` of an encoded batch; an error closes the connection and ends the loop.
unfoldable pub send_batch : Bool → Connection → Batch → SendResult
send_batch fails c failed = returned true (close c)
send_batch fails c crashed = panicked
send_batch fails c (all_encoded out) =
    let c' = record c { sent = c.sent ++ (out ∷ []) } in
    if fails then returned true (close c') else returned false c'

-- One round of `sendLoop`: up to `max_batch` frames leave the outbox and go out in one `Send`. It
-- waits when the outbox is empty; `true` is the end of the loop. Where a frame waits and the
-- connection is closed, the select takes either case: `done_first` says which.
unfoldable pub send_round : Bool → Bool → Connection → SendResult
send_round done_first fails c = elim c.outbox [
  | [] ↦ if c.closed then returned true c else blocked
  | f ∷ fs ↦
      if c.closed && done_first
      then returned true c
      else send_batch fails (record c { outbox = drop max_batch (f ∷ fs) })
          (encode_batch (take max_batch (f ∷ fs)))
]
