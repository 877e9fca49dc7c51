-- ===== src/CoreProtocol/Connection.antt =====
-- core/protocol/connection.go: `SendFrame`, `sendLoop`, `handleControl`, `Close`, `GetStats` and
-- `RecvZeroCopy`, over the codec of core/protocol/frame_codec.go.
pub mod Receives
use hioload_ws.Prelude.{
  ◌++◌, ◌==◌, ◌∷◌, Bool, List, Option, [], false, if◌then◌else◌, length, ltb, none, refl, some, suc,
  true, zero, ℕ,
}
use hioload_ws.Prelude.Int.{negsuc, pos, pos_part}
use hioload_ws.Api.Buffer.{Buffer, BufferPool, copy}
use hioload_ws.Connection.{add_int64}
use hioload_ws.Connection.Control.{pong_of}
use hioload_ws.Connection.Direct.{bad_length}
use hioload_ws.CoreProtocol.{
  CoreDecoded, CoreEncoded, core_decode, core_encode, decoded, encoded, too_short,
}
use hioload_ws.Frame.{WsFrame, opcode_close, opcode_ping, opcode_pong}

-- `sent` is what the transport was handed.
pub record CoreConnection : Type 0 where
  pub channel_size : ℕ
  pub outbox : List WsFrame
  pub closed : Bool
  pub bytes_received : ℕ
  pub bytes_sent : ℕ
  pub frames_received : ℕ
  pub frames_sent : ℕ
  pub sent : List (List ℕ)
  pub transport_closed : Bool

-- `NewWSConnection`
abbrev pub new_core_connection : ℕ → CoreConnection
new_core_connection channel_size = record {
  channel_size = channel_size;
  outbox = [];
  closed = false;
  bytes_received = 0;
  bytes_sent = 0;
  frames_received = 0;
  frames_sent = 0;
  sent = [];
  transport_closed = false;
}

abbrev pub close_core : CoreConnection → CoreConnection
close_core c = if c.closed then c else record c { closed = true; transport_closed = true }

-- The results of `SendFrame`.
pub data CoreSend : Type 0 where
  queued transport_closed outbox_full : CoreSend

-- `SendFrame`: it never waits, and counts the frame when it queues it.
unfoldable pub core_send : WsFrame → CoreConnection → CoreSend × CoreConnection
core_send f c =
    if c.closed
    then (transport_closed, c)
    else if ltb (length c.outbox) c.channel_size
    then (
      queued,
      record c {
        outbox = c.outbox ++ (f ∷ []);
        frames_sent = add_int64 c.frames_sent 1;
        bytes_sent = add_int64 c.bytes_sent (pos_part f.payload_len);
      },
    )
    else (outbox_full, c)

-- A round of `sendLoop` with a frame from the outbox; `none` is a panic of the encoder, `fails` the
-- outcome of `transport.Send`.
abbrev pub send_encoded : Bool → CoreConnection → CoreEncoded → Option CoreConnection
send_encoded fails c hioload_ws.CoreProtocol.CoreEncoded.too_large = some (close_core c)
send_encoded fails c hioload_ws.CoreProtocol.CoreEncoded.panic = none
send_encoded fails c (hioload_ws.CoreProtocol.encoded bytes) =
    let c' : CoreConnection = record c { sent = c.sent ++ (bytes ∷ []) } in
    some (if fails then close_core c' else c')

abbrev pub core_send_round : Bool → CoreConnection → List WsFrame → Option CoreConnection
core_send_round fails c [] = some c
core_send_round fails c (f ∷ fs) = send_encoded fails (record c { outbox = fs }) (core_encode f)

-- `handleControl`: whether the frame was a control frame.
abbrev pub core_handle_control : WsFrame → CoreConnection → Bool × CoreConnection
core_handle_control f c =
    if f.opcode == opcode_ping
    then (true, (core_send (pong_of f) c).1)
    else if f.opcode == opcode_pong
    then (true, c)
    else if f.opcode == opcode_close
    then (true, close_core (core_send f c).1)
    else (false, c)

-- `GetStats`: bytes and frames received, bytes and frames sent.
abbrev pub core_stats : CoreConnection → ℕ × ℕ × ℕ × ℕ
core_stats c = (c.bytes_received, c.frames_received, c.bytes_sent, c.frames_sent)

-- The pooled bytes with the payload copied over their start, as much of it as they hold.
abbrev pub copy_over : Option (List ℕ) → List ℕ → Option (List ℕ)
copy_over none payload = none
copy_over (some pooled) payload = some (copy pooled payload)

abbrev pub core_count : CoreConnection → WsFrame → CoreConnection
core_count c f = record c {
  frames_received = add_int64 c.frames_received 1;
  bytes_received = add_int64 c.bytes_received (pos_part f.payload_len);
}

-- The end of a receive: a panic of the decoder, or the buffers.
pub data CoreReceived (S : Type 0) : Type 0 where
  crashes : CoreReceived S
  gives : List Buffer → CoreConnection → S → CoreReceived S

abbrev pub add_buffer : {S : Type 0} → Buffer → CoreReceived S → CoreReceived S
add_buffer b crashes = crashes
add_buffer b (gives bs c s) = gives (b ∷ bs) c s

module _ (pool : BufferPool) where
  -- One decoded frame; `rest` is the rest of the loop.
  abbrev pub take_core_frame :
      (CoreConnection → pool.State → CoreReceived pool.State)
      → CoreConnection
      → pool.State
      → WsFrame
      → Buffer × pool.State
      → CoreReceived pool.State
  take_core_frame rest c s f (b, s') =
      if bad_length f
      then rest c s
      else add_buffer (record b { bytes = copy_over b.bytes f.payload }) (rest (core_count c f) s')

  abbrev pub take_decoded :
      (CoreConnection → pool.State → CoreReceived pool.State)
      → CoreConnection
      → pool.State
      → CoreDecoded
      → CoreReceived pool.State
  take_decoded rest c s hioload_ws.CoreProtocol.CoreDecoded.too_short = rest c s
  take_decoded rest c s hioload_ws.CoreProtocol.CoreDecoded.too_large = rest c s
  take_decoded rest c s hioload_ws.CoreProtocol.CoreDecoded.panic = crashes
  take_decoded rest c s (hioload_ws.CoreProtocol.decoded f) =
      take_core_frame rest c s f (pool.get (pos_part f.payload_len) s)

  -- `RecvZeroCopy` on what `transport.Recv` returned.
  unfoldable pub core_recv : List (List ℕ) → CoreConnection → pool.State → CoreReceived pool.State
  core_recv [] c s = gives [] c s
  core_recv (raw ∷ raws) c s = take_decoded (core_recv raws) c s (core_decode raw)
