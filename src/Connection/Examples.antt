-- ===== src/Connection/Examples.antt =====
-- Runs of a connection, and its theorems at concrete inputs.
use mathlib.Core.List.{flatten}
use hioload_ws.Prelude.{
  ◌++◌, ◌+◌, ◌∷◌, ◌≡◌, ◌≢◌, List, [], append-nil, arith, false, length-replicate, map, refl,
  replicate, some, true, ℕ,
}
use hioload_ws.Prelude.Int.{◌+ℤ◌, pos}
use hioload_ws.Api.Buffer.{Buffer, BufferPool, IsRoomy}
use hioload_ws.Connection.{Connection, get_stats, new_ws_connection}
use hioload_ws.Connection.Direct.{direct_loop, received, recv_direct}
use hioload_ws.Connection.Direct.Chunks.{prepend, recv_direct-append}
use hioload_ws.Connection.Direct.Stream.{payloads, recv_direct-wires, wires}
use hioload_ws.Connection.Loop.{frames_loop}
use hioload_ws.Connection.Loop.Termination.{frames_loop-ne-stuck}
use hioload_ws.Connection.Send.{encode_batch, send_batch, send_frame, send_round}
use hioload_ws.Connection.Send.Order.{Sends, Sends-in_order, accepts, begins, flushes, sent_bytes}
use hioload_ws.Frame.{WsFrame, max_frame_payload}
use hioload_ws.Frame.Decode.{
  decode_body, decode_frame, decode_frame_from_bytes, decode_length, decode_payload,
}
use hioload_ws.Frame.Encode.{append_payload, encode_frame_to_buffer_with_mask}
use hioload_ws.Frame.Encode.RoundTrip.{wire}
use hioload_ws.Frame.Examples.{hi, hi-IsSendable}

-- A pool that makes a buffer of the size asked for.
abbrev pub fresh_pool : BufferPool
fresh_pool = record {
  State = ℕ;
  get = λ n s. (
    record { bytes = some (replicate n 0); numa = pos 0; pool = true; class_size = pos n },
    s + 1,
  );
}

pub fresh_pool-IsRoomy : IsRoomy fresh_pool max_frame_payload
fresh_pool-IsRoomy = record {
  room = λ n s h. (replicate n 0, refl, omega (arith, length-replicate {A = ℕ} n 0));
}

abbrev pub fresh : Connection
fresh = record {
  channel_size = 2;
  inbox = [];
  outbox = [];
  handler = false;
  closed = false;
  bytes_received = 0;
  bytes_sent = 0;
  frames_received = 0;
  frames_sent = 0;
  loop_running = false;
  send_running = false;
  read_buf = [];
  sent = [];
  handled = [];
  transport_closed = false;
}

abbrev queued : Connection
queued = record fresh { outbox = hi ∷ []; send_running = true }

abbrev flushed : Connection
flushed = record fresh { send_running = true; sent = (wire hi false ∷ []) ∷ [] }

history : Sends (new_ws_connection 2) flushed (hi ∷ [])
unfolding new_ws_connection send_frame send_round send_batch encode_batch
    encode_frame_to_buffer_with_mask append_payload
history =
    flushes {d = queued} false false false (accepts {d = fresh} {fs = []} false hi begins refl) refl

Sends-in_order_example : sent_bytes flushed ++ wires [] ≡ wires (hi ∷ [])
Sends-in_order_example = Sends-in_order 2 flushed (hi ∷ []) history (hi-IsSendable, tt)

abbrev ping : WsFrame
ping = record hi { opcode = 9 }

-- Half of a frame in one read.
half :
    recv_direct fresh_pool fresh 0 (some ((0x81 ∷ 2 ∷ []) ∷ []))
    ≡ received [] (record fresh { read_buf = 0x81 ∷ 2 ∷ [] }) 0
unfolding recv_direct direct_loop decode_frame_from_bytes decode_length decode_body decode_payload
    decode_frame ◌+ℤ◌ flatten
half = refl

recv_direct-append_example :
    recv_direct fresh_pool fresh 0 (some ((0x81 ∷ 2 ∷ []) ∷ (104 ∷ 105 ∷ []) ∷ []))
    ≡ prepend fresh_pool [] (
        recv_direct fresh_pool
          (record fresh { read_buf = 0x81 ∷ 2 ∷ [] })
          0
          (some ((104 ∷ 105 ∷ []) ∷ [])))
recv_direct-append_example =
    recv_direct-append fresh_pool fresh 0 ((0x81 ∷ 2 ∷ []) ∷ []) ((104 ∷ 105 ∷ []) ∷ []) []
      (record fresh { read_buf = 0x81 ∷ 2 ∷ [] }) 0 half

recv_direct-wires_example :
    (bufs : List Buffer) × (c' : Connection) × (s' : ℕ) × (recv_direct fresh_pool fresh 0
        (some (wires (hi ∷ hi ∷ []) ∷ []))
      ≡ received bufs c' s')
    × (map (λ b. b.bytes) bufs ≡ payloads (hi ∷ hi ∷ []))
    × (c'.read_buf ≡ [])
recv_direct-wires_example =
    recv_direct-wires fresh_pool fresh_pool-IsRoomy (hi ∷ hi ∷ []) (wires (hi ∷ hi ∷ []) ∷ []) fresh
      0 (hi-IsSendable, (hi-IsSendable, tt)) refl
      (unfold flatten in append-nil (wires (hi ∷ hi ∷ [])))

frames_loop-ne-stuck_example :
    frames_loop (λ c. true) (λ c. false) 5 (record fresh { read_buf = 0x89 ∷ 2 ∷ 104 ∷ 105 ∷ [] })
    ≢ hioload_ws.Connection.Loop.stuck
frames_loop-ne-stuck_example =
    frames_loop-ne-stuck (λ c. true) (λ c. false) 5
      (record fresh { read_buf = 0x89 ∷ 2 ∷ 104 ∷ 105 ∷ [] }) (omega arith)
