-- ===== src/Connection/Direct.antt =====
-- The direct mode of `RecvZeroCopy` of protocol/connection.go: no loop is running, and the caller
-- reads from the transport.
pub mod Step
pub mod Chunks
pub mod Stream
use mathlib.Core.List.{flatten}
use hioload_ws.Prelude.{
  ◌&&◌, ◌++◌, ◌+◌, ◌-◌, ◌<◌, ◌==◌, ◌||◌, ◌∷◌, Bool, List, Option, [], drop, false, if◌then◌else◌,
  leb, length, ltb, none, not, some, suc, take, true, zero, ℕ,
}
use hioload_ws.Prelude.Int.{ltb_ℤ, pos, pos_part, ℤ}
use hioload_ws.Api.Buffer.{Buffer, BufferPool, bytes_of, copy}
use hioload_ws.Connection.{Connection, add_int64}
use hioload_ws.Frame.{WsFrame, max_frame_payload}
use hioload_ws.Frame.Decode.{
  Decoded, decode_frame_from_bytes, decoded, incomplete, panic, too_large,
}
use hioload_ws.Api.Buffer

-- `frame.PayloadLen < 0 || frame.PayloadLen > MaxFramePayload`
abbrev pub bad_length : WsFrame → Bool
bad_length f = ltb_ℤ f.payload_len (pos 0) || ltb_ℤ (pos max_frame_payload) f.payload_len

-- `framesReceived` and `bytesReceived` for one more frame.
abbrev pub count_frame : Connection → WsFrame → Connection
count_frame c f = record c {
  frames_received = add_int64 c.frames_received 1;
  bytes_received = add_int64 c.bytes_received (pos_part f.payload_len);
}

-- `payload[:frame.PayloadLen]` where it is longer.
abbrev pub cut_payload : WsFrame → List ℕ
cut_payload f =
    if ltb_ℤ f.payload_len (pos (length f.payload))
    then take (pos_part f.payload_len) f.payload
    else f.payload

-- `dst[:len(payload)]` where the pooled bytes are longer.
abbrev pub cut_dst : List ℕ → List ℕ → List ℕ
cut_dst dst payload = if ltb (length payload) (length dst) then take (length payload) dst else dst

abbrev pub copy_bytes : Option (List ℕ) → List ℕ → Option (List ℕ)
copy_bytes none payload = none
copy_bytes (some pooled) payload =
    let dst = cut_dst pooled payload in some (copy dst payload ++ drop (length dst) pooled)

-- The pooled buffer with the payload copied in, `buf.Slice(0, len(dst))`.
unfoldable pub fill_buffer : Buffer → List ℕ → Buffer
unfolding Buffer.slice
fill_buffer b payload =
    Buffer.slice (record b { bytes = copy_bytes b.bytes payload }) (pos 0)
      (pos (length (cut_dst (bytes_of b.bytes) payload)))

-- The end of a receive: buffers or an error, with the new state; a panic; or no fuel left.
pub data Received (S : Type 0) : Type 0 where
  received : List Buffer → Connection → S → Received S
  failed : Connection → S → Received S
  panicked : Received S
  stuck : Received S

module _ (pool : BufferPool) where
  -- The loop of the direct mode over `readBuf`, on fuel.
  unfoldable pub direct_loop : ℕ → Connection → pool.State → List Buffer → Received pool.State
  direct_loop zero c s result = stuck
  direct_loop (suc fuel) c s result =
      if length c.read_buf == 0
      then received result c s
      else elim (decode_frame_from_bytes c.read_buf) [
        | incomplete ↦ received result c s
        | too_large ↦ failed c s
        | panic ↦ panicked
        | decoded f consumed after ↦
            if consumed == 0
            then received result (record c { read_buf = after }) s
            else let c' = record c { read_buf = drop consumed after } in
              elim (bad_length f) [
                | true ↦ direct_loop fuel c' s result
                | false ↦
                    let payload = cut_payload f in
                    let (b, s') = pool.get (length payload) s in
                    direct_loop fuel (count_frame c' f) s' (result ++ (fill_buffer b payload ∷ []))
              ]
      ]

  -- All that one `transport.Recv` hands over; `none` is its error.
  unfoldable pub recv_direct :
      Connection → pool.State → Option (List (List ℕ)) → Received pool.State
  recv_direct c s none = failed c s
  recv_direct c s (some raws) =
      let c' = record c { read_buf = c.read_buf ++ flatten raws } in
      direct_loop (suc (length c'.read_buf)) c' s []
