-- ===== src/Connection/Direct/Stream.antt =====
-- A stream of encoded frames through the direct mode of `RecvZeroCopy`.
use mathlib.Core.List.{flatten}
use hioload_ws.Prelude.{
  ◌++◌, ◌<◌, ◌∙◌, ◌∷◌, ◌≡◌, ◌≤◌, All, List, Option, [], ap, append-nil, append_assoc, ap₂, arith,
  drop, length, length-append, length-take, map, refl, some, suc, sym, take-length-append, zero, ℕ,
}
use hioload_ws.Prelude.Int.{pos}
use hioload_ws.Api.Buffer.{Buffer, BufferPool, IsRoomy, bytes-slice, bytes_of, copy, copy_lem}
use hioload_ws.Connection.{Connection}
use hioload_ws.Connection.Direct.{
  copy_bytes, cut_dst, direct_loop, fill_buffer, received, recv_direct,
}
use hioload_ws.Connection.Direct.Chunks.{next_shorter}
use hioload_ws.Connection.Direct.Step.{
  direct_loop_decoded, direct_loop_waits, next_connection, next_pool, next_result,
}
use hioload_ws.Frame.{WsFrame, max_frame_payload}
use hioload_ws.Frame.Decode.{decode_frame_from_bytes, decoded, incomplete}
use hioload_ws.Frame.Decode.Bounds.{decode_short}
use hioload_ws.Frame.Encode.RoundTrip.{IsSendable, decode_wire, received as received_frame, wire}
use hioload_ws.Api.Buffer

length-cut_dst :
    (dst payload : List ℕ)
    → length payload ≤ length dst
    → length (cut_dst dst payload) ≡ length payload
length-cut_dst dst payload h = ground (arith, length-take (length payload) dst)

-- A pooled buffer with room for the payload hands it over whole.
fill_buffer-bytes :
    (b : Buffer) (bs payload : List ℕ)
    → b.bytes ≡ some bs
    → length payload ≤ length bs
    → (fill_buffer b payload).bytes ≡ some payload
unfolding fill_buffer
fill_buffer-bytes b bs payload e h =
    let size : length (cut_dst bs payload) ≡ length payload = length-cut_dst bs payload h in
    let rest : List ℕ = drop (length payload) bs in
    let filled : copy (cut_dst bs payload) payload ++ drop (length (cut_dst bs payload)) bs
        ≡ payload ++ rest =
      ap₂ ◌++◌ (copy_lem (cut_dst bs payload) payload size) (ap (λ n. drop n bs) size) in
    let copied : copy_bytes b.bytes payload ≡ some (payload ++ rest) =
      ap (λ o. copy_bytes o payload) e ∙ ap some filled in
    let b' : Buffer = record b { bytes = copy_bytes b.bytes payload } in
    let ends : length (cut_dst (bytes_of b.bytes) payload) ≡ length payload =
      ap (λ o. length (cut_dst (bytes_of o) payload)) e ∙ size in
    ap (λ n. (Buffer.slice b' (pos 0) (pos n)).bytes) ends
    ∙ bytes-slice b' (payload ++ rest) (length payload) copied
        (omega (arith, length-append payload rest))
    ∙ ap some (take-length-append payload rest)

-- Each frame with its masking flag, as `SendFrame` puts it on the wire.
abbrev pub wires : List WsFrame → List ℕ
wires [] = []
wires (f ∷ fs) = wire f f.masked ++ wires fs

abbrev pub payloads : List WsFrame → List (Option (List ℕ))
payloads [] = []
payloads (f ∷ fs) = some f.payload ∷ payloads fs

module _ (pool : BufferPool) (roomy : IsRoomy pool max_frame_payload) where
  loop_wires :
      (fs : List WsFrame) (fuel : ℕ) (c : Connection) (s : pool.State) (result : List Buffer)
      → All IsSendable fs
      → c.read_buf ≡ wires fs
      → length c.read_buf < fuel
      → (bufs : List Buffer) × (c' : Connection) × (s' : pool.State) × (direct_loop pool fuel c s
            result
          ≡ received (result ++ bufs) c' s')
        × (map (λ b. b.bytes) bufs ≡ payloads fs)
        × (c'.read_buf ≡ [])
  loop_wires fs zero c s result ok e h = absurd (omega arith)
  loop_wires [] (suc fuel) c s result ok e h =
      let waits : decode_frame_from_bytes c.read_buf ≡ incomplete =
        rw e (decode_short [] (omega arith)) in
      (
        [],
        c,
        s,
        direct_loop_waits pool fuel c s result waits
            ∙ ap (λ r. received r c s) (sym (append-nil result)),
        refl,
        e,
      )
  loop_wires (f ∷ fs) (suc fuel) c s result (ok, oks) e h =
      let (after, found, left) = decode_wire f f.masked (wires fs) ok in
      let found' : decode_frame_from_bytes c.read_buf
          ≡ decoded (received_frame f f.masked) (length (wire f f.masked)) after =
        ap decode_frame_from_bytes e ∙ found in
      let g = received_frame f f.masked in
      let size = length (wire f f.masked) in
      let buf = fill_buffer (pool.get (length f.payload) s).0 f.payload in
      let (bs, pooled, room) = roomy.room (length f.payload) s ok.limit in
      let (bufs, c', s', ran, same, empty) =
        loop_wires fs fuel (next_connection pool c g size after) (next_pool pool g s)
          (next_result pool g s result) oks left
          (omega (arith, next_shorter c g size after found')) in
      (
        buf ∷ bufs,
        c',
        s',
        direct_loop_decoded pool fuel c s result g size after found'
            ∙ ran
            ∙ ap (λ r. received r c' s') (append_assoc result (buf ∷ []) bufs),
        ap₂ ◌∷◌ (fill_buffer-bytes (pool.get (length f.payload) s).0 bs f.payload pooled room) same,
        empty,
      )

  -- Frames whose wire forms arrive one after the other on an idle connection, in whatever pieces, come
  -- out of `RecvZeroCopy` as one buffer each, in order and with their payloads, and nothing is left
  -- over, given a pool whose buffers have room for a payload.
  pub recv_direct-wires :
      (fs : List WsFrame) (raws : List (List ℕ)) (c : Connection) (s : pool.State)
      → All IsSendable fs
      → c.read_buf ≡ []
      → flatten raws ≡ wires fs
      → (bufs : List Buffer) × (c' : Connection) × (s' : pool.State) × (recv_direct pool c s
            (some raws)
          ≡ received bufs c' s')
        × (map (λ b. b.bytes) bufs ≡ payloads fs)
        × (c'.read_buf ≡ [])
  unfolding recv_direct
  recv_direct-wires fs raws c s ok idle arrived =
      loop_wires fs _ (record c { read_buf = c.read_buf ++ flatten raws }) s [] ok
        (ap (λ bs. bs ++ flatten raws) idle ∙ arrived) (omega arith)
