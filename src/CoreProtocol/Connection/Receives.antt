-- ===== src/CoreProtocol/Connection/Receives.antt =====
-- What `RecvZeroCopy` of core/protocol/connection.go gives for a frame.
use hioload_ws.Prelude.{
  ◌++◌, ◌||◌, ◌∙◌, ◌∷◌, ◌≡◌, ◌≤◌, List, [], ap, arith, drop, false, if◌then◌else◌, length, some,
  take, take_all, ℕ,
}
use hioload_ws.Prelude.Int.{ltb_ℤ, pos, pos_part}
use hioload_ws.Api.Buffer.{Buffer, BufferPool, IsRoomy, copy}
use hioload_ws.Connection.Direct.{bad_length}
use hioload_ws.CoreProtocol.{core_encode, encoded}
use hioload_ws.CoreProtocol.Connection.{
  CoreConnection, add_buffer, copy_over, core_count, core_recv, take_core_frame, take_decoded,
}
use hioload_ws.CoreProtocol.Encodes.{core_decode-core_encode, final_frame}
use hioload_ws.Frame.{WsFrame, max_frame_payload}
use hioload_ws.Frame.Encode.RoundTrip.{IsSendable, received}

copy-shorter :
    (dst src : List ℕ) → length src ≤ length dst → copy dst src ≡ src ++ drop (length src) dst
copy-shorter dst src h =
    ap (λ n. take n src ++ drop n dst) (omega arith)
    ∙ ap (λ z. z ++ drop (length src) dst) (take_all (length src) src (omega arith))

good_length : (f : WsFrame) → IsSendable f → bad_length (received (final_frame f) false) ≡ false
good_length f s =
    ap (λ l. ltb_ℤ l (pos 0) || ltb_ℤ (pos max_frame_payload) l) s.length_agrees
    ∙ ground (arith, s.limit)

module _ (pool : BufferPool) (limit : ℕ) (roomy : IsRoomy pool limit) where
  -- When the transport hands over a frame that the encoder made of a sendable one, of a payload for
  -- which the pool has room, and other bytes behind it, there is one buffer for both: its start is the
  -- payload, what the pool had there follows up to the buffer's end, and the other bytes are dropped,
  -- also where they are a frame.
  pub core_recv-core_encode :
      (f : WsFrame) (rest : List ℕ) (raws : List (List ℕ)) (c : CoreConnection) (s : pool.State)
      → IsSendable f
      → length f.payload ≤ limit
      → (bytes : List ℕ) × (pooled : List ℕ) × (b : Buffer) × (core_encode f ≡ encoded bytes)
        × ((pool.get (length f.payload) s).0.bytes ≡ some pooled)
        × (b.bytes ≡ some (f.payload ++ drop (length f.payload) pooled))
        × (core_recv pool ((bytes ++ rest) ∷ raws) c s
            ≡ add_buffer b (core_recv pool raws (core_count c f) (pool.get (length f.payload) s).1))
  unfolding core_recv
  core_recv-core_encode f rest raws c s ok fits =
      let (bytes, e, e', d) = core_decode-core_encode f rest [] ok in
      let (pooled, got, room) = roomy.room (length f.payload) s fits in
      let g = received (final_frame f) false in
      let b₀ = (pool.get (length f.payload) s).0 in
      let b : Buffer = record b₀ { bytes = copy_over b₀.bytes f.payload } in
      let len : pos_part f.payload_len ≡ length f.payload = ap pos_part ok.length_agrees in
      (
        bytes,
        pooled,
        b,
        e,
        got,
        ap (λ o. copy_over o f.payload) got ∙ ap some (copy-shorter pooled f.payload room),
        ap (take_decoded pool (core_recv pool raws) c s) d
            ∙ ap (λ n. take_core_frame pool (core_recv pool raws) c s g (pool.get n s)) len
            ∙ ap
                (λ t.
                  if t
                  then core_recv pool raws c s
                  else add_buffer b
                      (core_recv pool raws (core_count c g) (pool.get (length f.payload) s).1))
                (good_length f ok),
      )
