-- ===== src/Connection/Direct/Step.antt =====
-- One frame of the direct mode.
use hioload_ws.Prelude.{◌++◌, ◌==◌, ◌∷◌, ◌≡◌, List, [], arith, drop, false, length, suc, ℕ}
use hioload_ws.Api.Buffer.{Buffer, BufferPool}
use hioload_ws.Connection.{Connection}
use hioload_ws.Connection.Direct.{
  bad_length, count_frame, cut_payload, direct_loop, failed, fill_buffer, panicked, received,
}
use hioload_ws.Frame.{WsFrame}
use hioload_ws.Frame.Decode.{decode_frame_from_bytes, decoded, incomplete, panic, too_large}
use hioload_ws.Frame.Decode.Bounds.{InBounds, decode_bounds, decode_short}

InBounds-length :
    {raw : List ℕ} {f : WsFrame} {consumed : ℕ} {after : List ℕ}
    → InBounds raw f consumed after
    → bad_length f ≡ false
InBounds-length {f = f} v = rw v.length_agrees (ground (arith, v.limit))

module _ (pool : BufferPool) where
  -- The connection, the pool and the buffers after one decoded frame.
  abbrev pub next_connection : Connection → WsFrame → ℕ → List ℕ → Connection
  next_connection c f consumed after = count_frame (record c { read_buf = drop consumed after }) f

  abbrev pub next_pool : WsFrame → pool.State → pool.State
  next_pool f s = (pool.get (length f.payload) s).1

  abbrev pub next_result : WsFrame → pool.State → List Buffer → List Buffer
  next_result f s result = result ++ (fill_buffer (pool.get (length f.payload) s).0 f.payload ∷ [])

  pub direct_loop_decoded :
      (fuel : ℕ) (c : Connection) (s : pool.State) (result : List Buffer) (f : WsFrame)
      (consumed : ℕ) (after : List ℕ)
      → decode_frame_from_bytes c.read_buf ≡ decoded f consumed after
      → direct_loop pool (suc fuel) c s result
        ≡ direct_loop pool fuel
            (next_connection c f consumed after)
            (next_pool f s)
            (next_result f s result)
  unfolding direct_loop
  direct_loop_decoded fuel c s result f consumed after e =
      let v = decode_bounds c.read_buf f consumed after e in
      let ok = InBounds-length v in
      let some_bytes : (length c.read_buf == 0) ≡ false = ground (arith, v.inside, v.header) in
      let moved : (consumed == 0) ≡ false = ground (arith, v.header) in
      let whole : cut_payload f ≡ f.payload = rw v.length_agrees (ground arith) in
      rw (some_bytes, e) (rw moved (rw ok (rw whole)))

  pub direct_loop_waits :
      (fuel : ℕ) (c : Connection) (s : pool.State) (result : List Buffer)
      → decode_frame_from_bytes c.read_buf ≡ incomplete
      → direct_loop pool (suc fuel) c s result ≡ received result c s
  unfolding direct_loop
  direct_loop_waits fuel c s result e = rw e (ground arith)

  pub direct_loop_rejects :
      (fuel : ℕ) (c : Connection) (s : pool.State) (result : List Buffer)
      → decode_frame_from_bytes c.read_buf ≡ too_large
      → direct_loop pool (suc fuel) c s result ≡ failed c s
  unfolding direct_loop
  direct_loop_rejects fuel c s result e = rw e (ground (arith, decode_short c.read_buf))

  pub direct_loop_crashes :
      (fuel : ℕ) (c : Connection) (s : pool.State) (result : List Buffer)
      → decode_frame_from_bytes c.read_buf ≡ panic
      → direct_loop pool (suc fuel) c s result ≡ panicked
  unfolding direct_loop
  direct_loop_crashes fuel c s result e = rw e (ground (arith, decode_short c.read_buf))
