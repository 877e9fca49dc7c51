-- ===== src/Connection/Direct/Chunks.antt =====
-- How the transport cuts the byte stream into reads does not matter to the direct mode.
use mathlib.Core.List.{flatten}
use hioload_ws.Prelude.{
  ◌++◌, ◌<◌, ◌∙◌, ◌≡◌, ◌≢◌, List, Option, [], ap, append-nil, append_assoc, arith, drop,
  drop-append, flatten-append, length, length-append, length-drop, none, refl, some, suc, sym, zero,
  ℕ,
}
use hioload_ws.Api.Buffer.{Buffer, BufferPool}
use hioload_ws.Connection.{Connection}
use hioload_ws.Connection.Direct.{
  Received, direct_loop, failed, panicked, received, recv_direct, stuck,
}
use hioload_ws.Connection.Direct.Step.{
  direct_loop_crashes, direct_loop_decoded, direct_loop_rejects, direct_loop_waits, next_connection,
  next_pool, next_result,
}
use hioload_ws.Frame.{WsFrame}
use hioload_ws.Frame.Decode.{
  answer, crashes, decode_frame_from_bytes, decoded, finds, rejects, waits,
}
use hioload_ws.Frame.Decode.Bounds.{decode_bounds}
use hioload_ws.Frame.Decode.Stable.{decode-append, with_more}

-- A decoded frame shortens the read buffer.
pub next_shorter :
    (c : Connection) (f : WsFrame) (consumed : ℕ) (after : List ℕ)
    → decode_frame_from_bytes c.read_buf ≡ decoded f consumed after
    → length (drop consumed after) < length c.read_buf
next_shorter c f consumed after e =
    let v = decode_bounds c.read_buf f consumed after e in
    omega (arith, v.header, v.inside, v.same_length, length-drop consumed after)

module _ (pool : BufferPool) where
  -- With fuel above the length of the buffer the loop ends before the fuel does.
  direct_loop_fuel :
      (f g : ℕ) (c : Connection) (s : pool.State) (result : List Buffer)
      → length c.read_buf < f
      → length c.read_buf < g
      → direct_loop pool f c s result ≡ direct_loop pool g c s result
  direct_loop_fuel zero g c s result h k = absurd (omega arith)
  direct_loop_fuel (suc f) zero c s result h k = absurd (omega arith)
  direct_loop_fuel (suc f) (suc g) c s result h k =
      elim (answer (decode_frame_from_bytes c.read_buf)) [
        | waits e ↦ unfold direct_loop in rw e
        | rejects e ↦ unfold direct_loop in rw e
        | crashes e ↦ unfold direct_loop in rw e
        | finds fr consumed after e ↦
            let shorter = next_shorter c fr consumed after e in
            direct_loop_decoded pool f c s result fr consumed after e
            ∙ direct_loop_fuel f g (next_connection pool c fr consumed after) (next_pool pool fr s)
                (next_result pool fr s result) (omega (arith, shorter)) (omega (arith, shorter))
            ∙ sym (direct_loop_decoded pool g c s result fr consumed after e)
      ]

  direct_loop-ne-stuck :
      (f : ℕ) (c : Connection) (s : pool.State) (result : List Buffer)
      → length c.read_buf < f
      → direct_loop pool f c s result ≢ stuck
  direct_loop-ne-stuck zero c s result h = absurd (omega arith)
  direct_loop-ne-stuck (suc f) c s result h = elim (answer (decode_frame_from_bytes c.read_buf)) [
    | waits e ↦ unfold direct_loop in rw e (ground arith)
    | rejects e ↦ unfold direct_loop in rw e (ground arith)
    | crashes e ↦ unfold direct_loop in rw e (ground arith)
    | finds fr consumed after e ↦ rw (direct_loop_decoded pool f c s result fr consumed after e) (
        direct_loop-ne-stuck f (next_connection pool c fr consumed after) (next_pool pool fr s)
          (next_result pool fr s result) (omega (arith, next_shorter c fr consumed after e)))
  ]

  -- The same connection with more bytes in the read buffer.
  abbrev pub feed : Connection → List ℕ → Connection
  feed c more = record c { read_buf = c.read_buf ++ more }

  direct_loop-feed :
      (f : ℕ) (c : Connection) (s : pool.State) (result : List Buffer) (more : List ℕ)
      (mid : List Buffer) (c₁ : Connection) (s₁ : pool.State)
      → length c.read_buf < f
      → direct_loop pool f c s result ≡ received mid c₁ s₁
      → direct_loop pool (suc (length (c.read_buf ++ more))) (feed c more) s result
        ≡ direct_loop pool (suc (length (c₁.read_buf ++ more))) (feed c₁ more) s₁ mid
  direct_loop-feed zero c s result more mid c₁ s₁ h e = absurd (omega arith)
  direct_loop-feed (suc f) c s result more mid c₁ s₁ h e =
      elim (answer (decode_frame_from_bytes c.read_buf)) [
        | waits w ↦
            let same : received result c s ≡ received mid c₁ s₁ =
              sym (direct_loop_waits pool f c s result w) ∙ e in
            let results : mid ≡ result = cc in
            let connections : c₁ ≡ c = cc in
            let pools : s₁ ≡ s = cc in rw (results, connections, pools)
        | rejects w ↦ absurd (cc (direct_loop_rejects pool f c s result w))
        | crashes w ↦ absurd (cc (direct_loop_crashes pool f c s result w))
        | finds fr consumed after w ↦
            let more_found : decode_frame_from_bytes (c.read_buf ++ more)
                ≡ decoded fr consumed (after ++ more) =
              decode-append c.read_buf more (λ e'. cc) ∙ ap (with_more more) w in
            let v = decode_bounds c.read_buf fr consumed after w in
            let dropped : drop consumed (after ++ more) ≡ drop consumed after ++ more =
              drop-append consumed after more (omega (arith, v.inside, v.same_length)) in
            let shorter = next_shorter c fr consumed after w in
            let s' = next_pool pool fr s in
            let result' = next_result pool fr s result in
            let c' = next_connection pool c fr consumed after in
            direct_loop_decoded pool (length (c.read_buf ++ more)) (feed c more) s result fr
              consumed (after ++ more) more_found
            ∙ ap
                (λ bs.
                  direct_loop pool (length (c.read_buf ++ more)) (record c' { read_buf = bs }) s'
                    result')
                dropped
            ∙ direct_loop_fuel (length (c.read_buf ++ more))
                (suc (length (drop consumed after ++ more))) (feed c' more) s' result'
                (omega (
                  arith,
                  shorter,
                  length-append c.read_buf more,
                  length-append (drop consumed after) more,
                ))
                (omega arith)
            ∙ direct_loop-feed f c' s' result' more mid c₁ s₁ (omega (arith, shorter))
                (sym (direct_loop_decoded pool f c s result fr consumed after w) ∙ e)
      ]

  -- The same end, with earlier buffers in front of the result.
  abbrev pub prepend : List Buffer → Received pool.State → Received pool.State
  prepend mid (received result c s) = received (mid ++ result) c s
  prepend mid (failed c s) = failed c s
  prepend mid panicked = panicked
  prepend mid stuck = stuck

  direct_loop-prepend :
      (f : ℕ) (c : Connection) (s : pool.State) (mid result : List Buffer)
      → direct_loop pool f c s (mid ++ result) ≡ prepend mid (direct_loop pool f c s result)
  direct_loop-prepend zero c s mid result = unfold direct_loop in refl
  direct_loop-prepend (suc f) c s mid result = elim (answer (decode_frame_from_bytes c.read_buf)) [
    | waits e ↦
        rw (direct_loop_waits pool f c s (mid ++ result) e, direct_loop_waits pool f c s result e)
    | rejects e ↦
        rw (
          direct_loop_rejects pool f c s (mid ++ result) e,
          direct_loop_rejects pool f c s result e,
        )
    | crashes e ↦
        rw (
          direct_loop_crashes pool f c s (mid ++ result) e,
          direct_loop_crashes pool f c s result e,
        )
    | finds fr consumed after e ↦
        let c' = next_connection pool c fr consumed after in
        let s' = next_pool pool fr s in
        direct_loop_decoded pool f c s (mid ++ result) fr consumed after e
        ∙ ap (direct_loop pool f c' s') (append_assoc mid result _)
        ∙ direct_loop-prepend f c' s' mid (next_result pool fr s result)
        ∙ ap (prepend mid) (sym (direct_loop_decoded pool f c s result fr consumed after e))
  ]

  -- Where a call of `RecvZeroCopy` on some reads succeeds, a single call on these and further reads
  -- ends as a second call on the further reads does, with the same connection state and pool; if that
  -- succeeds, its buffers stand behind those of the first call.
  pub recv_direct-append :
      (c : Connection) (s : pool.State) (raws₁ raws₂ : List (List ℕ)) (mid : List Buffer)
      (c₁ : Connection) (s₁ : pool.State)
      → recv_direct pool c s (some raws₁) ≡ received mid c₁ s₁
      → recv_direct pool c s (some (raws₁ ++ raws₂))
        ≡ prepend mid (recv_direct pool c₁ s₁ (some raws₂))
  unfolding recv_direct
  recv_direct-append c s raws₁ raws₂ mid c₁ s₁ e =
      let more : List ℕ = flatten raws₂ in
      let c' : Connection = feed c (flatten raws₁) in
      let joined : c.read_buf ++ flatten (raws₁ ++ raws₂) ≡ c'.read_buf ++ more =
        ap (λ bs. c.read_buf ++ bs) (flatten-append raws₁ raws₂)
        ∙ sym (append_assoc c.read_buf (flatten raws₁) more) in
      ap (λ bs. direct_loop pool (suc (length bs)) (record c { read_buf = bs }) s []) joined
      ∙ direct_loop-feed (suc (length c'.read_buf)) c' s [] more mid c₁ s₁ (omega arith) e
      ∙ ap (direct_loop pool (suc (length (c₁.read_buf ++ more))) (feed c₁ more) s₁)
          (sym (append-nil mid))
      ∙ direct_loop-prepend (suc (length (c₁.read_buf ++ more))) (feed c₁ more) s₁ mid []

  -- `RecvZeroCopy` in direct mode always comes to an end.
  pub recv_direct-ne-stuck :
      (c : Connection) (s : pool.State) (reads : Option (List (List ℕ)))
      → recv_direct pool c s reads ≢ stuck
  unfolding recv_direct
  recv_direct-ne-stuck c s none = λ e. cc
  recv_direct-ne-stuck c s (some raws) =
      direct_loop-ne-stuck (suc (length (c.read_buf ++ flatten raws))) _ s [] (omega arith)
