-- ===== src/Connection/Loop/Termination.antt =====
-- The loop of `recvLoop` over `readBuf` ends.
use hioload_ws.Prelude.{
  ◌&&◌, ◌++◌, ◌<◌, ◌==◌, ◌∙◌, ◌∷◌, ◌≡◌, ◌≢◌, Bool, Bool-cases, List, [], ap, arith, drop, false,
  if_lem, if◌then◌else◌, inl, inr, length, ltb, not, refl, subst, suc, sym, true, zero, ℕ,
}
use hioload_ws.Connection.{Connection, close}
use hioload_ws.Connection.Control.{
  ControlResult, after_send, and_close, crashed, handle_control, handled, pong_of, unhandled, waits,
}
use hioload_ws.Connection.Direct.{bad_length, count_frame}
use hioload_ws.Connection.Direct.Chunks.{next_shorter}
use hioload_ws.Connection.Loop.{
  Round, after_control, and_then, call_handler, deliver, ended, frames_loop, goes_on, handle_frame,
  panicked, stuck, waiting,
}
use hioload_ws.Connection.Send.{SendResult, blocked, returned, send_frame}
use hioload_ws.Frame.{WsFrame, opcode_close, opcode_ping, opcode_pong}
use hioload_ws.Frame.Decode.{answer, crashes, decode_frame_from_bytes, decoded, finds, rejects}
use hioload_ws.Frame.Decode.Bounds.{decode_bounds}

-- What a result of `handleControl` leaves in `readBuf`.
abbrev KeepsBuffer : List ℕ → ControlResult → Type 0
KeepsBuffer bs (handled c) = c.read_buf ≡ bs
KeepsBuffer bs unhandled = Unit
KeepsBuffer bs waits = Unit
KeepsBuffer bs crashed = Unit

close-read_buf : (c : Connection) → (close c).read_buf ≡ c.read_buf
unfolding close
close-read_buf c = ground arith

and_close-KeepsBuffer :
    (bs : List ℕ) (r : ControlResult) → KeepsBuffer bs r → KeepsBuffer bs (and_close r)
and_close-KeepsBuffer bs (handled c) h = close-read_buf c ∙ h
and_close-KeepsBuffer bs unhandled h = tt
and_close-KeepsBuffer bs waits h = tt
and_close-KeepsBuffer bs crashed h = tt

-- `SendFrame` starts the send loop if need be, and queues.
send_frame_queues :
    (fails : Bool) (c : Connection) (f : WsFrame)
    → send_frame fails c f ≡ (
        if c.closed
        then returned true c
        else if ltb (length c.outbox) c.channel_size
        then returned false (record c { outbox = c.outbox ++ (f ∷ []); send_running = true })
        else blocked)
unfolding send_frame
send_frame_queues fails c f = elim (Bool-cases c.send_running) [
  | inl running ↦ ground arith
  | inr idle ↦ ground arith
]

send_frame-KeepsBuffer :
    (fails : Bool) (c : Connection) (f : WsFrame)
    → KeepsBuffer c.read_buf (after_send (send_frame fails c f))
send_frame-KeepsBuffer fails c f =
    let P : SendResult → Type 0 = λ r. KeepsBuffer c.read_buf (after_send r) in
    subst P (sym (send_frame_queues fails c f))
      (if_lem P c.closed refl (if_lem P (ltb (length c.outbox) c.channel_size) refl tt))

handle_control-KeepsBuffer :
    (fails : Bool) (c : Connection) (f : WsFrame)
    → KeepsBuffer c.read_buf (handle_control fails c f)
unfolding handle_control
handle_control-KeepsBuffer fails c f =
    let P = KeepsBuffer c.read_buf in
    if_lem P (f.opcode == opcode_ping) (send_frame-KeepsBuffer fails c (pong_of f)) (
      if_lem P (f.opcode == opcode_pong) refl (
        if_lem P (f.opcode == opcode_close)
          (and_close-KeepsBuffer c.read_buf _ (send_frame-KeepsBuffer fails c f)) tt))

-- The same for a round of the loop, which is never out of fuel in itself.
abbrev KeepsRound : List ℕ → Round → Type 0
KeepsRound bs (goes_on c) = c.read_buf ≡ bs
KeepsRound bs (ended c) = Unit
KeepsRound bs waiting = Unit
KeepsRound bs panicked = Unit
KeepsRound bs stuck = ⊥

deliver-KeepsRound :
    (done_first : Bool) (c : Connection) (f : WsFrame)
    → KeepsRound c.read_buf (deliver done_first c f)
unfolding deliver call_handler
deliver-KeepsRound done_first c f =
    let P = KeepsRound c.read_buf in
    if_lem P (c.closed && done_first) tt (
      if_lem P (ltb (length c.inbox) c.channel_size)
        (if_lem (λ (d : Connection). d.read_buf ≡ c.read_buf) (c.handler && not (bad_length f)) refl
          refl)
        (if_lem P c.closed tt tt))

after_control-KeepsRound :
    (done_first : Bool) (c : Connection) (f : WsFrame) (r : ControlResult)
    → KeepsBuffer c.read_buf r
    → KeepsRound c.read_buf (after_control done_first c f r)
after_control-KeepsRound done_first c f (handled c') h = h
after_control-KeepsRound done_first c f unhandled h = deliver-KeepsRound done_first c f
after_control-KeepsRound done_first c f waits h = tt
after_control-KeepsRound done_first c f crashed h = tt

handle_frame-KeepsRound :
    (done_first fails : Bool) (c : Connection) (f : WsFrame)
    → KeepsRound c.read_buf (handle_frame done_first fails c f)
unfolding handle_frame
handle_frame-KeepsRound done_first fails c f =
    after_control-KeepsRound done_first c _ _ (handle_control-KeepsBuffer fails c _)

module _ (done_first fails : Connection → Bool) where
  and_then-ne-stuck :
      (next : Connection → Round) (bs : List ℕ) (r : Round)
      → KeepsRound bs r
      → ((c : Connection) → c.read_buf ≡ bs → next c ≢ stuck)
      → and_then next r ≢ stuck
  and_then-ne-stuck next bs (goes_on c) h n = n c h
  and_then-ne-stuck next bs (ended c) h n = λ e. grind (arith, e)
  and_then-ne-stuck next bs waiting h n = λ e. grind (arith, e)
  and_then-ne-stuck next bs panicked h n = λ e. grind (arith, e)
  and_then-ne-stuck next bs stuck h n = absurd h

  -- The connection behind one decoded frame.
  abbrev behind : Connection → WsFrame → ℕ → List ℕ → Connection
  behind c f consumed after = record (count_frame c f) { read_buf = drop consumed after }

  frames_loop-decoded :
      (fuel : ℕ) (c : Connection) (f : WsFrame) (consumed : ℕ) (after : List ℕ)
      → decode_frame_from_bytes c.read_buf ≡ decoded f consumed after
      → frames_loop done_first fails (suc fuel) c
        ≡ and_then (frames_loop done_first fails fuel) (
            handle_frame
              (done_first (behind c f consumed after))
              (fails (behind c f consumed after))
              (behind c f consumed after)
              f)
  unfolding frames_loop
  frames_loop-decoded fuel c f consumed after e =
      let v = decode_bounds c.read_buf f consumed after e in
      let some_bytes : (length c.read_buf == 0) ≡ false = ground (arith, v.header, v.inside) in
      let some_consumed : (consumed == 0) ≡ false = ground (arith, v.header) in
      rw (some_bytes, e, some_consumed) refl

  -- The loop of `recvLoop` over the bytes it has ends: fuel above their number is never used up,
  -- whatever the frames are and however channels, scheduler and transport behave.
  pub frames_loop-ne-stuck :
      (fuel : ℕ) (c : Connection)
      → length c.read_buf < fuel
      → frames_loop done_first fails fuel c ≢ stuck
  frames_loop-ne-stuck zero c h = absurd (omega arith)
  frames_loop-ne-stuck (suc fuel) c h = elim (answer (decode_frame_from_bytes c.read_buf)) [
    | hioload_ws.Frame.Decode.waits e ↦ unfold frames_loop in rw e (ground arith)
    | rejects e ↦ unfold frames_loop in rw e (ground arith)
    | crashes e ↦ unfold frames_loop in rw e (ground arith)
    | finds f consumed after e ↦ rw (frames_loop-decoded fuel c f consumed after e) (
        and_then-ne-stuck (frames_loop done_first fails fuel) (drop consumed after)
          (handle_frame _ _ (behind c f consumed after) f)
          (handle_frame-KeepsRound _ _ (behind c f consumed after) f)
          (λ c' same.
            frames_loop-ne-stuck fuel c'
              (omega (arith, next_shorter c f consumed after e, ap (length {A = ℕ}) same))))
  ]
