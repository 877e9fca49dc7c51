-- ===== src/Connection/Loop.antt =====
-- `recvLoop` of protocol/connection.go, and the loop mode of `RecvZeroCopy` that takes from its inbox.
pub mod Termination
use mathlib.Core.List.{flatten}
use hioload_ws.Prelude.{
  ◌&&◌, ◌++◌, ◌==◌, ◌∷◌, Bool, List, Option, [], drop, false, if◌then◌else◌, length, ltb, none, not,
  some, suc, zero, ℕ,
}
use hioload_ws.Prelude.Int.{pos}
use hioload_ws.Api.Buffer.{Buffer, BufferPool}
use hioload_ws.Connection.{Connection, close}
use hioload_ws.Connection.Control.{
  ControlResult, crashed, handle_control, handled, unhandled, waits,
}
use hioload_ws.Connection.Direct.{bad_length, count_frame, cut_payload, fill_buffer}
use hioload_ws.Frame.{WsFrame}
use hioload_ws.Frame.Decode.{decode_frame_from_bytes, decoded, incomplete, panic, too_large}

-- Where a round of the loop stands: it goes on, it has returned (and closed the connection), it waits
-- for room in a channel, it panicked, or the fuel is used up.
pub data Round : Type 0 where
  goes_on : Connection → Round
  ended : Connection → Round
  waiting : Round
  panicked : Round
  stuck : Round

-- The handler is called with the frame's buffer.
unfoldable pub call_handler : Connection → WsFrame → Connection
call_handler c f =
    if c.handler && not (bad_length f)
    then record c { handled = c.handled ++ (f.payload ∷ []) }
    else c

-- The select of the inbox and `done`, then the handler. Where both cases are ready, `done_first` says
-- which is taken.
unfoldable pub deliver : Bool → Connection → WsFrame → Round
deliver done_first c f =
    if c.closed && done_first
    then ended c
    else if ltb (length c.inbox) c.channel_size
    then goes_on (call_handler (record c { inbox = c.inbox ++ (f ∷ []) }) f)
    else if c.closed
    then ended c
    else waiting

abbrev pub after_control : Bool → Connection → WsFrame → ControlResult → Round
after_control done_first c f (handled c') = goes_on c'
after_control done_first c f unhandled = deliver done_first c f
after_control done_first c f waits = waiting
after_control done_first c f crashed = panicked

-- One decoded frame. `frame.Buf` is set to the payload.
unfoldable pub handle_frame : Bool → Bool → Connection → WsFrame → Round
handle_frame done_first fails c f =
    let f' = record f { buf = some f.payload } in
    after_control done_first c f' (handle_control fails c f')

-- The next round of a loop, where there is one.
abbrev pub and_then : (Connection → Round) → Round → Round
and_then next (goes_on c) = next c
and_then next (ended c) = ended c
and_then next waiting = waiting
and_then next panicked = panicked
and_then next stuck = stuck

-- The deferred `c.Close()`.
abbrev pub with_close : Round → Round
with_close (goes_on c) = goes_on c
with_close (ended c) = ended (close c)
with_close waiting = waiting
with_close panicked = panicked
with_close stuck = stuck

module _ (done_first fails : Connection → Bool) where
  -- The inner loop over `readBuf`, on fuel. The choices of the scheduler and the outcomes of
  -- `transport.Send` may depend on the state.
  unfoldable pub frames_loop : ℕ → Connection → Round
  frames_loop zero c = stuck
  frames_loop (suc fuel) c =
      if length c.read_buf == 0 then goes_on c else elim (decode_frame_from_bytes c.read_buf) [
        | incomplete ↦ goes_on c
        | too_large ↦ ended c
        | panic ↦ panicked
        | decoded f consumed after ↦
            if consumed == 0
            then goes_on (record c { read_buf = after })
            else let c' = record (count_frame c f) { read_buf = drop consumed after } in
              and_then (frames_loop fuel) (handle_frame (done_first c') (fails c') c' f)
      ]

  -- One round of the outer loop, on what `transport.Recv` returns.
  unfoldable pub recv_round : Connection → Option (List (List ℕ)) → Round
  recv_round c reads = if c.closed then with_close (ended c) else elim reads [
    | none ↦ with_close (ended c)
    | some raws ↦
        let c' = record c { read_buf = c.read_buf ++ flatten raws } in
        with_close (frames_loop (suc (length c'.read_buf)) c')
  ]

-- The loop mode of `RecvZeroCopy`: the buffers and the new state, an error, or waiting. Where both
-- cases are ready, `done_first` says which is taken.
pub data Taken (S : Type 0) : Type 0 where
  taken : List Buffer → Connection → S → Taken S
  transport_closed : Taken S
  empty : Taken S

module _ (pool : BufferPool) where
  take_frame : Connection → pool.State → WsFrame → Taken pool.State
  take_frame c s f = if bad_length f then taken [] c s else elim f.buf [
    | some bytes ↦
        taken (record { bytes = some bytes; numa = pos 0; pool = false; class_size = pos 0 } ∷ []) c
          s
    | none ↦
        let payload = cut_payload f in
        let (b, s') = pool.get (length payload) s in taken (fill_buffer b payload ∷ []) c s'
  ]

  pub recv_from_inbox : Bool → Connection → pool.State → Taken pool.State
  recv_from_inbox done_first c s =
      if c.closed && done_first then transport_closed else elim c.inbox [
        | [] ↦ if c.closed then transport_closed else empty
        | f ∷ fs ↦ take_frame (record c { inbox = fs }) s f
      ]
