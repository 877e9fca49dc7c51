-- ===== src/Connection/Control.antt =====
-- `handleControl` of protocol/connection.go.
pub mod Replies
use hioload_ws.Prelude.{
  ◌==◌, ◌∷◌, Bool, List, Option, [], false, if◌then◌else◌, none, some, true, ℕ,
}
use hioload_ws.Connection.{Connection, close}
use hioload_ws.Connection.Send.{SendResult, blocked, panicked, returned, send_frame}
use hioload_ws.Frame.{WsFrame, opcode_close, opcode_ping, opcode_pong, zero_key}

-- `handled` and `unhandled` are the Go function's `true` and `false`.
pub data ControlResult : Type 0 where
  handled : Connection → ControlResult
  unhandled : ControlResult
  waits : ControlResult
  crashed : ControlResult

abbrev pub pong_of : WsFrame → WsFrame
pong_of f = record {
  is_final = true;
  opcode = opcode_pong;
  masked = false;
  payload_len = f.payload_len;
  mask_key = zero_key;
  payload = f.payload;
  buf = none;
}

-- The error of `SendFrame` is dropped.
abbrev pub after_send : SendResult → ControlResult
after_send (returned error c) = handled c
after_send blocked = waits
after_send panicked = crashed

abbrev pub and_close : ControlResult → ControlResult
and_close (handled c) = handled (close c)
and_close unhandled = unhandled
and_close waits = waits
and_close crashed = crashed

-- `fails` is the outcome of a `transport.Send` that `SendFrame` may make.
unfoldable pub handle_control : Bool → Connection → WsFrame → ControlResult
handle_control fails c f =
    if f.opcode == opcode_ping
    then after_send (send_frame fails c (pong_of f))
    else if f.opcode == opcode_pong
    then handled c
    else if f.opcode == opcode_close
    then and_close (after_send (send_frame fails c f))
    else unhandled
