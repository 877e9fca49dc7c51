-- ===== src/Connection/Control/Replies.antt =====
-- How `handleControl` answers pings and close frames.
use hioload_ws.Prelude.{◌++◌, ◌<◌, ◌∷◌, ◌≡◌, ◌≤◌, Bool, [], arith, false, length, refl, true}
use hioload_ws.Connection.{Connection, close}
use hioload_ws.Connection.Control.{handle_control, handled, pong_of, waits}
use hioload_ws.Connection.Send.{send_frame}
use hioload_ws.Frame.{WsFrame, opcode_close, opcode_ping}

-- On an open connection with room in the outbox a ping is handled by putting one pong at the end of
-- the outbox, with the payload of the ping, and starting the send loop; the connection stays as it was
-- otherwise.
pub handle_control-ping :
    (fails : Bool) (c : Connection) (f : WsFrame)
    → f.opcode ≡ opcode_ping
    → c.closed ≡ false
    → length c.outbox < c.channel_size
    → handle_control fails c f
      ≡ handled (record c { outbox = c.outbox ++ pong_of f ∷ []; send_running = true })
unfolding handle_control send_frame
handle_control-ping fails c f ping opened room = ground arith

-- On an open connection with room in the outbox a close frame is handled by queueing the frame itself,
-- its mask bit included, and closing the transport at once: nothing has been sent, and the echo is
-- still in the outbox of a connection whose transport is closed.
pub handle_control-close :
    (fails : Bool) (c : Connection) (f : WsFrame)
    → f.opcode ≡ opcode_close
    → c.closed ≡ false
    → length c.outbox < c.channel_size
    → (d : Connection) × (handle_control fails c f ≡ handled d)
      × (d.outbox ≡ c.outbox ++ f ∷ [])
      × (d.closed ≡ true)
      × (d.transport_closed ≡ true)
      × (d.sent ≡ c.sent)
unfolding handle_control send_frame close
handle_control-close fails c f is opened room = (
  record c {
    outbox = c.outbox ++ f ∷ [];
    send_running = true;
    closed = true;
    transport_closed = true;
  },
  ground arith,
  refl,
  refl,
  refl,
  refl,
)

-- A ping that finds the outbox of an open connection full makes the receiving loop wait.
pub handle_control-full :
    (fails : Bool) (c : Connection) (f : WsFrame)
    → f.opcode ≡ opcode_ping
    → c.closed ≡ false
    → c.channel_size ≤ length c.outbox
    → handle_control fails c f ≡ waits
unfolding handle_control send_frame
handle_control-full fails c f ping opened full = ground arith
