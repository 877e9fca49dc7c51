-- ===== src/Connection.antt =====
-- `WSConnection` of protocol/connection.go, one goroutine at a time. `done` is closed exactly when
-- `closed` is set, so one flag stands for both. What the transport and the handler are handed is kept
-- in `sent`, `handled` and `transport_closed`. An int64 counter is its bit pattern, below 2 ^ 64.
pub mod Send
pub mod Direct
pub mod Control
pub mod Loop
pub mod Examples
use hioload_ws.Prelude.{◌%◌, ◌+◌, ◌^◌, Bool, List, Option, [], false, if◌then◌else◌, true, ℕ}
use hioload_ws.Frame.{WsFrame}

pub record Connection : Type 0 where
  pub channel_size : ℕ
  pub inbox : List WsFrame
  pub outbox : List WsFrame
  pub handler : Bool
  pub closed : Bool
  pub bytes_received : ℕ
  pub bytes_sent : ℕ
  pub frames_received : ℕ
  pub frames_sent : ℕ
  pub loop_running : Bool
  pub send_running : Bool
  pub read_buf : List ℕ
  pub sent : List (List (List ℕ))
  pub handled : List (List ℕ)
  pub transport_closed : Bool

-- `NewWSConnection`
unfoldable pub new_ws_connection : ℕ → Connection
new_ws_connection channel_size = record {
  channel_size = channel_size;
  inbox = [];
  outbox = [];
  handler = false;
  closed = false;
  bytes_received = 0;
  bytes_sent = 0;
  frames_received = 0;
  frames_sent = 0;
  loop_running = false;
  send_running = false;
  read_buf = [];
  sent = [];
  handled = [];
  transport_closed = false;
}

-- `atomic.AddInt64`
abbrev pub add_int64 : ℕ → ℕ → ℕ
add_int64 a b = (a + b) % 2 ^ 64

-- `Start`; the two loops are the functions of the modules below.
pub start : Connection → Connection
start c = record c { loop_running = true; send_running = true }

-- `Close`: the first call closes the transport, and any other does nothing.
unfoldable pub close : Connection → Connection
close c = if c.closed then c else record c { closed = true; transport_closed = true }

-- `SetHandler`
pub set_handler : Connection → Connection
set_handler c = record c { handler = true }

pub record Stats : Type 0 where
  pub bytes_received : ℕ
  pub bytes_sent : ℕ
  pub frames_received : ℕ
  pub frames_sent : ℕ

-- `GetStats`
pub get_stats : Connection → Stats
get_stats c = record {
  bytes_received = c.bytes_received;
  bytes_sent = c.bytes_sent;
  frames_received = c.frames_received;
  frames_sent = c.frames_sent;
}
