-- ===== src/Highlevel/Writes.antt =====
-- Writing to a server-side `Conn` of highlevel/conn.go: `WriteMessage`, `writeMessage`, `WriteString`
-- and `WriteJSON`. A payload is a slice of an array in memory, since the send loop of the connection
-- reads it later than `SendFrame` queues it. The pool is a parameter, which hands arrays out by their
-- addresses; whether `SendFrame` queues a frame is an argument.
pub mod Payload
pub mod Reuse
mod Examples
use hioload_ws.Prelude.{
  ◌&&◌, ◌++◌, ◌==◌, ◌∷◌, Bool, List, Option, [], false, if◌then◌else◌, leb, length, none, refl,
  some, suc, take, true, zero, ℕ,
}
use hioload_ws.Api.Buffer.{copy}
use hioload_ws.Frame.{opcode_binary, opcode_close, opcode_ping, opcode_pong, opcode_text}

-- The arrays by address; those at `fresh` and above are not in use.
pub record Memory : Type 0 where
  pub array : ℕ → List ℕ
  pub fresh : ℕ

abbrev pub write_array : Memory → ℕ → List ℕ → Memory
write_array m a bs = record m { array = λ j. if j == a then bs else m.array j }

-- `append([]byte(nil), data...)`, at its address `m.fresh`.
abbrev pub own_slice : Memory → List ℕ → Memory
own_slice m data_bytes = record (write_array m m.fresh data_bytes) { fresh = suc m.fresh }

-- `Get` and `Release` on the state of some pool.
pub record ArrayPool : Type 1 where
  pub State : Type 0
  pub get_array : ℕ → State → ℕ × State
  pub put_array : ℕ → State → State

-- A frame that is queued: a final one, with the first `payload_len` bytes of the array at `base`.
pub record SlicedFrame : Type 0 where
  pub opcode : ℕ
  pub base : ℕ
  pub payload_len : ℕ

-- What the send loop reads from memory for a frame.
abbrev pub payload_of : Memory → SlicedFrame → List ℕ
payload_of m f = take f.payload_len (m.array f.base)

-- `MessageType`
abbrev pub text_message : ℕ
text_message = 1

abbrev pub binary_message : ℕ
binary_message = 2

abbrev pub close_message : ℕ
close_message = 8

abbrev pub ping_message : ℕ
ping_message = 9

abbrev pub pong_message : ℕ
pong_message = 10

-- The switch on the message type; a negative one would be binary too.
abbrev pub frame_opcode : ℕ → ℕ
frame_opcode message_type =
    if message_type == text_message
    then opcode_text
    else if message_type == binary_message
    then opcode_binary
    else if message_type == close_message
    then opcode_close
    else if message_type == ping_message
    then opcode_ping
    else if message_type == pong_message
    then opcode_pong
    else opcode_binary

-- The frame that is sent.
abbrev pub frame_for : ℕ → List ℕ → ℕ → SlicedFrame
frame_for message_type data_bytes a = record {
  opcode = frame_opcode message_type;
  base = a;
  payload_len = length data_bytes;
}

pub data WriteError : Type 0 where
  connection_closed send_failed write_timeout bad_json : WriteError

module _ (pool : ArrayPool) where
  -- `Conn` with the outbox of its connection.
  pub record Writer : Type 0 where
    pub closed : Bool
    pub has_write_timeout : Bool
    pub auto_release : Bool
    pub memory : Memory
    pub arrays : pool.State
    pub outbox : List SlicedFrame

  -- A pool buffer with room for the payload, and an owned slice where it has none.
  abbrev pub fill : Writer → ℕ → pool.State → List ℕ → Writer × ℕ × Bool
  fill c a arrays data_bytes =
      if leb (length data_bytes) (length (c.memory.array a))
      then (
        record c {
          memory = write_array c.memory a (copy (c.memory.array a) data_bytes);
          arrays = arrays;
        },
        a,
        true,
      )
      else (
        record c { memory = own_slice c.memory data_bytes; arrays = pool.put_array a arrays },
        c.memory.fresh,
        false,
      )

  -- `SendFrame`: the frame is queued, or not.
  abbrev pub queue_frame : Bool → Writer → SlicedFrame → Writer
  queue_frame sends c f = if sends then record c { outbox = c.outbox ++ (f ∷ []) } else c

  abbrev pub release_if : Bool → ℕ → Writer → Writer
  release_if use_pool a c =
      if use_pool && c.auto_release then record c { arrays = pool.put_array a c.arrays } else c

  abbrev pub write_filled : Bool → ℕ → List ℕ → Writer × ℕ × Bool → Writer
  write_filled sends message_type data_bytes (c, a, use_pool) =
      release_if use_pool a (queue_frame sends c (frame_for message_type data_bytes a))

  abbrev pub write_got : Bool → ℕ → List ℕ → Writer → ℕ × pool.State → Writer
  write_got sends message_type data_bytes c (a, arrays) =
      write_filled sends message_type data_bytes (fill c a arrays data_bytes)

  -- `WriteMessage` on a server-side connection.
  unfoldable pub write_message : Bool → ℕ → List ℕ → Writer → Writer × Option WriteError
  write_message sends message_type data_bytes c =
      if c.closed then (c, some connection_closed) else (
        write_got sends message_type data_bytes c (pool.get_array (length data_bytes) c.arrays),
        if sends then none else some send_failed,
      )

  -- `writeMessage`: with a write timeout the send runs beside it, and `late` tells that the timer is
  -- seen first; `sends` tells whether the frame is queued, then or later.
  unfoldable pub write_message_timed :
      Bool → Bool → ℕ → List ℕ → Writer → Writer × Option WriteError
  write_message_timed late sends message_type data_bytes c =
      if c.closed then (c, some connection_closed) else (
        write_got sends message_type data_bytes c (pool.get_array (length data_bytes) c.arrays),
        if c.has_write_timeout && late
            then some write_timeout
            else if sends
            then none
            else some send_failed,
      )

  -- `WriteString` and `WriteJSON`; a value is given by what `json.Marshal` makes of it.
  abbrev pub write_string : Bool → List ℕ → Writer → Writer × Option WriteError
  write_string sends s c = write_message sends text_message s c

  abbrev pub write_json : Bool → Option (List ℕ) → Writer → Writer × Option WriteError
  write_json sends none c = (c, some bad_json)
  write_json sends (some data_bytes) c = write_message sends binary_message data_bytes c
