-- ===== src/Frame.antt =====
-- The WebSocket frame of protocol/frame.go and the constants of protocol/constants.go and
-- protocol/frame_codec.go. A byte is a number below 256 and a byte slice a list of bytes.
pub mod Bytes
pub mod Mask
pub mod Decode
pub mod Encode
pub mod Stream
pub mod Examples
use hioload_ws.Prelude.{◌*◌, ◌<◌, ◌^◌, ◌∷◌, Bool, List, Option, [], ℕ}
use hioload_ws.Prelude.Int.{ℤ}

-- `Buf` is the pooled buffer that may carry the payload: `none` is its nil `Data`.
pub record WsFrame : Type 0 where
  pub is_final : Bool
  pub opcode : ℕ
  pub masked : Bool
  pub payload_len : ℤ
  pub mask_key : List ℕ
  pub payload : List ℕ
  pub buf : Option (List ℕ)

abbrev pub opcode_continuation : ℕ
opcode_continuation = 0x0

abbrev pub opcode_text : ℕ
opcode_text = 0x1

abbrev pub opcode_binary : ℕ
opcode_binary = 0x2

abbrev pub opcode_close : ℕ
opcode_close = 0x8

abbrev pub opcode_ping : ℕ
opcode_ping = 0x9

abbrev pub opcode_pong : ℕ
opcode_pong = 0xA

abbrev pub fin_bit : ℕ
fin_bit = 0x80

abbrev pub mask_bit : ℕ
mask_bit = 0x80

-- `1 << 20`
abbrev pub max_frame_payload : ℕ
max_frame_payload = 1_048_576

-- A `[4]byte` that nothing has written.
abbrev pub zero_key : List ℕ
zero_key = 0 ∷ 0 ∷ 0 ∷ 0 ∷ []

abbrev pub IsByte : ℕ → Type 0
IsByte b = b < 256
