-- ===== src/Frame/Encode.antt =====
-- `EncodeFrameToBufferWithMask`, `EncodeFrameToBytesWithMask` and `EncodeFrameToBytes` of
-- protocol/frame_codec.go.
pub mod Header
pub mod Wire
pub mod RoundTrip
pub mod Prefix
use hioload_ws.Prelude.{
  ◌%◌, ◌++◌, ◌+◌, ◌∷◌, Bool, List, Option, [], bit_and, bit_or, false, if◌then◌else◌, ltb, none,
  not, some, take, true, ℕ,
}
use hioload_ws.Prelude.Int.{ltb_ℤ, pos, pos_part, ℤ}
use hioload_ws.Frame.{WsFrame, max_frame_payload}
use hioload_ws.Frame.Bytes.{put_uint16, put_uint64, to_byte}
use hioload_ws.Frame.Mask.{mask_first}

-- `panic` is a masking index past the end of `dst`.
pub data Encoded : Type 0 where
  too_large : Encoded
  encoded : List ℕ → Encoded
  panic : Encoded

abbrev pub example_mask_key : List ℕ
example_mask_key = 0x12 ∷ 0x34 ∷ 0x56 ∷ 0x78 ∷ []

unfoldable pub first_byte : WsFrame → ℕ
first_byte f = bit_or (if f.is_final then 0x80 else 0) (bit_and f.opcode 0x0F)

-- `plen <= k`
abbrev pub at_most : ℤ → ℕ → Bool
at_most plen k = not (ltb_ℤ (pos k) plen)

-- The three headers, over the first byte. `uint16(plen)` and `uint64(plen)` are of a positive
-- length there.
unfoldable pub header : ℕ → ℤ → Bool → List ℕ
header b0 plen mask =
    if at_most plen 125
    then b0 ∷ (if mask then bit_or (to_byte plen) 0x80 else to_byte plen) ∷ []
    else if at_most plen 0xFFFF
    then b0 ∷ (if mask then bit_or 126 0x80 else 126) ∷ put_uint16 (pos_part plen)
    else b0 ∷ (if mask then bit_or 127 0x80 else 127) ∷ put_uint64 (pos_part plen)

-- The bytes behind the header and the key, masked or not.
unfoldable pub append_payload : List ℕ → Option (List ℕ) → Encoded
append_payload front none = panic
append_payload front (some bytes) = encoded (front ++ bytes)

-- `dst` is cut to length 0 before the first append.
unfoldable pub encode_frame_to_buffer_with_mask : WsFrame → Bool → List ℕ → Encoded
encode_frame_to_buffer_with_mask f mask dst =
    if ltb_ℤ (pos max_frame_payload) f.payload_len
    then too_large
    else let front = take 0 dst ++ header (first_byte f) f.payload_len mask in
      if mask
      then append_payload (front ++ example_mask_key)
          (mask_first f.payload_len example_mask_key f.payload)
      else append_payload front (some f.payload)

-- `EncodeFrameToBytesWithMask` passes a nil `dst`.
pub encode_frame_to_bytes_with_mask : WsFrame → Bool → Encoded
encode_frame_to_bytes_with_mask f mask = encode_frame_to_buffer_with_mask f mask []

pub encode_frame_to_bytes : WsFrame → Encoded
encode_frame_to_bytes f = encode_frame_to_bytes_with_mask f f.masked
