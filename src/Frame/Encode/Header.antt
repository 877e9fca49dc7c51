-- ===== src/Frame/Encode/Header.antt =====
-- The header of `EncodeFrameToBufferWithMask` as `DecodeFrameFromBytes` reads it.
use hioload_ws.Prelude.{
  ◌++◌, ◌+◌, ◌<◌, ◌∷◌, ◌≡◌, ◌≤◌, Bool, List, [], arith, bit_and, bit_or, dec_lt, false,
  if◌then◌else◌, length, refl, some, true, ℕ,
}
use hioload_ws.Prelude.Bits.{
  bit_and-0x0f, bit_and-0x7f, bit_and-0x80, bit_or-0x80, set_top_bit_lem, zero-bit_or,
}
use hioload_ws.Prelude.Int.{pos}
use hioload_ws.Frame.{WsFrame, max_frame_payload}
use hioload_ws.Frame.Bytes.{byte_at, put_uint16, put_uint64, uint16-put_uint16, uint64-put_uint64}
use hioload_ws.Frame.Decode.{decode_length, has_top_bit}
use hioload_ws.Frame.Encode.{first_byte, header}

joined_byte :
    (fin : Bool) (op : ℕ)
    → op < 16
    → bit_or (if fin then 0x80 else 0) op ≡ (if fin then op + 128 else op)
joined_byte true op h = set_top_bit_lem op (omega arith)
joined_byte false op h = zero-bit_or op (omega arith)

first_byte_lem :
    (f : WsFrame) → f.opcode < 16 → first_byte f ≡ (if f.is_final then f.opcode + 128 else f.opcode)
unfolding first_byte
first_byte_lem f h =
    let low : bit_and f.opcode 0x0F ≡ f.opcode = omega (arith, bit_and-0x0f f.opcode) in
    rw low (joined_byte f.is_final f.opcode h)

pub first_byte_fields :
    (f : WsFrame)
    → f.opcode < 16
    → (has_top_bit (first_byte f) ≡ f.is_final) × (bit_and (first_byte f) 0x0F ≡ f.opcode)
first_byte_fields f h = rw (first_byte_lem f h) (fields f.is_final f.opcode h)
  where
    fields :
        (fin : Bool) (op : ℕ)
        → op < 16
        → let b : ℕ = if fin then op + 128 else op in (has_top_bit b ≡ fin) × (bit_and b 0x0F ≡ op)
    fields true op h' = ground (arith, bit_and-0x80 (op + 128), bit_and-0x0f (op + 128))
    fields false op h' = ground (arith, bit_and-0x80 op, bit_and-0x0f op)

-- The second byte, for a seven-bit length and the mask bit.
pub second_byte :
    (mask : Bool) (n : ℕ)
    → n < 128
    → let b : ℕ = if mask then bit_or n 0x80 else n in (has_top_bit b ≡ mask) × (bit_and b 0x7F ≡ n)
second_byte true n h =
    rw (bit_or-0x80 n h) (ground (arith, bit_and-0x80 (n + 128), bit_and-0x7f (n + 128)))
second_byte false n h = ground (arith, bit_and-0x80 n, bit_and-0x7f n)

-- What `DecodeFrameFromBytes` reads from a header, whatever follows it.
abbrev pub Reads : List ℕ → ℕ → ℕ → Bool → Type 0
Reads hdr b0 n mask =
    (rest : List ℕ)
    → (byte_at (hdr ++ rest) 0 ≡ b0)
      × (has_top_bit (byte_at (hdr ++ rest) 1) ≡ mask)
      × (decode_length (hdr ++ rest) (bit_and (byte_at (hdr ++ rest) 1) 0x7F)
          ≡ some (pos n, length hdr))
      × (2 ≤ length hdr)

pub header_small :
    (b0 n : ℕ) (mask : Bool)
    → n ≤ 125
    → header b0 (pos n) mask ≡ b0 ∷ (if mask then bit_or n 0x80 else n) ∷ []
unfolding header
header_small b0 n mask h = ground arith

pub header_medium :
    (b0 n : ℕ) (mask : Bool)
    → 125 < n
    → n ≤ 0xFFFF
    → header b0 (pos n) mask ≡ b0 ∷ (if mask then bit_or 126 0x80 else 126) ∷ put_uint16 n
unfolding header
header_medium b0 n mask h k = ground arith

pub header_large :
    (b0 n : ℕ) (mask : Bool)
    → 0xFFFF < n
    → header b0 (pos n) mask ≡ b0 ∷ (if mask then bit_or 127 0x80 else 127) ∷ put_uint64 n
unfolding header
header_large b0 n mask h = ground arith

small_Reads :
    (b0 n : ℕ) (mask : Bool)
    → n ≤ 125
    → Reads (b0 ∷ (if mask then bit_or n 0x80 else n) ∷ []) b0 n mask
unfolding decode_length
small_Reads b0 n mask h rest =
    let (top, low) = second_byte mask n (omega arith) in
    (refl, top, rw low (ground arith), omega arith)

medium_Reads :
    (b0 n : ℕ) (mask : Bool)
    → n ≤ 0xFFFF
    → Reads (b0 ∷ (if mask then bit_or 126 0x80 else 126) ∷ put_uint16 n) b0 n mask
unfolding decode_length
medium_Reads b0 n mask h rest =
    let (top, low) = second_byte mask 126 (omega arith) in
    (
      refl,
      top,
      rw low (ground (arith, uint16-put_uint16 b0 (if mask then bit_or 126 0x80 else 126) n rest)),
      omega arith,
    )

large_Reads :
    (b0 n : ℕ) (mask : Bool)
    → n ≤ max_frame_payload
    → Reads (b0 ∷ (if mask then bit_or 127 0x80 else 127) ∷ put_uint64 n) b0 n mask
unfolding decode_length
large_Reads b0 n mask h rest =
    let (top, low) = second_byte mask 127 (omega arith) in
    (
      refl,
      top,
      rw low (ground (arith, uint64-put_uint64 b0 (if mask then bit_or 127 0x80 else 127) n rest)),
      omega arith,
    )

pub header-Reads :
    (b0 n : ℕ) (mask : Bool) → n ≤ max_frame_payload → Reads (header b0 (pos n) mask) b0 n mask
header-Reads b0 n mask h = elim (dec_lt 125 n) [
  | no small ↦ rw (header_small b0 n mask (omega arith)) (small_Reads b0 n mask (omega arith))
  | yes more ↦ elim (dec_lt 0xFFFF n) [
    | no medium ↦
        rw (header_medium b0 n mask more (omega arith)) (medium_Reads b0 n mask (omega arith))
    | yes large ↦ rw (header_large b0 n mask large) (large_Reads b0 n mask h)
  ]
]
