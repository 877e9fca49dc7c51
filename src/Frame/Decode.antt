-- ===== src/Frame/Decode.antt =====
-- `DecodeFrameFromBytes` of protocol/frame_codec.go.
pub mod Bounds
pub mod Stable
pub mod Panic
use mathlib.Core.Path.{refl}
use hioload_ws.Prelude.{
  ◌++◌, ◌+◌, ◌<◌, ◌==◌, ◌∷◌, ◌≡◌, Bool, List, Option, [], arith, bit_and, drop, false,
  if◌then◌else◌, length, ltb, none, not, some, take, true, ℕ,
}
use hioload_ws.Prelude.Int.{◌+ℤ◌, ltb_ℤ, pos, pos_part, ℤ}
use hioload_ws.Frame.{WsFrame, max_frame_payload, zero_key}
use hioload_ws.Frame.Bytes.{byte_at, int64, slice, uint16, uint64}
use hioload_ws.Frame.Mask.{unmask_in_place}

-- The results of the Go function: `(nil, 0, nil)`, the size error, and a frame with the number of
-- bytes consumed. `decoded` also holds what `raw` is afterwards, since the payload is unmasked where
-- it lies. `panic` is a run-time panic on slice bounds.
pub data Decoded : Type 0 where
  incomplete : Decoded
  too_large : Decoded
  decoded : WsFrame → ℕ → List ℕ → Decoded
  panic : Decoded

-- For a split on a computed answer that keeps the equation.
pub data Answer (d : Decoded) : Type 0 where
  waits : d ≡ incomplete → Answer d
  rejects : d ≡ too_large → Answer d
  crashes : d ≡ panic → Answer d
  finds : (f : WsFrame) (consumed : ℕ) (after : List ℕ) → d ≡ decoded f consumed after → Answer d

pub answer : (d : Decoded) → Answer d
answer incomplete = waits refl
answer too_large = rejects refl
answer panic = crashes refl
answer (decoded f consumed after) = finds f consumed after refl

-- `raw[0]&0x80 != 0` and `raw[1]&0x80 != 0`
abbrev pub has_top_bit : ℕ → Bool
has_top_bit b = not (bit_and b 0x80 == 0)

-- The switch on the seven-bit length: the length as an int64, and the offset behind it. `none` is
-- the return of an incomplete frame.
unfoldable pub decode_length : List ℕ → ℕ → Option (ℤ × ℕ)
decode_length raw len7 =
    if len7 == 126
    then (if ltb (length raw) (2 + 2) then none else some (pos (uint16 raw 2), 2 + 2))
    else if len7 == 127
    then (if ltb (length raw) (2 + 8) then none else some (int64 (uint64 raw 2), 2 + 8))
    else some (pos len7, 2)

-- The frame over the payload bytes that the slice expression gives.
unfoldable pub decode_frame : List ℕ → ℤ → ℕ → ℤ → List ℕ → Option (List ℕ) → Decoded
decode_frame raw len offset total mask_key none = panic
decode_frame raw len offset total mask_key (some payload_data) =
    let masked = has_top_bit (byte_at raw 1) in
    let payload = if masked then unmask_in_place payload_data mask_key else payload_data in
    decoded
      (record {
        is_final = has_top_bit (byte_at raw 0);
        opcode = bit_and (byte_at raw 0) 0x0F;
        masked = masked;
        payload_len = len;
        mask_key = mask_key;
        payload = payload;
        buf = none;
      })
      (pos_part total) (take offset raw ++ (payload ++ drop (pos_part total) raw))

-- From `totalLen := offset + int(length)` on.
unfoldable pub decode_payload : List ℕ → ℤ → ℕ → List ℕ → Decoded
decode_payload raw len offset mask_key =
    let total = pos offset +ℤ len in
    if ltb_ℤ (pos (length raw)) total
    then incomplete
    else decode_frame raw len offset total mask_key (slice raw offset total)

-- From the size check on.
unfoldable pub decode_body : List ℕ → ℤ → ℕ → Decoded
decode_body raw len offset =
    if ltb_ℤ (pos max_frame_payload) len
    then too_large
    else if has_top_bit (byte_at raw 1)
    then (if ltb (length raw) (offset + 4)
        then incomplete
        else decode_payload raw len (offset + 4) (take 4 (drop offset raw)))
    else decode_payload raw len offset zero_key

unfoldable pub decode_frame_from_bytes : List ℕ → Decoded
decode_frame_from_bytes raw =
    if ltb (length raw) 2
    then incomplete
    else elim (decode_length raw (bit_and (byte_at raw 1) 0x7F)) [
      | none ↦ incomplete
      | some (len, offset) ↦ decode_body raw len offset
    ]
