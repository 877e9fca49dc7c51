-- ===== src/CoreProtocol.antt =====
-- The second codec, core/protocol/frame_codec.go: an incomplete frame is an error, the payload is
-- copied, and frames are encoded final and unmasked.
pub mod Agrees
pub mod Encodes
pub mod Connection
mod Examples
use hioload_ws.Prelude.{
  ◌++◌, ◌+◌, ◌∷◌, Bool, List, Option, [], bit_and, bit_or, drop, false, if◌then◌else◌, length, ltb,
  none, refl, some, suc, take, true, zero, ℕ,
}
use hioload_ws.Prelude.Int.{◌+ℤ◌, ltb_ℤ, negsuc, pos, ℤ}
use hioload_ws.Api.Buffer.{copy}
use hioload_ws.Frame.{WsFrame, max_frame_payload, zero_key}
use hioload_ws.Frame.Bytes.{byte_at, slice}
use hioload_ws.Frame.Decode.{decode_length, has_top_bit}
use hioload_ws.Frame.Encode.{header}
use hioload_ws.Frame.Mask.{mask_from}

-- The results of `DecodeFrameFromBytes`: "frame too short" and its like, the size error, a frame, and
-- a run-time panic.
pub data CoreDecoded : Type 0 where
  too_short too_large panic : CoreDecoded
  decoded : WsFrame → CoreDecoded

-- The frame, with a copy of the payload bytes that the slice expression gives.
abbrev pub copy_frame : List ℕ → ℤ → List ℕ → Option (List ℕ) → CoreDecoded
copy_frame raw len mask_key none = panic
copy_frame raw len mask_key (some payload_data) =
    let masked = has_top_bit (byte_at raw 1) in
    decoded (record {
      is_final = has_top_bit (byte_at raw 0);
      opcode = bit_and (byte_at raw 0) 0x0F;
      masked = masked;
      payload_len = len;
      mask_key = mask_key;
      payload = if masked then mask_from mask_key 0 payload_data else payload_data;
      buf = none;
    })

-- From the check of the length that is left on.
unfoldable pub copy_payload : List ℕ → ℤ → ℕ → List ℕ → CoreDecoded
copy_payload raw len offset mask_key =
    if ltb_ℤ (pos (length (drop offset raw))) len
    then too_short
    else copy_frame raw len mask_key (slice raw offset (pos offset +ℤ len))

-- From the size check on.
unfoldable pub copy_body : List ℕ → ℤ → ℕ → CoreDecoded
copy_body raw len offset =
    if ltb_ℤ (pos max_frame_payload) len
    then too_large
    else if has_top_bit (byte_at raw 1)
    then (if ltb (length raw) (offset + 4)
        then too_short
        else copy_payload raw len (offset + 4) (take 4 (drop offset raw)))
    else copy_payload raw len offset zero_key

abbrev pub with_length : List ℕ → Option (ℤ × ℕ) → CoreDecoded
with_length raw none = too_short
with_length raw (some (len, offset)) = copy_body raw len offset

-- The switch on the seven-bit length is that of the first codec.
unfoldable pub core_decode : List ℕ → CoreDecoded
core_decode raw =
    if ltb (length raw) 2
    then too_short
    else with_length raw (decode_length raw (bit_and (byte_at raw 1) 0x7F))

pub data CoreEncoded : Type 0 where
  too_large panic : CoreEncoded
  encoded : List ℕ → CoreEncoded

abbrev pub zeros : ℕ → List ℕ
zeros zero = []
zeros (suc n) = 0 ∷ zeros n

-- The buffer of the header and `plen` bytes; a negative length ends before the header does.
abbrev pub fill_frame : List ℕ → ℤ → List ℕ → CoreEncoded
fill_frame hdr (negsuc n) payload = panic
fill_frame hdr (pos n) payload = encoded (hdr ++ copy (zeros n) payload)

-- `EncodeFrameToBytes`
unfoldable pub core_encode : WsFrame → CoreEncoded
core_encode f =
    if ltb_ℤ (pos max_frame_payload) f.payload_len
    then too_large
    else fill_frame (header (bit_or 0x80 (bit_and f.opcode 0x0F)) f.payload_len false) f.payload_len
        f.payload
