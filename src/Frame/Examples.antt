-- ===== src/Frame/Examples.antt =====
-- Runs of the frame codec, and its theorems at concrete inputs.
use hioload_ws.Prelude.{
  ◌++◌, ◌↔◌, ◌∷◌, ◌≡◌, List, [], arith, drop, false, length, none, refl, true, ℕ,
}
use hioload_ws.Prelude.Int.{◌+ℤ◌, pos}
use hioload_ws.Frame.{WsFrame, zero_key}
use hioload_ws.Frame.Bytes.{uint64}
use hioload_ws.Frame.Decode.{
  decode_body, decode_frame, decode_frame_from_bytes, decode_length, decode_payload, decoded,
  incomplete, panic,
}
use hioload_ws.Frame.Decode.Bounds.{InBounds, decode_bounds}
use hioload_ws.Frame.Decode.Panic.{HasNegativeLength, decode_panic_iff}
use hioload_ws.Frame.Decode.Stable.{decode-append, with_more}
use hioload_ws.Frame.Encode.{
  append_payload, encode_frame_to_buffer_with_mask, encoded, first_byte, header,
}
use hioload_ws.Frame.Encode.Prefix.{decode_prefix}
use hioload_ws.Frame.Encode.RoundTrip.{IsSendable, decode-encode, received}
use hioload_ws.Frame.Stream.{decode_stream, frame_read}
use hioload_ws.Frame.Stream.RoundTrip.{decode_stream-wire}

-- "hi" as a final text frame.
abbrev pub hi : WsFrame
hi = record {
  is_final = true;
  opcode = 1;
  masked = false;
  payload_len = pos 2;
  mask_key = zero_key;
  payload = 104 ∷ 105 ∷ [];
  buf = none;
}

abbrev pub hi_bytes : List ℕ
hi_bytes = 0x81 ∷ 2 ∷ 104 ∷ 105 ∷ []

pub hi-IsSendable : IsSendable hi
hi-IsSendable = record {
  bytes = omega arith;
  limit = omega arith;
  length_agrees = refl;
  opcode_in = omega arith;
}

-- A frame header that states a length of 2 ^ 64 - 1 bytes.
abbrev negative_header : List ℕ
negative_header = 0x82 ∷ 127 ∷ 255 ∷ 255 ∷ 255 ∷ 255 ∷ 255 ∷ 255 ∷ 255 ∷ 255 ∷ []

pub hi_decodes : decode_frame_from_bytes hi_bytes ≡ decoded hi 4 hi_bytes
unfolding decode_frame_from_bytes decode_length decode_body decode_payload decode_frame ◌+ℤ◌
hi_decodes = refl

decode_bounds_example : InBounds hi_bytes hi 4 hi_bytes
decode_bounds_example = decode_bounds hi_bytes hi 4 hi_bytes hi_decodes

decode-append_example :
    decode_frame_from_bytes (hi_bytes ++ 0x81 ∷ [])
    ≡ with_more (0x81 ∷ []) (decode_frame_from_bytes hi_bytes)
decode-append_example = decode-append hi_bytes (0x81 ∷ []) (λ e. cc hi_decodes)

decode_panic_iff_example :
    (decode_frame_from_bytes negative_header ≡ panic) ↔ HasNegativeLength negative_header
decode_panic_iff_example = decode_panic_iff negative_header

negative_header_panics : decode_frame_from_bytes negative_header ≡ panic
unfolding uint64
negative_header_panics =
    (decode_panic_iff negative_header).1
      (record { extended = refl; top = omega arith; complete = omega arith })

decode-encode_example :
    (bytes : List ℕ) × (encode_frame_to_buffer_with_mask hi true [] ≡ encoded bytes)
    × ((after : List ℕ) × (decode_frame_from_bytes (bytes ++ 0x81 ∷ [])
          ≡ decoded (received hi true) (length bytes) after)
        × (drop (length bytes) after ≡ 0x81 ∷ []))
decode-encode_example = decode-encode hi true [] (0x81 ∷ []) hi-IsSendable

hi_encodes : encode_frame_to_buffer_with_mask hi false [] ≡ encoded hi_bytes
unfolding encode_frame_to_buffer_with_mask append_payload header first_byte
hi_encodes = refl

decode_prefix_example : decode_frame_from_bytes (0x81 ∷ 2 ∷ 104 ∷ []) ≡ incomplete
decode_prefix_example =
    decode_prefix hi false 105 [] (0x81 ∷ 2 ∷ 104 ∷ []) [] hi-IsSendable hi_encodes

decode_stream-wire_example :
    (bytes : List ℕ) × (encode_frame_to_buffer_with_mask hi true []
      ≡ hioload_ws.Frame.Encode.encoded bytes)
    × (decode_stream (bytes ++ (0x88 ∷ 0 ∷ [])) ≡ frame_read (received hi true) (0x88 ∷ 0 ∷ []))
decode_stream-wire_example = decode_stream-wire hi true [] (0x88 ∷ 0 ∷ []) hi-IsSendable
