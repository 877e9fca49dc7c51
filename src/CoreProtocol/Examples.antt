-- ===== src/CoreProtocol/Examples.antt =====
-- A frame through the second codec.
use hioload_ws.Prelude.{◌++◌, ◌∷◌, ◌≡◌, List, [], arith, false, none, refl, some, true, ℕ}
use hioload_ws.Prelude.Int.{pos}
use hioload_ws.Api.Buffer.{BufferPool, IsRoomy}
use hioload_ws.CoreProtocol.{core_decode, core_encode, decoded, encoded}
use hioload_ws.CoreProtocol.Agrees.{core_decode-forget, forget}
use hioload_ws.CoreProtocol.Encodes.{core_decode-core_encode, final_frame}
use hioload_ws.Frame.{WsFrame, zero_key}
use hioload_ws.Frame.Decode.{decode_frame_from_bytes}
use hioload_ws.Frame.Encode.{encode_frame_to_buffer_with_mask}
use hioload_ws.Frame.Encode.RoundTrip.{IsSendable, received}

-- The start of a fragmented message, which a client is to mask.
abbrev fragment : WsFrame
fragment = record {
  is_final = false;
  opcode = 1;
  masked = true;
  payload_len = pos 2;
  mask_key = zero_key;
  payload = b'h' ∷ b'i' ∷ [];
  buf = none;
}

fragment-IsSendable : IsSendable fragment
fragment-IsSendable = record {
  bytes = (omega arith, (omega arith, tt));
  limit = omega arith;
  length_agrees = refl;
  opcode_in = omega arith;
}

core_decode-forget_example :
    core_decode (0x81 ∷ 0x82 ∷ 1 ∷ 2 ∷ 3 ∷ 4 ∷ 9 ∷ 9 ∷ [])
    ≡ forget (decode_frame_from_bytes (0x81 ∷ 0x82 ∷ 1 ∷ 2 ∷ 3 ∷ 4 ∷ 9 ∷ 9 ∷ []))
core_decode-forget_example = core_decode-forget (0x81 ∷ 0x82 ∷ 1 ∷ 2 ∷ 3 ∷ 4 ∷ 9 ∷ 9 ∷ [])

core_decode-core_encode_example :
    (bytes : List ℕ) × (core_encode fragment ≡ encoded bytes)
    × (encode_frame_to_buffer_with_mask (final_frame fragment) false []
        ≡ hioload_ws.Frame.Encode.encoded bytes)
    × (core_decode (bytes ++ (7 ∷ [])) ≡ decoded (received (final_frame fragment) false))
core_decode-core_encode_example = core_decode-core_encode fragment (7 ∷ []) [] fragment-IsSendable

-- A pool of buffers of eight bytes.
abbrev eights : BufferPool
eights = record {
  State = Unit;
  get = λ n s. (
    record {
      bytes = some (1 ∷ 2 ∷ 3 ∷ 4 ∷ 5 ∷ 6 ∷ 7 ∷ 8 ∷ []);
      numa = pos 0;
      pool = true;
      class_size = pos 8;
    },
    s,
  );
}

eights-IsRoomy : IsRoomy eights 8
eights-IsRoomy = record { room = λ n s h. (1 ∷ 2 ∷ 3 ∷ 4 ∷ 5 ∷ 6 ∷ 7 ∷ 8 ∷ [], refl, h) }
