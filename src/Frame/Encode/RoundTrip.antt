-- ===== src/Frame/Encode/RoundTrip.antt =====
-- `EncodeFrameToBufferWithMask` against `DecodeFrameFromBytes`.
use hioload_ws.Prelude.{
  ◌++◌, ◌+◌, ◌<◌, ◌∙◌, ◌≡◌, ◌≤◌, All, Bool, List, ap, append_assoc, ap₂, arith, drop,
  drop-length-append, false, if◌then◌else◌, length, length-append, none, refl, subst, sym, true, ℕ,
}
use hioload_ws.Prelude.Int.{pos}
use hioload_ws.Frame.{IsByte, WsFrame, max_frame_payload, zero_key}
use hioload_ws.Frame.Decode.{decode_frame_from_bytes, decoded}
use hioload_ws.Frame.Encode.{
  append_payload, encode_frame_to_buffer_with_mask, encoded, example_mask_key, first_byte, header,
}
use hioload_ws.Frame.Encode.Header.{Reads, first_byte_fields, header-Reads}
use hioload_ws.Frame.Encode.Wire.{decode_masked, decode_unmasked, frame_of}
use hioload_ws.Frame.Mask.{
  length-mask_from, mask_first_all, mask_from, unmask_in_place, unmask_in_place-mask_from,
}

-- A frame that the size limit admits, with its length field and its opcode in order.
pub record IsSendable (f : WsFrame) : Type 0 where
  pub bytes : All IsByte f.payload
  pub limit : length f.payload ≤ max_frame_payload
  pub length_agrees : f.payload_len ≡ pos (length f.payload)
  pub opcode_in : f.opcode < 16

-- What a receiver of the encoded frame has: the masking is undone, and the key is known.
abbrev pub received : WsFrame → Bool → WsFrame
received f mask = record f {
  masked = mask;
  mask_key = if mask then example_mask_key else zero_key;
  buf = none;
}

-- The wire form: header, key if there is one, and the payload, masked if there is a key.
abbrev pub wire : WsFrame → Bool → List ℕ
wire f mask =
    let hdr = header (first_byte f) f.payload_len mask in
    if mask
    then (hdr ++ example_mask_key) ++ mask_from example_mask_key 0 f.payload
    else hdr ++ f.payload

pub encode_lem :
    (f : WsFrame) (mask : Bool) (dst : List ℕ)
    → IsSendable f
    → encode_frame_to_buffer_with_mask f mask dst ≡ encoded (wire f mask)
unfolding encode_frame_to_buffer_with_mask append_payload
encode_lem f mask dst s =
    ground (arith, mask_first_all f.payload_len example_mask_key f.payload s.length_agrees)

-- The header in front of `n` bytes of payload.
hdr_Reads :
    (f : WsFrame) (mask : Bool) (n : ℕ)
    → IsSendable f
    → n ≡ length f.payload
    → Reads (header (first_byte f) f.payload_len mask) (first_byte f) n mask
hdr_Reads f mask n s e =
    let plen : pos n ≡ f.payload_len = ap pos e ∙ sym s.length_agrees in
    subst (λ l. Reads (header (first_byte f) l mask) (first_byte f) n mask) plen
      (header-Reads (first_byte f) n mask (omega (arith, s.limit)))

frame_of-received :
    (f : WsFrame) (mask : Bool)
    → IsSendable f
    → frame_of (first_byte f) mask (if mask then example_mask_key else zero_key) f.payload
      ≡ received f mask
frame_of-received f mask s = ground (arith, first_byte_fields f s.opcode_in, s.length_agrees)

decode_wire_plain :
    (f : WsFrame) (rest : List ℕ)
    → IsSendable f
    → decode_frame_from_bytes (wire f false ++ rest)
      ≡ decoded (received f false) (length (wire f false)) (wire f false ++ rest)
decode_wire_plain f rest s =
    let hdr : List ℕ = header (first_byte f) f.payload_len false in
    rw (append_assoc hdr f.payload rest, length-append hdr f.payload)
      (decode_unmasked (first_byte f) hdr f.payload rest s.limit
          (hdr_Reads f false (length f.payload) s refl)
        ∙ ap (λ g. decoded g (length hdr + length f.payload) (hdr ++ (f.payload ++ rest)))
            (frame_of-received f false s))

decode_wire_masked :
    (f : WsFrame) (rest : List ℕ)
    → IsSendable f
    → decode_frame_from_bytes (wire f true ++ rest)
      ≡ decoded
          (received f true)
          (length (wire f true))
          ((header (first_byte f) f.payload_len true ++ example_mask_key) ++ (f.payload ++ rest))
decode_wire_masked f rest s =
    let front : List ℕ = header (first_byte f) f.payload_len true ++ example_mask_key in
    let masked : List ℕ = mask_from example_mask_key 0 f.payload in
    let size : length masked ≡ length f.payload = length-mask_from example_mask_key 0 f.payload in
    let undone : unmask_in_place masked example_mask_key ≡ f.payload =
      unmask_in_place-mask_from example_mask_key f.payload (omega arith) s.bytes in
    rw (append_assoc front masked rest, length-append front masked)
      (decode_masked (first_byte f) (header (first_byte f) f.payload_len true) masked rest
          (omega (arith, s.limit)) (hdr_Reads f true (length masked) s size)
        ∙ ap
            (λ p.
              decoded (frame_of (first_byte f) true example_mask_key p)
                (length front + length masked) (front ++ (p ++ rest)))
            undone
        ∙ ap (λ g. decoded g (length front + length masked) (front ++ (f.payload ++ rest)))
            (frame_of-received f true s))

pub decode_wire :
    (f : WsFrame) (mask : Bool) (rest : List ℕ)
    → IsSendable f
    → (after : List ℕ) × (decode_frame_from_bytes (wire f mask ++ rest)
        ≡ decoded (received f mask) (length (wire f mask)) after)
      × (drop (length (wire f mask)) after ≡ rest)
decode_wire f false rest s =
    (wire f false ++ rest, decode_wire_plain f rest s, drop-length-append (wire f false) rest)
decode_wire f true rest s =
    let front : List ℕ = header (first_byte f) f.payload_len true ++ example_mask_key in
    let masked : List ℕ = mask_from example_mask_key 0 f.payload in
    let sizes : length (wire f true) ≡ length (front ++ f.payload) = omega (
      arith,
      length-append front masked,
      length-append front f.payload,
      length-mask_from example_mask_key 0 f.payload,
    ) in
    (
      front ++ (f.payload ++ rest),
      decode_wire_masked f rest s,
      ap₂ drop sizes (sym (append_assoc front f.payload rest))
          ∙ drop-length-append (front ++ f.payload) rest,
    )

-- Every sendable frame is encoded, and whatever bytes follow it on the stream, the decoder gives the
-- frame back with its FIN bit, opcode and payload, consumes exactly the encoded bytes, and leaves the
-- following bytes in the buffer as they were.
pub decode-encode :
    (f : WsFrame) (mask : Bool) (dst rest : List ℕ)
    → IsSendable f
    → (bytes : List ℕ) × (encode_frame_to_buffer_with_mask f mask dst ≡ encoded bytes)
      × ((after : List ℕ) × (decode_frame_from_bytes (bytes ++ rest)
            ≡ decoded (received f mask) (length bytes) after)
          × (drop (length bytes) after ≡ rest))
decode-encode f mask dst rest s = (wire f mask, encode_lem f mask dst s, decode_wire f mask rest s)
