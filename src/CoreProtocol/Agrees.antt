-- ===== src/CoreProtocol/Agrees.antt =====
-- The two decoders.
use hioload_ws.Prelude.{
  ◌+◌, ◌∙◌, ◌≡◌, ◌≤◌, Bool, Bool-cases, List, Option, ap₂, arith, bit_and, drop, false,
  if◌then◌else◌, inl, inr, length, length-drop, ltb, none, refl, some, take, true, ℕ,
}
use hioload_ws.Prelude.Int.{◌+ℤ◌, ltb_ℤ, negsuc, pos, ℤ}
use hioload_ws.CoreProtocol.{
  CoreDecoded, copy_body, copy_frame, copy_payload, core_decode, too_short, with_length,
}
use hioload_ws.Frame.{max_frame_payload, zero_key}
use hioload_ws.Frame.Bytes.{byte_at, slice}
use hioload_ws.Frame.Decode.{
  Decoded, decode_body, decode_frame, decode_frame_from_bytes, decode_length, decode_payload,
  has_top_bit, incomplete,
}
use hioload_ws.Frame.Decode.Bounds.{decode_length_offset}
use hioload_ws.Frame.Mask.{unmask_in_place}

-- An answer of the first decoder without the count of the bytes and what it leaves in the buffer.
abbrev pub forget : Decoded → CoreDecoded
forget hioload_ws.Frame.Decode.incomplete = too_short
forget hioload_ws.Frame.Decode.too_large = hioload_ws.CoreProtocol.CoreDecoded.too_large
forget hioload_ws.Frame.Decode.panic = hioload_ws.CoreProtocol.CoreDecoded.panic
forget (hioload_ws.Frame.Decode.decoded f consumed after) = hioload_ws.CoreProtocol.decoded f

forget-if :
    (b : Bool) (x y : Decoded) → (if b then forget x else forget y) ≡ forget (if b then x else y)
forget-if true x y = refl
forget-if false x y = refl

room_lem :
    (raw : List ℕ) (len : ℤ) (offset : ℕ)
    → offset ≤ length raw
    → ltb_ℤ (pos (length (drop offset raw))) len ≡ ltb_ℤ (pos (length raw)) (pos offset +ℤ len)
unfolding ◌+ℤ◌
room_lem raw (pos n) offset h = ground (arith, length-drop offset raw)
room_lem raw (negsuc n) offset h = ground (arith, length-drop offset raw)

copy_frame-Agrees :
    (raw : List ℕ) (len total : ℤ) (offset : ℕ) (mask_key : List ℕ) (o : Option (List ℕ))
    → copy_frame raw len mask_key o ≡ forget (decode_frame raw len offset total mask_key o)
unfolding decode_frame unmask_in_place
copy_frame-Agrees raw len total offset mask_key none = refl
copy_frame-Agrees raw len total offset mask_key (some payload_data) = refl

copy_payload-Agrees :
    (raw : List ℕ) (len : ℤ) (offset : ℕ) (mask_key : List ℕ)
    → offset ≤ length raw
    → copy_payload raw len offset mask_key ≡ forget (decode_payload raw len offset mask_key)
unfolding copy_payload decode_payload
copy_payload-Agrees raw len offset mask_key h =
    let total = pos offset +ℤ len in
    ap₂ (λ b d. if b then too_short else d) (room_lem raw len offset h)
      (copy_frame-Agrees raw len total offset mask_key (slice raw offset total))
    ∙ forget-if (ltb_ℤ (pos (length raw)) total) incomplete
        (decode_frame raw len offset total mask_key (slice raw offset total))

copy_body-Agrees :
    (raw : List ℕ) (len : ℤ) (offset : ℕ)
    → offset ≤ length raw
    → copy_body raw len offset ≡ forget (decode_body raw len offset)
unfolding copy_body decode_body
copy_body-Agrees raw len offset h = elim (Bool-cases (ltb_ℤ (pos max_frame_payload) len)) [
  | inl big ↦ rw big refl
  | inr fits ↦ elim (Bool-cases (has_top_bit (byte_at raw 1))) [
    | inr plain ↦ rw (fits, plain) (copy_payload-Agrees raw len offset zero_key h)
    | inl masked ↦ elim (Bool-cases (ltb (length raw) (offset + 4))) [
      | inl short ↦ rw (fits, masked, short) refl
      | inr enough ↦
          rw (fits, masked, enough)
            (copy_payload-Agrees raw len (offset + 4) (take 4 (drop offset raw))
              (ground (arith, enough)))
    ]
  ]
]

with_length-Agrees :
    (raw : List ℕ) (o : Option (ℤ × ℕ)) (len7 : ℕ)
    → 2 ≤ length raw
    → decode_length raw len7 ≡ o
    → with_length raw o
      ≡ forget (elim o [ none ↦ incomplete | some (len, offset) ↦ decode_body raw len offset ])
with_length-Agrees raw none len7 h e = refl
with_length-Agrees raw (some (len, offset)) len7 h e =
    copy_body-Agrees raw len offset (decode_length_offset raw len7 len offset h e).2

-- On all byte strings the two decoders agree: the second one refuses as too short what the first one
-- takes for incomplete, refuses the same lengths, panics on the same frames, and otherwise gives the
-- same frame.
pub core_decode-forget : (raw : List ℕ) → core_decode raw ≡ forget (decode_frame_from_bytes raw)
unfolding core_decode decode_frame_from_bytes
core_decode-forget raw = elim (Bool-cases (ltb (length raw) 2)) [
  | inl short ↦ rw short refl
  | inr enough ↦
      rw enough
        (with_length-Agrees raw _ (bit_and (byte_at raw 1) 0x7F) (ground (arith, enough)) refl)
]
