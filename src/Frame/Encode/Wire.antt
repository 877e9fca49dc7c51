-- ===== src/Frame/Encode/Wire.antt =====
-- `DecodeFrameFromBytes` on a header, a key if there is one, payload bytes, and what follows.
use hioload_ws.Prelude.{
  ◌++◌, ◌+◌, ◌-◌, ◌∙◌, ◌≡◌, ◌≤◌, Bool, List, ap, append_assoc, ap₂, arith, bit_and, drop,
  drop-length-append, drop_add, false, if◌then◌else◌, length, length-append, none, refl, some,
  subst, sym, take, take-length-append, true, ℕ,
}
use hioload_ws.Prelude.Int.{pos}
use hioload_ws.Frame.{WsFrame, max_frame_payload, zero_key}
use hioload_ws.Frame.Bytes.{byte_at}
use hioload_ws.Frame.Decode.{
  decode_body, decode_frame_from_bytes, decode_length, decode_payload, decoded, has_top_bit,
}
use hioload_ws.Frame.Decode.Bounds.{
  after_at, decode_frame_step, decode_payload-fits, frame_at, payload_at,
}
use hioload_ws.Frame.Encode.{example_mask_key}
use hioload_ws.Frame.Encode.Header.{Reads}
use hioload_ws.Frame.Mask.{length-unmask_in_place, unmask_in_place}

-- The frame that a first byte, a mask bit, a key and a payload make.
abbrev pub frame_of : ℕ → Bool → List ℕ → List ℕ → WsFrame
frame_of b0 mask key payload = record {
  is_final = has_top_bit b0;
  opcode = bit_and b0 0x0F;
  masked = mask;
  payload_len = pos (length payload);
  mask_key = key;
  payload = payload;
  buf = none;
}

abbrev pub unmasked : Bool → List ℕ → List ℕ → List ℕ
unmasked mask bytes key = if mask then unmask_in_place bytes key else bytes

pub length-unmasked :
    (mask : Bool) (bytes key : List ℕ) → length (unmasked mask bytes key) ≡ length bytes
length-unmasked true bytes key = length-unmask_in_place bytes key
length-unmasked false bytes key = refl

module _ (front bytes rest key : List ℕ) where
  between :
      take
        (length front + length bytes - length front)
        (drop (length front) (front ++ (bytes ++ rest)))
      ≡ bytes
  between =
      let count : length front + length bytes - length front ≡ length bytes = omega arith in
      rw (count, drop-length-append front (bytes ++ rest)) (take-length-append bytes rest)

  behind : drop (length front + length bytes) (front ++ (bytes ++ rest)) ≡ rest
  behind =
      sym (drop_add (length bytes) (length front) (front ++ (bytes ++ rest)))
      ∙ ap (drop (length bytes)) (drop-length-append front (bytes ++ rest))
      ∙ drop-length-append bytes rest

  -- The payload bytes stand between `front` and `rest`.
  decode_payload-append_front :
      (b0 : ℕ) (mask : Bool)
      → byte_at (front ++ (bytes ++ rest)) 0 ≡ b0
      → has_top_bit (byte_at (front ++ (bytes ++ rest)) 1) ≡ mask
      → let payload = unmasked mask bytes key in
        decode_payload (front ++ (bytes ++ rest)) (pos (length bytes)) (length front) key
        ≡ decoded
            (frame_of b0 mask key payload)
            (length front + length bytes)
            (front ++ (payload ++ rest))
  decode_payload-append_front b0 mask first second =
      let raw : List ℕ = front ++ (bytes ++ rest) in
      let fits : length front + length bytes ≤ length raw =
        omega (arith, length-append front (bytes ++ rest), length-append bytes rest) in
      let payload : payload_at raw (length bytes) (length front) key ≡ unmasked mask bytes key =
        ap₂ (λ m bs. unmasked m bs key) second between in
      let size = length-unmasked mask bytes key in
      let frames : frame_at raw (length bytes) (length front) key
          ≡ frame_of b0 mask key (unmasked mask bytes key) =
        ground (arith, payload, size, first, second) in
      let afters : after_at raw (length bytes) (length front) key
          ≡ front ++ (unmasked mask bytes key ++ rest) =
        ap₂ ◌++◌ (take-length-append front (bytes ++ rest)) (ap₂ ◌++◌ payload behind) in
      decode_payload-fits raw (length bytes) (length front) key fits
      ∙ ap₂ (λ f after. decoded f (length front + length bytes) after) frames afters

body_with_key :
    (raw : List ℕ) (n offset : ℕ)
    → n ≤ max_frame_payload
    → has_top_bit (byte_at raw 1) ≡ true
    → offset + 4 ≤ length raw
    → decode_body raw (pos n) offset
      ≡ decode_payload raw (pos n) (offset + 4) (take 4 (drop offset raw))
unfolding decode_body
body_with_key raw n offset small top fits = ground arith

module _ (b0 : ℕ) (hdr bytes rest : List ℕ) (small : length bytes ≤ max_frame_payload) where
  pub decode_unmasked :
      Reads hdr b0 (length bytes) false
      → decode_frame_from_bytes (hdr ++ (bytes ++ rest))
        ≡ decoded
            (frame_of b0 false zero_key bytes)
            (length hdr + length bytes)
            (hdr ++ (bytes ++ rest))
  unfolding decode_body
  decode_unmasked reads =
      let (first, second, size, two) = reads (bytes ++ rest) in
      decode_frame_step (hdr ++ (bytes ++ rest)) (pos (length bytes)) (length hdr)
        (omega (arith, length-append hdr (bytes ++ rest))) size
      ∙ ground (arith, decode_payload-append_front hdr bytes rest zero_key b0 false first second)

  pub decode_masked :
      Reads hdr b0 (length bytes) true
      → let payload = unmask_in_place bytes example_mask_key in
        decode_frame_from_bytes ((hdr ++ example_mask_key) ++ (bytes ++ rest))
        ≡ decoded
            (frame_of b0 true example_mask_key payload)
            (length (hdr ++ example_mask_key) + length bytes)
            ((hdr ++ example_mask_key) ++ (payload ++ rest))
  unfolding decode_body
  decode_masked reads =
      let (first, second, size, two) = reads (example_mask_key ++ (bytes ++ rest)) in
      let front : List ℕ = hdr ++ example_mask_key in
      let regroup : front ++ (bytes ++ rest) ≡ hdr ++ (example_mask_key ++ (bytes ++ rest)) =
        append_assoc hdr example_mask_key (bytes ++ rest) in
      let raw : List ℕ = front ++ (bytes ++ rest) in
      let first' : byte_at raw 0 ≡ b0 = subst (λ r. byte_at r 0 ≡ b0) (sym regroup) first in
      let second' : has_top_bit (byte_at raw 1) ≡ true =
        subst (λ r. has_top_bit (byte_at r 1) ≡ true) (sym regroup) second in
      let size' : decode_length raw (bit_and (byte_at raw 1) 0x7F)
          ≡ some (pos (length bytes), length hdr) =
        subst
          (λ r.
            decode_length r (bit_and (byte_at r 1) 0x7F) ≡ some (pos (length bytes), length hdr))
          (sym regroup) size in
      let key : take 4 (drop (length hdr) raw) ≡ example_mask_key =
        ap (λ r. take 4 (drop (length hdr) r)) regroup
        ∙ ap (take 4) (drop-length-append hdr (example_mask_key ++ (bytes ++ rest))) in
      let counts = length-append front (bytes ++ rest) in
      let offset : length hdr + 4 ≡ length front =
        omega (arith, length-append hdr example_mask_key) in
      decode_frame_step raw (pos (length bytes)) (length hdr) (omega (arith, counts)) size'
      ∙ body_with_key raw (length bytes) (length hdr) small second' (omega (arith, counts))
      ∙ ap₂ (decode_payload raw (pos (length bytes))) offset key
      ∙ decode_payload-append_front front bytes rest example_mask_key b0 true first' second'
