-- ===== src/Frame/Decode/Bounds.antt =====
-- What `DecodeFrameFromBytes` returns: lengths, offsets, and the panic on a negative length.
use hioload_ws.Prelude.{
  ◌++◌, ◌+◌, ◌-◌, ◌<◌, ◌∙◌, ◌≡◌, ◌≤◌, Bool-cases, List, Option-cases, ap, arith, bit_and, drop,
  drop-take-append, false, if◌then◌else◌, inl, inr, length, length-append, length-drop, length-take,
  ltb, none, some, sym, take, ℕ,
}
use hioload_ws.Prelude.Int.{negsuc, pos, pos-add-negsuc-lt, pos-add-pos, ℤ}
use hioload_ws.Frame.{WsFrame, max_frame_payload, zero_key}
use hioload_ws.Frame.Bytes.{byte_at, slice-pos}
use hioload_ws.Frame.Decode.{
  decode_body, decode_frame, decode_frame_from_bytes, decode_length, decode_payload, decoded,
  has_top_bit, incomplete, panic,
}
use hioload_ws.Frame.Mask.{length-unmask_in_place, unmask_in_place}

-- The payload of length `n` at `offset`, unmasked.
abbrev pub payload_at : List ℕ → ℕ → ℕ → List ℕ → List ℕ
payload_at raw n offset mask_key =
    let bytes = take (offset + n - offset) (drop offset raw) in
    if has_top_bit (byte_at raw 1) then unmask_in_place bytes mask_key else bytes

abbrev pub frame_at : List ℕ → ℕ → ℕ → List ℕ → WsFrame
frame_at raw n offset mask_key = record {
  is_final = has_top_bit (byte_at raw 0);
  opcode = bit_and (byte_at raw 0) 0x0F;
  masked = has_top_bit (byte_at raw 1);
  payload_len = pos n;
  mask_key = mask_key;
  payload = payload_at raw n offset mask_key;
  buf = none;
}

pub decode_payload-pos :
    (raw : List ℕ) (n offset : ℕ) (key : List ℕ)
    → decode_payload raw (pos n) offset key ≡ (
        if ltb (length raw) (offset + n)
        then incomplete
        else decoded
            (frame_at raw n offset key)
            (offset + n)
            (take offset raw ++ (payload_at raw n offset key ++ drop (offset + n) raw)))
unfolding decode_payload decode_frame
decode_payload-pos raw n offset key =
    rw pos-add-pos (elim (Bool-cases (ltb (length raw) (offset + n))) [
      | inl e ↦ ground arith
      | inr e ↦ ground (arith, slice-pos raw offset (offset + n))
    ])

pub decode_payload-negsuc :
    (raw : List ℕ) (n offset : ℕ) (key : List ℕ)
    → offset ≤ length raw
    → decode_payload raw (negsuc n) offset key ≡ panic
unfolding decode_payload decode_frame
decode_payload-negsuc raw n offset key h = ground (arith, pos-add-negsuc-lt offset n)

pub length-payload_at :
    (raw : List ℕ) (n offset : ℕ) (key : List ℕ)
    → offset + n ≤ length raw
    → length (payload_at raw n offset key) ≡ n
length-payload_at raw n offset key h =
    let bytes : List ℕ = take (offset + n - offset) (drop offset raw) in
    let size : length bytes ≡ n =
      omega (arith, length-take (offset + n - offset) (drop offset raw), length-drop offset raw) in
    elim (Bool-cases (has_top_bit (byte_at raw 1))) [
      | inl e ↦ rw e (length-unmask_in_place bytes key ∙ size)
      | inr e ↦ rw e size
    ]

-- What a decoded frame says of the buffer that it came from.
pub record InBounds (raw : List ℕ) (f : WsFrame) (consumed : ℕ) (after : List ℕ) : Type 0 where
  pub header : 2 + length f.payload ≤ consumed
  pub header_max : consumed ≤ 14 + length f.payload
  pub inside : consumed ≤ length raw
  pub length_agrees : f.payload_len ≡ pos (length f.payload)
  pub limit : length f.payload ≤ max_frame_payload
  pub same_length : length after ≡ length raw
  pub rest_kept : drop consumed after ≡ drop consumed raw

-- What the buffer holds after the payload at `offset` was unmasked in place.
abbrev pub after_at : List ℕ → ℕ → ℕ → List ℕ → List ℕ
after_at raw n offset key =
    take offset raw ++ (payload_at raw n offset key ++ drop (offset + n) raw)

frame_at-InBounds :
    (raw : List ℕ) (n offset : ℕ) (key : List ℕ)
    → 2 ≤ offset
    → offset ≤ 14
    → n ≤ max_frame_payload
    → offset + n ≤ length raw
    → InBounds raw (frame_at raw n offset key) (offset + n) (after_at raw n offset key)
frame_at-InBounds raw n offset key lo hi small fits =
    let size = length-payload_at raw n offset key fits in
    record {
      header = omega (arith, size);
      header_max = omega (arith, size);
      inside = fits;
      length_agrees = ap pos (sym size);
      limit = omega (arith, size);
      same_length = omega (
        arith,
        size,
        length-append (take offset raw) (payload_at raw n offset key ++ drop (offset + n) raw),
        length-append (payload_at raw n offset key) (drop (offset + n) raw),
        length-take offset raw,
        length-drop (offset + n) raw,
      );
      rest_kept =
          drop-take-append offset n raw (payload_at raw n offset key) (drop (offset + n) raw)
            (omega arith) size;
    }

decode_payload-InBounds :
    (raw : List ℕ) (n offset : ℕ) (key : List ℕ) (f : WsFrame) (consumed : ℕ) (after : List ℕ)
    → 2 ≤ offset
    → offset ≤ 14
    → n ≤ max_frame_payload
    → decode_payload raw (pos n) offset key ≡ decoded f consumed after
    → InBounds raw f consumed after
decode_payload-InBounds raw n offset key f consumed after lo hi small e =
    elim (Bool-cases (ltb (length raw) (offset + n))) [
      | inl short ↦ absurd (ground (arith, decode_payload-pos raw n offset key))
      | inr enough ↦
          let same : decoded (frame_at raw n offset key) (offset + n) (after_at raw n offset key)
              ≡ decoded f consumed after =
            (rw enough at (sym (decode_payload-pos raw n offset key))) ∙ e in
          let frames : f ≡ frame_at raw n offset key = cc in
          let counts : consumed ≡ offset + n = cc in
          let buffers : after ≡ after_at raw n offset key = cc in
          rw (frames, counts, buffers)
            (frame_at-InBounds raw n offset key lo hi small (ground arith))
    ]

pub decode_length_offset :
    (raw : List ℕ) (len7 : ℕ) (len : ℤ) (offset : ℕ)
    → 2 ≤ length raw
    → decode_length raw len7 ≡ some (len, offset)
    → (2 ≤ offset) × (offset ≤ 10) × (offset ≤ length raw)
unfolding decode_length
decode_length_offset raw len7 len offset two e = ground arith

decode_body-InBounds :
    (raw : List ℕ) (len : ℤ) (offset : ℕ) (f : WsFrame) (consumed : ℕ) (after : List ℕ)
    → 2 ≤ offset
    → offset ≤ 10
    → offset ≤ length raw
    → decode_body raw len offset ≡ decoded f consumed after
    → InBounds raw f consumed after
unfolding decode_body
decode_body-InBounds raw (pos n) offset f consumed after lo hi fits e = ground (
  arith,
  decode_payload-InBounds raw n (offset + 4) (take 4 (drop offset raw)) f consumed after,
  decode_payload-InBounds raw n offset zero_key f consumed after,
)
decode_body-InBounds raw (negsuc n) offset f consumed after lo hi fits e = absurd (
    ground (
      arith,
      decode_payload-negsuc raw n (offset + 4) (take 4 (drop offset raw)),
      decode_payload-negsuc raw n offset zero_key,
    ))

-- A decoded frame has a payload of at most 1 MiB that its length field states exactly, a header of 2
-- to 14 bytes, and lies inside the buffer; the buffer keeps its length, and the bytes behind the
-- frame are left alone by the unmasking in place.
pub decode_bounds :
    (raw : List ℕ) (f : WsFrame) (consumed : ℕ) (after : List ℕ)
    → decode_frame_from_bytes raw ≡ decoded f consumed after
    → InBounds raw f consumed after
unfolding decode_frame_from_bytes
decode_bounds raw f consumed after e =
    elim (Option-cases (decode_length raw (bit_and (byte_at raw 1) 0x7F))) [
      | inl missing ↦ absurd (ground arith)
      | inr ((len, offset), found) ↦
          let (lo, hi, fits) = decode_length_offset raw _ len offset (ground arith) found in
          decode_body-InBounds raw len offset f consumed after lo hi fits (ground arith)
    ]

pub decode_payload-fits :
    (raw : List ℕ) (n offset : ℕ) (key : List ℕ)
    → offset + n ≤ length raw
    → decode_payload raw (pos n) offset key
      ≡ decoded (frame_at raw n offset key) (offset + n) (after_at raw n offset key)
decode_payload-fits raw n offset key fits =
    let enough : ltb (length raw) (offset + n) ≡ false = ground arith in
    decode_payload-pos raw n offset key ∙ rw enough

pub decode_frame_step :
    (raw : List ℕ) (len : ℤ) (offset : ℕ)
    → 2 ≤ length raw
    → decode_length raw (bit_and (byte_at raw 1) 0x7F) ≡ some (len, offset)
    → decode_frame_from_bytes raw ≡ decode_body raw len offset
unfolding decode_frame_from_bytes
decode_frame_step raw len offset two found = ground arith

pub decode_short : (raw : List ℕ) → length raw < 2 → decode_frame_from_bytes raw ≡ incomplete
unfolding decode_frame_from_bytes
decode_short raw h = ground arith
