-- ===== src/Frame/Decode/Panic.antt =====
-- The inputs on which `DecodeFrameFromBytes` panics or rejects the frame.
use hioload_ws.Prelude.{
  ◌+◌, ◌-◌, ◌^◌, ◌↔◌, ◌∙◌, ◌≡◌, ◌≤◌, List, Option-cases, arith, bit_and, drop, if◌then◌else◌, inl,
  inr, length, refl, some, take, ℕ,
}
use hioload_ws.Prelude.Int.{negsuc, pos, ℤ}
use hioload_ws.Frame.{zero_key}
use hioload_ws.Frame.Bytes.{byte_at, uint64}
use hioload_ws.Frame.Decode.{
  decode_body, decode_frame_from_bytes, decode_length, has_top_bit, panic,
}
use hioload_ws.Frame.Decode.Bounds.{decode_frame_step, decode_payload-negsuc, decode_payload-pos}

-- A complete header whose 64-bit length field has its top bit set.
pub record HasNegativeLength (raw : List ℕ) : Type 0 where
  pub extended : bit_and (byte_at raw 1) 0x7F ≡ 127
  pub top : 2 ^ 63 ≤ uint64 raw 2
  pub complete : (if has_top_bit (byte_at raw 1) then 14 else 10) ≤ length raw

negative_length_found :
    (raw : List ℕ) (u : ℕ)
    → uint64 raw 2 ≡ u
    → bit_and (byte_at raw 1) 0x7F ≡ 127
    → 2 ^ 63 ≤ u
    → 10 ≤ length raw
    → decode_length raw (bit_and (byte_at raw 1) 0x7F) ≡ some (negsuc (2 ^ 64 - u - 1), 10)
unfolding decode_length
negative_length_found raw u e ext top enough = rw (ext, e) (ground arith)

decode_body-negsuc :
    (raw : List ℕ) (n : ℕ)
    → (if has_top_bit (byte_at raw 1) then 14 else 10) ≤ length raw
    → decode_body raw (negsuc n) 10 ≡ panic
unfolding decode_body
decode_body-negsuc raw n h = ground (
  arith,
  decode_payload-negsuc raw n 14 (take 4 (drop 10 raw)),
  decode_payload-negsuc raw n 10 zero_key,
)

negative_length_panics :
    (raw : List ℕ) → HasNegativeLength raw → decode_frame_from_bytes raw ≡ panic
negative_length_panics raw h =
    let enough : 10 ≤ length raw = ground (arith, h.complete) in
    decode_frame_step raw _ 10 (omega arith)
      (negative_length_found raw (uint64 raw 2) refl h.extended h.top enough)
    ∙ decode_body-negsuc raw _ h.complete

decode_body_panics :
    (raw : List ℕ) (len : ℤ) (offset : ℕ)
    → decode_body raw len offset ≡ panic
    → (n : ℕ) × (len ≡ negsuc n)
      × ((if has_top_bit (byte_at raw 1) then offset + 4 else 0) ≤ length raw)
unfolding decode_body
decode_body_panics raw (pos n) offset e = absurd (
    ground (
      arith,
      decode_payload-pos raw n (offset + 4) (take 4 (drop offset raw)),
      decode_payload-pos raw n offset zero_key,
    ))
decode_body_panics raw (negsuc n) offset e = (n, refl, ground arith)

negsuc_found :
    (raw : List ℕ) (len7 n offset : ℕ)
    → decode_length raw len7 ≡ some (negsuc n, offset)
    → (len7 ≡ 127) × (2 ^ 63 ≤ uint64 raw 2) × (10 ≤ length raw) × (offset ≡ 10)
unfolding decode_length
negsuc_found raw len7 n offset e = ground arith

panics_negative_length :
    (raw : List ℕ) → decode_frame_from_bytes raw ≡ panic → HasNegativeLength raw
unfolding decode_frame_from_bytes
panics_negative_length raw e =
    elim (Option-cases (decode_length raw (bit_and (byte_at raw 1) 0x7F))) [
      | inl missing ↦ absurd (ground arith)
      | inr ((len, offset), found) ↦
          let (n, negative, key) = decode_body_panics raw len offset (ground arith) in
          let (ext, top, enough, at) =
            negsuc_found raw (bit_and (byte_at raw 1) 0x7F) n offset (cc) in
          record { extended = ext; top = top; complete = ground (arith, key, at, enough) }
    ]

-- The decoder panics exactly on the buffers with a complete header whose 64-bit length has its top
-- bit set, since the length is then negative as an int64 and passes the size check.
pub decode_panic_iff :
    (raw : List ℕ) → (decode_frame_from_bytes raw ≡ panic) ↔ HasNegativeLength raw
decode_panic_iff raw = (panics_negative_length raw, negative_length_panics raw)
