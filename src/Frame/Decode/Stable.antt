-- ===== src/Frame/Decode/Stable.antt =====
-- `DecodeFrameFromBytes` on a buffer that grows: what it answers for a whole frame does not depend on
-- the bytes behind it.
use hioload_ws.Prelude.{
  ◌++◌, ◌+◌, ◌-◌, ◌∙◌, ◌≡◌, ◌≢◌, ◌≤◌, Bool-cases, List, Option-cases, ap, append_assoc, ap₂, arith,
  bit_and, drop, drop-append, get_or-append, inl, inr, length, length-append, length-drop, ltb,
  none, some, sym, take, take-append, ℕ,
}
use hioload_ws.Prelude.Int.{negsuc, pos, ℤ}
use hioload_ws.Frame.{zero_key}
use hioload_ws.Frame.Bytes.{byte_at, uint16-append, uint64-append}
use hioload_ws.Frame.Decode.{
  Decoded, decode_body, decode_frame_from_bytes, decode_length, decode_payload, decoded, incomplete,
  panic, too_large,
}
use hioload_ws.Frame.Decode.Bounds.{
  after_at, decode_frame_step, decode_length_offset, decode_payload-fits, decode_payload-negsuc,
  decode_payload-pos, frame_at, payload_at,
}

-- The same answer, for a buffer with more bytes behind it.
abbrev pub with_more : List ℕ → Decoded → Decoded
with_more more incomplete = incomplete
with_more more too_large = too_large
with_more more (decoded f consumed after) = decoded f consumed (after ++ more)
with_more more panic = panic

-- All that `decode_payload` reads of a buffer that holds the whole frame.
payload_at-append :
    (raw more : List ℕ) (n offset : ℕ) (key : List ℕ)
    → 2 ≤ offset
    → offset + n ≤ length raw
    → payload_at (raw ++ more) n offset key ≡ payload_at raw n offset key
payload_at-append raw more n offset key lo fits = rw (
  get_or-append raw more 1 0 (omega arith),
  drop-append offset raw more (omega arith),
  take-append (offset + n - offset) (drop offset raw) more (omega (arith, length-drop offset raw)),
)

after_at-append :
    (raw more : List ℕ) (n offset : ℕ) (key : List ℕ)
    → 2 ≤ offset
    → offset + n ≤ length raw
    → after_at (raw ++ more) n offset key ≡ after_at raw n offset key ++ more
after_at-append raw more n offset key lo fits =
    ap₂ ◌++◌ (take-append offset raw more (omega arith)) (
      ap₂ ◌++◌ (payload_at-append raw more n offset key lo fits)
        (drop-append (offset + n) raw more fits)
      ∙ sym (append_assoc (payload_at raw n offset key) (drop (offset + n) raw) more))
    ∙ sym
        (append_assoc (take offset raw) (payload_at raw n offset key ++ drop (offset + n) raw) more)

frame_at-append :
    (raw more : List ℕ) (n offset : ℕ) (key : List ℕ)
    → 2 ≤ offset
    → offset + n ≤ length raw
    → frame_at (raw ++ more) n offset key ≡ frame_at raw n offset key
frame_at-append raw more n offset key lo fits = ground (
  arith,
  payload_at-append raw more n offset key lo fits,
  get_or-append raw more 0 0,
  get_or-append raw more 1 0,
)

decode_payload-append :
    (raw more : List ℕ) (n offset : ℕ) (key : List ℕ)
    → 2 ≤ offset
    → decode_payload raw (pos n) offset key ≢ incomplete
    → decode_payload (raw ++ more) (pos n) offset key
      ≡ with_more more (decode_payload raw (pos n) offset key)
decode_payload-append raw more n offset key lo whole =
    elim (Bool-cases (ltb (length raw) (offset + n))) [
      | inl short ↦ absurd (whole (rw (decode_payload-pos raw n offset key, short)))
      | inr enough ↦
          let fits : offset + n ≤ length raw = ground arith in
          rw (
            decode_payload-fits (raw ++ more) n offset key (omega (arith, length-append raw more)),
            decode_payload-fits raw n offset key fits,
            frame_at-append raw more n offset key lo fits,
            after_at-append raw more n offset key lo fits,
          )
    ]

decode_payload-append_any :
    (raw more : List ℕ) (len : ℤ) (offset : ℕ) (key : List ℕ)
    → 2 ≤ offset
    → offset ≤ length raw
    → decode_payload raw len offset key ≢ incomplete
    → decode_payload (raw ++ more) len offset key
      ≡ with_more more (decode_payload raw len offset key)
decode_payload-append_any raw more (pos n) offset key lo fits whole =
    decode_payload-append raw more n offset key lo whole
decode_payload-append_any raw more (negsuc n) offset key lo fits whole = rw (
  decode_payload-negsuc (raw ++ more) n offset key (omega (arith, length-append raw more)),
  decode_payload-negsuc raw n offset key fits,
)

decode_length-append :
    (raw more : List ℕ) (len7 : ℕ)
    → decode_length raw len7 ≢ none
    → decode_length (raw ++ more) len7 ≡ decode_length raw len7
unfolding decode_length
decode_length-append raw more len7 found =
    ground (arith, length-append raw more, uint16-append raw more 2, uint64-append raw more 2)

key-append :
    (raw more : List ℕ) (offset : ℕ)
    → offset + 4 ≤ length raw
    → take 4 (drop offset (raw ++ more)) ≡ take 4 (drop offset raw)
key-append raw more offset fits =
    rw (drop-append offset raw more (omega arith))
      (take-append 4 (drop offset raw) more (omega (arith, length-drop offset raw)))

-- The key and the payload behind a header of `offset` bytes.
decode_body-append :
    (raw more : List ℕ) (len : ℤ) (offset : ℕ)
    → 2 ≤ offset
    → offset ≤ length raw
    → decode_body raw len offset ≢ incomplete
    → decode_body (raw ++ more) len offset ≡ with_more more (decode_body raw len offset)
unfolding decode_body
decode_body-append raw more len offset lo fits whole = ground (
  arith,
  get_or-append raw more 1 0,
  length-append raw more,
  key-append raw more offset,
  decode_payload-append_any raw more len (offset + 4) (take 4 (drop offset raw)),
  decode_payload-append_any raw more len offset zero_key,
)

-- An answer other than "incomplete", be it a frame, an error or a panic, stays the answer when more
-- bytes arrive: the same frame, with the same number of bytes consumed.
pub decode-append :
    (raw more : List ℕ)
    → decode_frame_from_bytes raw ≢ incomplete
    → decode_frame_from_bytes (raw ++ more) ≡ with_more more (decode_frame_from_bytes raw)
unfolding decode_frame_from_bytes
decode-append raw more whole =
    elim (Option-cases (decode_length raw (bit_and (byte_at raw 1) 0x7F))) [
      | inl missing ↦ absurd (ground arith)
      | inr ((len, offset), found) ↦
          let two : 2 ≤ length raw = ground arith in
          let (lo, _, fits) = decode_length_offset raw _ len offset two found in
          let found' : decode_length (raw ++ more) (bit_and (byte_at (raw ++ more) 1) 0x7F)
              ≡ some (len, offset) =
            rw
              (
                get_or-append raw more 1 0 two,
                decode_length-append raw more (bit_and (byte_at raw 1) 0x7F) (λ e. cc),
              )
              found in
          let step = decode_frame_step raw len offset two found in
          decode_frame_step (raw ++ more) len offset (omega (arith, length-append raw more)) found'
          ∙ decode_body-append raw more len offset lo fits (λ e. whole (step ∙ e))
          ∙ ap (with_more more) (sym step)
    ]
