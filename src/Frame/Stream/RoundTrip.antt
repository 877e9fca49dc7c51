-- ===== src/Frame/Stream/RoundTrip.antt =====
-- `DecodeFrame` on what the encoder writes.
use hioload_ws.Prelude.{
  ◌++◌, ◌<◌, ◌∙◌, ◌∷◌, ◌≡◌, ◌≤◌, Bool, List, [], ap, append_assoc, ap₂, arith, bit_and, dec_lt,
  drop, drop-length-append, false, if◌then◌else◌, length, length-append, ltb, none, refl, some,
  subst, sym, take, take-length-append, true, ℕ,
}
use hioload_ws.Prelude.Int.{pos}
use hioload_ws.Frame.{WsFrame, max_frame_payload, zero_key}
use hioload_ws.Frame.Bytes.{int64, put_uint16, put_uint64, uint16, uint64}
use hioload_ws.Frame.Decode.{has_top_bit}
use hioload_ws.Frame.Encode.{
  encode_frame_to_buffer_with_mask, encoded, example_mask_key, first_byte, header,
}
use hioload_ws.Frame.Encode.Header.{
  first_byte_fields, header_large, header_medium, header_small, second_byte,
}
use hioload_ws.Frame.Encode.RoundTrip.{IsSendable, encode_lem, received, wire}
use hioload_ws.Frame.Mask.{length-mask_from, mask_from, unmask_in_place, unmask_in_place-mask_from}
use hioload_ws.Frame.Stream.{
  decode_stream, extended, frame_read, read_full, read_key, read_length, read_payload, read_rest,
  with_payload,
}

read_full-append : (xs ys : List ℕ) (n : ℕ) → n ≡ length xs → read_full n (xs ++ ys) ≡ some (xs, ys)
read_full-append xs ys n e =
    let room : ltb (length (xs ++ ys)) n ≡ false = ground (arith, e, length-append xs ys) in
    rw room (
      ap (λ m. some (take m (xs ++ ys), drop m (xs ++ ys))) e
      ∙ ap₂ (λ (a b : List ℕ). some (a, b)) (take-length-append xs ys) (drop-length-append xs ys))

-- What the length behind the first two bytes is read as, whatever follows.
ReadsLength : List ℕ → ℕ → ℕ → Bool → Type 0
ReadsLength hdr b0 n mask =
    (b1 : ℕ) × (ext : List ℕ) × (hdr ≡ b0 ∷ b1 ∷ ext)
    × (has_top_bit b1 ≡ mask)
    × ((s : List ℕ) → read_length (bit_and b1 0x7F) (ext ++ s) ≡ some (pos n, s))

small_ReadsLength :
    (b0 n : ℕ) (mask : Bool) → n ≤ 125 → ReadsLength (header b0 (pos n) mask) b0 n mask
unfolding ReadsLength
small_ReadsLength b0 n mask h =
    let (top, low) = second_byte mask n (omega arith) in
    (_, [], header_small b0 n mask h, top, λ s. rw low (ground arith))

medium_ReadsLength :
    (b0 n : ℕ) (mask : Bool) → 125 < n → n ≤ 0xFFFF → ReadsLength (header b0 (pos n) mask) b0 n mask
unfolding ReadsLength uint16
medium_ReadsLength b0 n mask h k =
    let (top, low) = second_byte mask 126 (omega arith) in
    (
      _,
      put_uint16 n,
      header_medium b0 n mask h k,
      top,
      λ s. rw low (
          ap (extended (λ ext. pos (uint16 ext 0))) (read_full-append (put_uint16 n) s 2 refl)
          ∙ ap (λ m. some (pos m, s)) (omega arith)),
    )

large_ReadsLength :
    (b0 n : ℕ) (mask : Bool)
    → 0xFFFF < n
    → n ≤ max_frame_payload
    → ReadsLength (header b0 (pos n) mask) b0 n mask
unfolding ReadsLength uint64
large_ReadsLength b0 n mask h k =
    let (top, low) = second_byte mask 127 (omega arith) in
    (
      _,
      put_uint64 n,
      header_large b0 n mask h,
      top,
      λ s. rw low (
          ap (extended (λ ext. int64 (uint64 ext 0))) (read_full-append (put_uint64 n) s 8 refl)
          ∙ ap (λ v. some (int64 v, s)) whole
          ∙ ground arith),
    )
  where
    whole : uint64 (put_uint64 n) 0 ≡ n
    whole = unfold uint64 in omega arith

header-ReadsLength :
    (b0 n : ℕ) (mask : Bool)
    → n ≤ max_frame_payload
    → ReadsLength (header b0 (pos n) mask) b0 n mask
header-ReadsLength b0 n mask h = elim (dec_lt 125 n) [
  | no small ↦ small_ReadsLength b0 n mask (omega arith)
  | yes more ↦ elim (dec_lt 0xFFFF n) [
    | no medium ↦ medium_ReadsLength b0 n mask more (omega arith)
    | yes large ↦ large_ReadsLength b0 n mask large h
  ]
]

-- Behind a header the key and the payload are read.
read_at :
    (hdr : List ℕ) (b0 n : ℕ) (mask : Bool) (s : List ℕ)
    → ReadsLength hdr b0 n mask
    → (b1 : ℕ) × (has_top_bit b1 ≡ mask)
      × (decode_stream (hdr ++ s) ≡ read_key (b0 ∷ b1 ∷ []) (some (pos n, s)))
unfolding ReadsLength decode_stream
read_at hdr b0 n mask s (b1, ext, e, top, reads) = (
  b1,
  top,
  ap (λ h. decode_stream (h ++ s)) e
      ∙ ap read_rest (read_full-append (b0 ∷ b1 ∷ []) (ext ++ s) 2 refl)
      ∙ ap (read_key (b0 ∷ b1 ∷ [])) (reads s),
)

-- The frame of two bytes, a key and the bytes of the payload.
abbrev frame_of_bytes : ℕ → ℕ → ℕ → List ℕ → List ℕ → WsFrame
frame_of_bytes b0 b1 n mask_key payload = record {
  is_final = has_top_bit b0;
  opcode = bit_and b0 0x0F;
  masked = has_top_bit b1;
  payload_len = pos n;
  mask_key = mask_key;
  payload = if has_top_bit b1 then unmask_in_place payload mask_key else payload;
  buf = none;
}

read_key-plain :
    (b0 b1 n : ℕ) (payload rest : List ℕ)
    → has_top_bit b1 ≡ false
    → n ≡ length payload
    → read_key (b0 ∷ b1 ∷ []) (some (pos n, payload ++ rest))
      ≡ frame_read (frame_of_bytes b0 b1 n zero_key payload) rest
read_key-plain b0 b1 n payload rest top e =
    ap
      (λ t.
        read_payload (b0 ∷ b1 ∷ []) (pos n)
          (if t then read_full 4 (payload ++ rest) else some (zero_key, payload ++ rest)))
      top
    ∙ ap (with_payload (b0 ∷ b1 ∷ []) (pos n) zero_key) (read_full-append payload rest n e)

read_key-masked :
    (b0 b1 n : ℕ) (mask_key payload rest : List ℕ)
    → has_top_bit b1 ≡ true
    → 4 ≡ length mask_key
    → n ≡ length payload
    → read_key (b0 ∷ b1 ∷ []) (some (pos n, mask_key ++ (payload ++ rest)))
      ≡ frame_read (frame_of_bytes b0 b1 n mask_key payload) rest
read_key-masked b0 b1 n mask_key payload rest top four e =
    ap
      (λ t. read_payload (b0 ∷ b1 ∷ []) (pos n) (
        if t
        then read_full 4 (mask_key ++ (payload ++ rest))
        else some (zero_key, mask_key ++ (payload ++ rest))))
      top
    ∙ ap (read_payload (b0 ∷ b1 ∷ []) (pos n)) (read_full-append mask_key (payload ++ rest) 4 four)
    ∙ ap (with_payload (b0 ∷ b1 ∷ []) (pos n) mask_key) (read_full-append payload rest n e)

sent_ReadsLength :
    (f : WsFrame) (mask : Bool)
    → IsSendable f
    → ReadsLength (header (first_byte f) f.payload_len mask) (first_byte f) (length f.payload) mask
sent_ReadsLength f mask s =
    subst (λ l. ReadsLength (header (first_byte f) l mask) (first_byte f) (length f.payload) mask)
      (sym s.length_agrees) (header-ReadsLength (first_byte f) (length f.payload) mask s.limit)

-- What `DecodeFrame` reads from a stream that starts with an encoded frame, masked or not, is the
-- frame, with its FIN bit, opcode and payload, and it leaves the rest of the stream.
pub decode_stream-wire :
    (f : WsFrame) (mask : Bool) (dst rest : List ℕ)
    → IsSendable f
    → (bytes : List ℕ) × (encode_frame_to_buffer_with_mask f mask dst ≡ encoded bytes)
      × (decode_stream (bytes ++ rest) ≡ frame_read (received f mask) rest)
decode_stream-wire f false dst rest s =
    let hdr = header (first_byte f) f.payload_len false in
    let n = length f.payload in
    let (b1, top, e) =
      read_at hdr (first_byte f) n false (f.payload ++ rest) (sent_ReadsLength f false s) in
    let same : frame_of_bytes (first_byte f) b1 n zero_key f.payload ≡ received f false =
      ground (arith, first_byte_fields f s.opcode_in, s.length_agrees, top) in
    (
      wire f false,
      encode_lem f false dst s,
      ap decode_stream (append_assoc hdr f.payload rest)
          ∙ e
          ∙ read_key-plain (first_byte f) b1 n f.payload rest top refl
          ∙ ap (λ g. frame_read g rest) same,
    )
decode_stream-wire f true dst rest s =
    let hdr = header (first_byte f) f.payload_len true in
    let n = length f.payload in
    let masked = mask_from example_mask_key 0 f.payload in
    let (b1, top, e) =
      read_at hdr (first_byte f) n true (example_mask_key ++ (masked ++ rest))
        (sent_ReadsLength f true s) in
    let undone : unmask_in_place masked example_mask_key ≡ f.payload =
      unmask_in_place-mask_from example_mask_key f.payload (omega arith) s.bytes in
    let same : frame_of_bytes (first_byte f) b1 n example_mask_key masked ≡ received f true =
      ground (arith, first_byte_fields f s.opcode_in, s.length_agrees, top, undone) in
    (
      wire f true,
      encode_lem f true dst s,
      ap decode_stream (
            append_assoc (hdr ++ example_mask_key) masked rest
            ∙ append_assoc hdr example_mask_key (masked ++ rest))
          ∙ e
          ∙ read_key-masked (first_byte f) b1 n example_mask_key masked rest top refl
              (sym (length-mask_from example_mask_key 0 f.payload))
          ∙ ap (λ g. frame_read g rest) same,
    )
