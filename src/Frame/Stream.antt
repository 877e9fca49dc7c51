-- ===== src/Frame/Stream.antt =====
-- `DecodeFrame` of protocol/frame.go, on the bytes that a reader has until its end.
pub mod RoundTrip
use hioload_ws.Prelude.{
  ◌==◌, ◌∷◌, Bool, List, Option, [], bit_and, drop, false, if◌then◌else◌, length, ltb, none, refl,
  some, suc, take, true, zero, ℕ,
}
use hioload_ws.Prelude.Int.{negsuc, pos, ℤ}
use hioload_ws.Frame.{WsFrame, zero_key}
use hioload_ws.Frame.Bytes.{byte_at, int64, uint16, uint64}
use hioload_ws.Frame.Decode.{has_top_bit}
use hioload_ws.Frame.Mask.{unmask_in_place}

-- An error of the reader, the panic of `make` on a negative length, or a frame with what is left.
pub data FrameRead : Type 0 where
  read_error make_panic : FrameRead
  frame_read : WsFrame → List ℕ → FrameRead

-- `io.ReadFull` of `n` bytes
abbrev pub read_full : ℕ → List ℕ → Option (List ℕ × List ℕ)
read_full n s = if ltb (length s) n then none else some (take n s, drop n s)

-- The payload, unmasked where it is masked.
abbrev pub with_payload : List ℕ → ℤ → List ℕ → Option (List ℕ × List ℕ) → FrameRead
with_payload hdr len mask_key none = read_error
with_payload hdr len mask_key (some (payload, s)) =
    let masked = has_top_bit (byte_at hdr 1) in
    frame_read
      (record {
        is_final = has_top_bit (byte_at hdr 0);
        opcode = bit_and (byte_at hdr 0) 0x0F;
        masked = masked;
        payload_len = len;
        mask_key = mask_key;
        payload = if masked then unmask_in_place payload mask_key else payload;
        buf = none;
      })
      s

abbrev pub read_payload : List ℕ → ℤ → Option (List ℕ × List ℕ) → FrameRead
read_payload hdr len none = read_error
read_payload hdr (negsuc n) (some (mask_key, s)) = make_panic
read_payload hdr (pos n) (some (mask_key, s)) = with_payload hdr (pos n) mask_key (read_full n s)

abbrev pub read_key : List ℕ → Option (ℤ × List ℕ) → FrameRead
read_key hdr none = read_error
read_key hdr (some (len, s)) =
    read_payload hdr len (if has_top_bit (byte_at hdr 1) then read_full 4 s else some (zero_key, s))

abbrev pub extended : (List ℕ → ℤ) → Option (List ℕ × List ℕ) → Option (ℤ × List ℕ)
extended value none = none
extended value (some (ext, s)) = some (value ext, s)

-- The switch on the seven-bit length.
abbrev pub read_length : ℕ → List ℕ → Option (ℤ × List ℕ)
read_length len7 s =
    if len7 == 126
    then extended (λ ext. pos (uint16 ext 0)) (read_full 2 s)
    else if len7 == 127
    then extended (λ ext. int64 (uint64 ext 0)) (read_full 8 s)
    else some (pos len7, s)

abbrev pub read_rest : Option (List ℕ × List ℕ) → FrameRead
read_rest none = read_error
read_rest (some (hdr, s)) = read_key hdr (read_length (bit_and (byte_at hdr 1) 0x7F) s)

-- `DecodeFrame`
unfoldable pub decode_stream : List ℕ → FrameRead
decode_stream s = read_rest (read_full 2 s)
