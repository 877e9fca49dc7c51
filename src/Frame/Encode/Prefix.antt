-- ===== src/Frame/Encode/Prefix.antt =====
-- `DecodeFrameFromBytes` on a frame of which only a part has arrived.
use hioload_ws.Prelude.{
  ◌++◌, ◌∙◌, ◌∷◌, ◌≡◌, ◌≢◌, Bool, List, [], ap, append-nil, arith, length, length-append, refl,
  subst, sym, ℕ,
}
use hioload_ws.Frame.{WsFrame}
use hioload_ws.Frame.Decode.{
  Decoded, decode_frame_from_bytes, decoded, incomplete, panic, too_large,
}
use hioload_ws.Frame.Decode.Bounds.{decode_bounds}
use hioload_ws.Frame.Decode.Stable.{decode-append, with_more}
use hioload_ws.Frame.Encode.{encode_frame_to_buffer_with_mask, encoded}
use hioload_ws.Frame.Encode.RoundTrip.{IsSendable, decode-encode, received}

-- On every proper prefix of an encoded frame the decoder answers that the frame is incomplete: it
-- neither fails nor makes up a shorter frame.
pub decode_prefix :
    (f : WsFrame) (mask : Bool) (x : ℕ) (dst front back : List ℕ)
    → IsSendable f
    → encode_frame_to_buffer_with_mask f mask dst ≡ encoded (front ++ (x ∷ back))
    → decode_frame_from_bytes front ≡ incomplete
decode_prefix f mask x dst front back s e = answer (decode_frame_from_bytes front) refl
  where
    whole :
        (after : List ℕ) × (decode_frame_from_bytes (front ++ (x ∷ back))
          ≡ decoded (received f mask) (length (front ++ (x ∷ back))) after)
    whole =
        let (bytes, is, (after, d, _)) = decode-encode f mask dst [] s in
        let same : bytes ≡ front ++ (x ∷ back) = cc in
        (
          after,
          subst (λ bs. decode_frame_from_bytes bs ≡ decoded (received f mask) (length bs) after)
              same (rw append-nil at d),
        )

    grown :
        (d : Decoded)
        → decode_frame_from_bytes front ≡ d
        → d ≢ incomplete
        → with_more (x ∷ back) d ≡ decoded (received f mask) (length (front ++ (x ∷ back))) whole.0
    grown d h ne =
        ap (with_more (x ∷ back)) (sym h)
        ∙ sym (decode-append front (x ∷ back) (λ e'. ne (sym h ∙ e')))
        ∙ whole.1

    answer :
        (d : Decoded)
        → decode_frame_from_bytes front ≡ d
        → decode_frame_from_bytes front ≡ incomplete
    answer incomplete h = h
    answer too_large h = absurd (cc (grown too_large h (λ e'. cc)))
    answer panic h = absurd (cc (grown panic h (λ e'. cc)))
    answer (decoded g consumed after) h =
        let v = decode_bounds front g consumed after h in
        let counts : consumed ≡ length (front ++ (x ∷ back)) =
          cc (grown (decoded g consumed after) h (λ e'. cc)) in
        absurd (omega (arith, v.inside, counts, length-append front (x ∷ back)))
