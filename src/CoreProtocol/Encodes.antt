-- ===== src/CoreProtocol/Encodes.antt =====
-- The second encoder.
use hioload_ws.Prelude.{◌++◌, ◌∙◌, ◌≡◌, List, ap, arith, false, length, refl, suc, true, zero, ℕ}
use hioload_ws.Prelude.Int.{ltb_ℤ, pos, ℤ}
use hioload_ws.Api.Buffer.{copy_lem}
use hioload_ws.CoreProtocol.{core_decode, core_encode, decoded, encoded, fill_frame, zeros}
use hioload_ws.CoreProtocol.Agrees.{core_decode-forget, forget}
use hioload_ws.Frame.{WsFrame, max_frame_payload}
use hioload_ws.Frame.Encode.{encode_frame_to_buffer_with_mask, first_byte}
use hioload_ws.Frame.Encode.RoundTrip.{IsSendable, decode_wire, encode_lem, received, wire}

length-zeros : (n : ℕ) → length (zeros n) ≡ n
length-zeros zero = refl
length-zeros (suc n) = ap suc (length-zeros n)

abbrev pub final_frame : WsFrame → WsFrame
final_frame f = record f { is_final = true }

final-IsSendable : (f : WsFrame) → IsSendable f → IsSendable (final_frame f)
final-IsSendable f s = record {
  bytes = s.bytes;
  limit = s.limit;
  length_agrees = s.length_agrees;
  opcode_in = s.opcode_in;
}

fill_frame_lem :
    (hdr payload : List ℕ) (len : ℤ)
    → len ≡ pos (length payload)
    → fill_frame hdr len payload ≡ encoded (hdr ++ payload)
fill_frame_lem hdr payload len e =
    ap (λ l. fill_frame hdr l payload) e
    ∙ ap (λ p. encoded (hdr ++ p))
        (copy_lem (zeros (length payload)) payload (length-zeros (length payload)))

core_encode_lem :
    (f : WsFrame) → IsSendable f → core_encode f ≡ encoded (wire (final_frame f) false)
unfolding core_encode first_byte
core_encode_lem f s =
    let fits : ltb_ℤ (pos max_frame_payload) f.payload_len ≡ false =
      ap (ltb_ℤ (pos max_frame_payload)) s.length_agrees ∙ ground (arith, s.limit) in
    rw fits (fill_frame_lem _ f.payload f.payload_len s.length_agrees)

-- The second codec sends every sendable frame as the first one does without a mask, but always with
-- the FIN bit; read back, whatever follows, the frame is final and unmasked, also if it was the start
-- of a fragmented message or was to be masked.
pub core_decode-core_encode :
    (f : WsFrame) (rest dst : List ℕ)
    → IsSendable f
    → (bytes : List ℕ) × (core_encode f ≡ encoded bytes)
      × (encode_frame_to_buffer_with_mask (final_frame f) false dst
          ≡ hioload_ws.Frame.Encode.encoded bytes)
      × (core_decode (bytes ++ rest) ≡ decoded (received (final_frame f) false))
core_decode-core_encode f rest dst s =
    let s' = final-IsSendable f s in
    let (after, e, kept) = decode_wire (final_frame f) false rest s' in
    (
      wire (final_frame f) false,
      core_encode_lem f s,
      encode_lem (final_frame f) false dst s',
      core_decode-forget (wire (final_frame f) false ++ rest) ∙ ap forget e,
    )
