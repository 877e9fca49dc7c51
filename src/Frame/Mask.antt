-- ===== src/Frame/Mask.antt =====
-- `unmaskInPlace` of protocol/frame.go and the masking loops of protocol/frame_codec.go: the
-- payload is xored with the key, byte i with key byte i % 4.
use Prim.Native.Nat.{bit_xor}
use hioload_ws.Prelude.{
  ◌%◌, ◌++◌, ◌+◌, ◌<◌, ◌∷◌, ◌≡◌, All, List, Option, [], ap, append-nil, ap₂, arith, drop, drop_all,
  if◌then◌else◌, length, none, refl, some, suc, take, take_all, zero, ℕ,
}
use hioload_ws.Prelude.Bits.{agree_below, agree_below→eq}
use hioload_ws.Prelude.Int.{ltb_ℤ, pos, pos_part, ℤ}
use hioload_ws.Frame.{IsByte}
use hioload_ws.Frame.Bytes.{byte_at}

-- The loop from index `i` on; the list is what it has not reached.
abbrev pub mask_from : List ℕ → ℕ → List ℕ → List ℕ
mask_from key i [] = []
mask_from key i (b ∷ bs) = bit_xor b (byte_at key (i % 4)) ∷ mask_from key (i + 1) bs

unfoldable pub unmask_in_place : List ℕ → List ℕ → List ℕ
unmask_in_place buf key = mask_from key 0 buf

-- The loop of `EncodeFrameToBufferWithMask`, `for i := 0; i < plen; i++`, over the payload that was
-- appended: `none` is the panic on an index past the end.
unfoldable pub mask_first : ℤ → List ℕ → List ℕ → Option (List ℕ)
mask_first plen key payload =
    if ltb_ℤ (pos (length payload)) plen
    then none
    else some (mask_from key 0 (take (pos_part plen) payload) ++ drop (pos_part plen) payload)

xor_row : ℕ → ℕ
unfolding agree_below
xor_row k = if agree_below (λ b. bit_xor (bit_xor b k) k) (λ b. b) 256 then 1 else 0

xor_table : (k : ℕ) → k < 256 → xor_row k ≡ 1
unfolding agree_below xor_row
xor_table = agree_below→eq xor_row (λ _. 1) 256 refl

-- xor with the same byte twice gives the byte back.
pub xor_undo : (b k : ℕ) → b < 256 → k < 256 → bit_xor (bit_xor b k) k ≡ b
unfolding xor_row
xor_undo b k hb hk =
    agree_below→eq (λ x. bit_xor (bit_xor x k) k) (λ x. x) 256 (ground (arith, xor_table k hk)) b hb

-- Every key byte that the loop reads is one of the four.
key_byte : (key : List ℕ) (j : ℕ) → All IsByte key → byte_at key j < 256
key_byte [] j h = omega arith
key_byte (k ∷ ks) zero h = h.0
key_byte (k ∷ ks) (suc j) h = key_byte ks j h.1

pub mask_from_undo :
    (key : List ℕ) (i : ℕ) (bs : List ℕ)
    → All IsByte key
    → All IsByte bs
    → mask_from key i (mask_from key i bs) ≡ bs
mask_from_undo key i [] hk hb = refl
mask_from_undo key i (b ∷ bs) hk hb =
    ap₂ ◌∷◌ (xor_undo b (byte_at key (i % 4)) hb.0 (key_byte key (i % 4) hk))
      (mask_from_undo key (i + 1) bs hk hb.1)

pub length-mask_from :
    (key : List ℕ) (i : ℕ) (bs : List ℕ) → length (mask_from key i bs) ≡ length bs
length-mask_from key i [] = refl
length-mask_from key i (b ∷ bs) = ap suc (length-mask_from key (i + 1) bs)

pub length-unmask_in_place : (buf key : List ℕ) → length (unmask_in_place buf key) ≡ length buf
unfolding unmask_in_place
length-unmask_in_place buf key = length-mask_from key 0 buf

pub mask_first_all :
    (plen : ℤ) (key payload : List ℕ)
    → plen ≡ pos (length payload)
    → mask_first plen key payload ≡ some (mask_from key 0 payload)
unfolding mask_first
mask_first_all plen key payload e =
    rw
      (
        e,
        take_all (length payload) payload (omega arith),
        drop_all (length payload) payload (omega arith),
      )
      (ground (arith, append-nil (mask_from key 0 payload)))

pub unmask_in_place-mask_from :
    (key bs : List ℕ)
    → All IsByte key
    → All IsByte bs
    → unmask_in_place (mask_from key 0 bs) key ≡ bs
unfolding unmask_in_place
unmask_in_place-mask_from key bs hk hb = mask_from_undo key 0 bs hk hb

-- `unmaskInPlace` with one key twice gives the payload back.
pub unmask_in_place_undo :
    (key bs : List ℕ)
    → All IsByte key
    → All IsByte bs
    → unmask_in_place (unmask_in_place bs key) key ≡ bs
unfolding unmask_in_place
unmask_in_place_undo key bs hk hb = mask_from_undo key 0 bs hk hb
