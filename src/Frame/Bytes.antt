-- ===== src/Frame/Bytes.antt =====
-- Byte slices: indexing, slicing, and the big-endian words of Go's encoding/binary.
use hioload_ws.Prelude.{
  ◌%◌, ◌*◌, ◌++◌, ◌+◌, ◌-◌, ◌/◌, ◌<◌, ◌^◌, ◌||◌, ◌∷◌, ◌≡◌, ◌≤◌, List, Option, [], arith, drop,
  get_or, get_or-append, if◌then◌else◌, length, ltb, none, some, take, ℕ,
}
use hioload_ws.Prelude.Int.{ltb_ℤ, negsuc, pos, pos_part, ℤ}

-- `raw[i]`. The callers test the length first.
abbrev pub byte_at : List ℕ → ℕ → ℕ
byte_at raw i = get_or raw i 0

-- `raw[low:high]`; `none` is the panic on bounds out of range.
abbrev pub slice : List ℕ → ℕ → ℤ → Option (List ℕ)
slice raw low high =
    if ltb_ℤ high (pos low) || ltb_ℤ (pos (length raw)) high
    then none
    else some (take (pos_part high - low) (drop low raw))

-- `binary.BigEndian.Uint16(raw[i:])`
unfoldable pub uint16 : List ℕ → ℕ → ℕ
uint16 raw i = byte_at raw i * 256 + byte_at raw (i + 1)

-- `binary.BigEndian.Uint64(raw[i:])`
unfoldable pub uint64 : List ℕ → ℕ → ℕ
uint64 raw i =
    byte_at raw i * 2 ^ 56
    + byte_at raw (i + 1) * 2 ^ 48
    + byte_at raw (i + 2) * 2 ^ 40
    + byte_at raw (i + 3) * 2 ^ 32
    + byte_at raw (i + 4) * 2 ^ 24
    + byte_at raw (i + 5) * 2 ^ 16
    + byte_at raw (i + 6) * 2 ^ 8
    + byte_at raw (i + 7)

-- `int64(u)` of a uint64.
abbrev pub int64 : ℕ → ℤ
int64 u = if ltb u (2 ^ 63) then pos u else negsuc (2 ^ 64 - u - 1)

-- `byte(n)` of an int.
abbrev pub to_byte : ℤ → ℕ
to_byte (pos n) = n % 256
to_byte (negsuc n) = 255 - n % 256

-- `binary.BigEndian.PutUint16`
abbrev pub put_uint16 : ℕ → List ℕ
put_uint16 v = (v / 256 % 256) ∷ (v % 256) ∷ []

-- `binary.BigEndian.PutUint64`
abbrev pub put_uint64 : ℕ → List ℕ
put_uint64 v =
    (v / 2 ^ 56 % 256)
    ∷ (v / 2 ^ 48 % 256)
    ∷ (v / 2 ^ 40 % 256)
    ∷ (v / 2 ^ 32 % 256)
    ∷ (v / 2 ^ 24 % 256)
    ∷ (v / 2 ^ 16 % 256)
    ∷ (v / 2 ^ 8 % 256)
    ∷ (v % 256)
    ∷ []

pub uint16-append :
    (raw more : List ℕ) (i : ℕ) → i + 2 ≤ length raw → uint16 (raw ++ more) i ≡ uint16 raw i
unfolding uint16
uint16-append raw more i h =
    omega (arith, get_or-append raw more i 0, get_or-append raw more (i + 1) 0)

pub uint64-append :
    (raw more : List ℕ) (i : ℕ) → i + 8 ≤ length raw → uint64 (raw ++ more) i ≡ uint64 raw i
unfolding uint64
uint64-append raw more i h = omega (
  arith,
  get_or-append raw more i 0,
  get_or-append raw more (i + 1) 0,
  get_or-append raw more (i + 2) 0,
  get_or-append raw more (i + 3) 0,
  get_or-append raw more (i + 4) 0,
  get_or-append raw more (i + 5) 0,
  get_or-append raw more (i + 6) 0,
  get_or-append raw more (i + 7) 0,
)

pub uint16-put_uint16 :
    (b c v : ℕ) (rest : List ℕ) → v < 2 ^ 16 → uint16 (b ∷ c ∷ put_uint16 v ++ rest) 2 ≡ v
unfolding uint16
uint16-put_uint16 b c v rest h = omega arith

pub uint64-put_uint64 :
    (b c v : ℕ) (rest : List ℕ) → v < 2 ^ 64 → uint64 (b ∷ c ∷ put_uint64 v ++ rest) 2 ≡ v
unfolding uint64
uint64-put_uint64 b c v rest h = omega arith

pub slice-pos :
    (raw : List ℕ) (low high : ℕ)
    → low ≤ high
    → high ≤ length raw
    → slice raw low (pos high) ≡ some (take (high - low) (drop low raw))
slice-pos raw low high h k = ground arith
