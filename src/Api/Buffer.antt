-- ===== src/Api/Buffer.antt =====
-- `Buffer` of api/buffer.go, and the `BufferPool` interface as an abstract state with `Get`.
use hioload_ws.Prelude.{
  ◌++◌, ◌-◌, ◌||◌, ◌≡◌, ◌≤◌, Bool, List, Option, [], ap, append-nil, arith, drop, drop_all, false,
  if◌then◌else◌, length, ltb, min, none, some, take, take_all, ℕ,
}
use hioload_ws.Prelude.Int.{ltb_ℤ, pos, pos_part, ℤ}

-- `bytes` is `Data`, with `none` for nil; `pool` tells whether a pool takes the buffer back.
pub record Buffer : Type 0 where
  pub bytes : Option (List ℕ)
  pub numa : ℤ
  pub pool : Bool
  pub class_size : ℤ

-- `Bytes` as a list; a nil slice has length 0.
abbrev pub bytes_of : Option (List ℕ) → List ℕ
bytes_of none = []
bytes_of (some bs) = bs

abbrev pub slice_bytes : Option (List ℕ) → ℕ → ℕ → Option (List ℕ)
slice_bytes none from to = none
slice_bytes (some bs) from to = some (take (to - from) (drop from bs))

-- `Slice(from, to)`: out of bounds it gives a buffer with no data.
unfoldable pub slice : Buffer → ℤ → ℤ → Buffer
slice b from to =
    if ltb_ℤ from (pos 0) || ltb_ℤ (pos (length (bytes_of b.bytes))) to || ltb_ℤ to from
    then record b { bytes = none }
    else record b { bytes = slice_bytes b.bytes (pos_part from) (pos_part to) }

-- `copy(dst, src)` of Go: the first bytes of `dst` are overwritten.
abbrev pub copy : List ℕ → List ℕ → List ℕ
copy dst src = take (min (length dst) (length src)) src ++ drop (min (length dst) (length src)) dst

-- `BufferPool.Get(size, -1)` over the state of some pool.
pub record BufferPool : Type 1 where
  pub State : Type 0
  pub get : ℕ → State → Buffer × State

-- What a client of a pool relies on: a buffer of a size up to the limit has that many bytes at least.
pub record IsRoomy (pool : BufferPool) (limit : ℕ) : Type 0 where
  pub room :
      (n : ℕ) (s : pool.State)
      → n ≤ limit
      → (bs : List ℕ) × ((pool.get n s).0.bytes ≡ some bs) × (n ≤ length bs)

pub bytes-slice :
    (b : Buffer) (bs : List ℕ) (n : ℕ)
    → b.bytes ≡ some bs
    → n ≤ length bs
    → (slice b (pos 0) (pos n)).bytes ≡ some (take n bs)
unfolding slice
bytes-slice b bs n e h =
    let room : ltb (length (bytes_of b.bytes)) n ≡ false =
      ground (arith, ap (λ o. length (bytes_of o)) e) in
    ground (arith, room, ap (λ o. slice_bytes o 0 n) e)

pub copy_lem : (dst src : List ℕ) → length dst ≡ length src → copy dst src ≡ src
copy_lem dst src e =
    let whole : min (length dst) (length src) ≡ length src = omega arith in
    rw (whole, take_all (length src) src (omega arith), drop_all (length src) dst (omega arith))
      (append-nil src)
