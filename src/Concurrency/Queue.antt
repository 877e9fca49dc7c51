-- ===== src/Concurrency/Queue.antt =====
-- `LockFreeQueue` of core/concurrency/lock_free_queue.go, and `RingBuffer` of core/concurrency/ring.go,
-- whose operations are the same loops: one caller at a time. A uint64 is a number below 2 ^ 64; an
-- int64 difference is its bit pattern.
pub mod Contents
pub mod New
pub mod Fifo
pub mod Runs
pub mod Examples
use hioload_ws.Prelude.{
  ◌%◌, ◌*◌, ◌+◌, ◌-◌, ◌==◌, ◌^◌, ◌||◌, ◌∷◌, Bool, List, Option, [], bit_and, false, get_elem?,
  if◌then◌else◌, leb, length, ltb, none, set, some, suc, true, zero, ℕ,
}
use hioload_ws.Prelude.Int.{ltb_ℤ, pos, pos_part, ℤ}

pub record Cell (A : Type 0) : Type 0 where
  pub sequence : ℕ
  pub data_of : A

pub record LockFreeQueue (A : Type 0) : Type 0 where
  pub head : ℕ
  pub tail : ℕ
  pub mask : ℕ
  pub cells : List (Cell A)

-- How a call ends: it returns, it indexes `cells` out of range, or it still tries when the fuel is
-- used up.
pub data Outcome (R : Type 0) : Type 0 where
  done : R → Outcome R
  out_of_range : Outcome R
  spins : Outcome R

-- `a + b` on uint64
abbrev pub add_uint64 : ℕ → ℕ → ℕ
add_uint64 a b = (a + b) % 2 ^ 64

-- `int64(a) - int64(b)`
abbrev pub dif : ℕ → ℕ → ℕ
dif a b = (a + (2 ^ 64 - b)) % 2 ^ 64

abbrev pub is_negative : ℕ → Bool
is_negative d = leb (2 ^ 63) d

-- `for size < capacity { size <<= 1 }`, on fuel; a size of 2 ^ 63 is a negative int.
unfoldable pub round_up : ℕ → ℕ → ℕ → Outcome ℕ
round_up zero size capacity = spins
round_up (suc fuel) size capacity =
    let rest = round_up fuel (size * 2 % 2 ^ 64) capacity in
    if ltb size capacity || is_negative size then rest else done size

module _ {A : Type 0} where
  -- The cells from index `i` on, with the zero value of their type.
  abbrev pub cells_from : A → ℕ → ℕ → List (Cell A)
  cells_from zero_value i zero = []
  cells_from zero_value i (suc n) =
      record { sequence = i; data_of = zero_value } ∷ cells_from zero_value (i + 1) n

  abbrev pub with_size : A → Outcome ℕ → Outcome (LockFreeQueue A)
  with_size zero_value (done size) =
      done (record { head = 0; tail = 0; mask = size - 1; cells = cells_from zero_value 0 size })
  with_size zero_value out_of_range = out_of_range
  with_size zero_value spins = spins

  -- `NewLockFreeQueue`. The size doubles at most 63 times.
  unfoldable pub new_lock_free_queue : A → ℤ → Outcome (LockFreeQueue A)
  new_lock_free_queue zero_value capacity =
      with_size zero_value (round_up 64 1 (if ltb_ℤ capacity (pos 2) then 2 else pos_part capacity))

  -- The write of one value into the cell at `index`, behind the compare-and-swap on `tail`.
  abbrev pub write_cell : LockFreeQueue A → ℕ → A → LockFreeQueue A
  write_cell q index val = record q {
    tail = add_uint64 q.tail 1;
    cells = set q.cells index (record { sequence = add_uint64 q.tail 1; data_of = val });
  }

  -- What a round of `Enqueue` does with the cell it loaded; `rest` is the next round.
  abbrev pub enqueue_at :
      LockFreeQueue A
      → A
      → Outcome (LockFreeQueue A × Bool)
      → Option (Cell A)
      → Outcome (LockFreeQueue A × Bool)
  enqueue_at q val rest none = out_of_range
  enqueue_at q val rest (some c) =
      if dif c.sequence q.tail == 0
      then done (write_cell q (bit_and q.tail q.mask) val, true)
      else if is_negative (dif c.sequence q.tail)
      then done (q, false)
      else rest

  -- `Enqueue`, on fuel: the queue afterwards and the result.
  unfoldable pub enqueue : ℕ → LockFreeQueue A → A → Outcome (LockFreeQueue A × Bool)
  enqueue zero q val = spins
  enqueue (suc fuel) q val =
      enqueue_at q val (enqueue fuel q val) (get_elem? q.cells (bit_and q.tail q.mask))

  -- The release of the cell at `index`, behind the compare-and-swap on `head`.
  abbrev pub free_cell : LockFreeQueue A → ℕ → A → LockFreeQueue A
  free_cell q index val = record q {
    head = add_uint64 q.head 1;
    cells =
        set q.cells index
          (record { sequence = add_uint64 (add_uint64 q.head q.mask) 1; data_of = val });
  }

  -- What a round of `Dequeue` does with the cell it loaded; `rest` is the next round.
  abbrev pub dequeue_at :
      LockFreeQueue A
      → Outcome (LockFreeQueue A × Option A)
      → Option (Cell A)
      → Outcome (LockFreeQueue A × Option A)
  dequeue_at q rest none = out_of_range
  dequeue_at q rest (some c) =
      if dif c.sequence (add_uint64 q.head 1) == 0
      then done (free_cell q (bit_and q.head q.mask) c.data_of, some c.data_of)
      else if is_negative (dif c.sequence (add_uint64 q.head 1))
      then done (q, none)
      else rest

  -- `Dequeue`, on fuel: the queue afterwards, and the item where there is one.
  unfoldable pub dequeue : ℕ → LockFreeQueue A → Outcome (LockFreeQueue A × Option A)
  dequeue zero q = spins
  dequeue (suc fuel) q = dequeue_at q (dequeue fuel q) (get_elem? q.cells (bit_and q.head q.mask))

  -- `RingBuffer.Len` and `RingBuffer.Cap`
  unfoldable pub len : LockFreeQueue A → ℕ
  len q = dif q.tail q.head

  unfoldable pub cap : LockFreeQueue A → ℕ
  cap q = length q.cells
