-- ===== src/Concurrency/Queue/Fifo.antt =====
-- A `LockFreeQueue` as a bounded first-in first-out list.
use native.Mathlib.Nat.{pow-le-pow_right}
use hioload_ws.Prelude.{
  ◌++◌, ◌+◌, ◌<◌, ◌^◌, ◌∙◌, ◌∷◌, ◌≡◌, ◌≤◌, Bool, Bool-cases, List, Option, [], ap, arith, bit_and,
  false, get_elem?, if◌then◌else◌, inl, inr, length, ltb, lt→ltb, none, some, subst, suc, sym,
  tests, true, ℕ,
}
use hioload_ws.Concurrency.Queue.{
  Cell, LockFreeQueue, add_uint64, cap, dequeue, dequeue_at, dif, done, enqueue, enqueue_at,
  free_cell, len, write_cell,
}
use hioload_ws.Concurrency.Queue.Contents.{
  Holds, Queues, empty_cell, free_cell-Holds, full_cell, head_cell, head_index, tail_cell,
  tail_index, write_cell-Holds,
}

module _ {A : Type 0} where
  -- The bounded list: `size` items at most.
  abbrev pub fifo_enqueue : ℕ → List A → A → List A × Bool
  fifo_enqueue size xs v = if ltb (length xs) size then (xs ++ (v ∷ []), true) else (xs, false)

  abbrev pub fifo_dequeue : List A → List A × Option A
  fifo_dequeue [] = ([], none)
  fifo_dequeue (x ∷ xs) = (xs, some x)

  enqueue-room :
      (fuel : ℕ) (q : LockFreeQueue A) (val : A) (c : Cell A)
      → get_elem? q.cells (bit_and q.tail q.mask) ≡ some c
      → dif c.sequence q.tail ≡ 0
      → enqueue (suc fuel) q val ≡ done (write_cell q (bit_and q.tail q.mask) val, true)
  unfolding enqueue
  enqueue-room fuel q val c e z = ap (enqueue_at q val (enqueue fuel q val)) e ∙ ground arith

  enqueue-full :
      (fuel : ℕ) (q : LockFreeQueue A) (val : A) (c : Cell A)
      → get_elem? q.cells (bit_and q.tail q.mask) ≡ some c
      → 2 ^ 63 ≤ dif c.sequence q.tail
      → enqueue (suc fuel) q val ≡ done (q, false)
  unfolding enqueue
  enqueue-full fuel q val c e z = ap (enqueue_at q val (enqueue fuel q val)) e ∙ ground arith

  dequeue-item :
      (fuel : ℕ) (q : LockFreeQueue A) (c : Cell A)
      → get_elem? q.cells (bit_and q.head q.mask) ≡ some c
      → dif c.sequence (add_uint64 q.head 1) ≡ 0
      → dequeue (suc fuel) q ≡ done (free_cell q (bit_and q.head q.mask) c.data_of, some c.data_of)
  unfolding dequeue
  dequeue-item fuel q c e z = ap (dequeue_at q (dequeue fuel q)) e ∙ ground arith

  dequeue-empty :
      (fuel : ℕ) (q : LockFreeQueue A) (c : Cell A)
      → get_elem? q.cells (bit_and q.head q.mask) ≡ some c
      → 2 ^ 63 ≤ dif c.sequence (add_uint64 q.head 1)
      → dequeue (suc fuel) q ≡ done (q, none)
  unfolding dequeue
  dequeue-empty fuel q c e z = ap (dequeue_at q (dequeue fuel q)) e ∙ ground arith

  pub fifo_enqueue-room :
      (size : ℕ) (xs : List A) (v : A)
      → length xs < size
      → fifo_enqueue size xs v ≡ (xs ++ (v ∷ []), true)
  fifo_enqueue-room size xs v h =
      ap (λ (b : Bool). if b then (xs ++ (v ∷ []), true) else (xs, false))
        (lt→ltb (length xs) size h)

  -- What `Enqueue` does to a queue that holds `xs`, the outcome of the bounded list given as `p`.
  Enqueues : ℕ → LockFreeQueue A → ℕ → A → List A × Bool → Type 0
  Enqueues fuel q k val p =
      (q' : LockFreeQueue A) × (enqueue (suc fuel) q val ≡ done (q', p.1)) × Queues q' p.0 k

  Dequeues : ℕ → LockFreeQueue A → ℕ → List A × Option A → Type 0
  Dequeues fuel q k p =
      (q' : LockFreeQueue A) × (dequeue (suc fuel) q ≡ done (q', p.1)) × Queues q' p.0 k

  enqueue_room_lem :
      (fuel : ℕ) (q : LockFreeQueue A) (xs : List A) (k : ℕ) (val : A) (h : ℕ)
      → Holds q xs k h
      → length xs < 2 ^ k
      → Enqueues fuel q k val (xs ++ (val ∷ []), true)
  unfolding Enqueues
  enqueue_room_lem fuel q xs k val h r room =
      let (c, e, z) = tail_cell q xs k h r room in
      (
        write_cell q (bit_and q.tail q.mask) val,
        enqueue-room fuel q val c e z,
        (
          h,
          subst (λ (i : ℕ). Holds (write_cell q i val) (xs ++ (val ∷ [])) k h)
              (sym (tail_index q xs k h r)) (write_cell-Holds q xs k h val r room),
        ),
      )

  enqueue_full_lem :
      (fuel : ℕ) (q : LockFreeQueue A) (xs : List A) (k : ℕ) (val : A) (h : ℕ)
      → Holds q xs k h
      → length xs ≡ 2 ^ k
      → Enqueues fuel q k val (xs, false)
  unfolding Enqueues
  enqueue_full_lem fuel q xs k val h r all =
      let (c, e, z) = full_cell q xs k h r all in (q, enqueue-full fuel q val c e z, (h, r))

  -- `Enqueue` appends to what the queue holds and returns true where it holds less than its size, and
  -- otherwise changes nothing and returns false; the first round decides.
  pub enqueue-fifo :
      (fuel : ℕ) (q : LockFreeQueue A) (xs : List A) (k : ℕ) (val : A)
      → Queues q xs k
      → (q' : LockFreeQueue A) × (enqueue (suc fuel) q val
          ≡ done (q', (fifo_enqueue (2 ^ k) xs val).1))
        × Queues q' (fifo_enqueue (2 ^ k) xs val).0 k
  unfolding Enqueues
  enqueue-fifo fuel q xs k val (h, r) = elim (Bool-cases (ltb (length xs) (2 ^ k))) [
    | inl room ↦
        subst (Enqueues fuel q k val)
          (ap (λ (b : Bool). if b then (xs ++ (val ∷ []), true) else (xs, false)) (sym room))
          (enqueue_room_lem fuel q xs k val h r (omega tests))
    | inr full ↦
        subst (Enqueues fuel q k val)
          (ap (λ (b : Bool). if b then (xs ++ (val ∷ []), true) else (xs, false)) (sym full))
          (enqueue_full_lem fuel q xs k val h r (ground (arith, r.fits)))
  ]

  -- `Dequeue` takes the oldest item the queue holds, and returns that there is none where it holds
  -- nothing; the first round decides.
  pub dequeue-fifo :
      (fuel : ℕ) (q : LockFreeQueue A) (xs : List A) (k : ℕ)
      → Queues q xs k
      → (q' : LockFreeQueue A) × (dequeue (suc fuel) q ≡ done (q', (fifo_dequeue xs).1))
        × Queues q' (fifo_dequeue xs).0 k
  dequeue-fifo fuel q [] k (h, r) =
      let (c, e, z) = empty_cell q k h r in (q, dequeue-empty fuel q c e z, (h, r))
  dequeue-fifo fuel q (x ∷ xs) k (h, r) =
      let (e, z) = head_cell q x xs k h r in
      (
        free_cell q (bit_and q.head q.mask) x,
        dequeue-item fuel q _ e z,
        (
          h + 1,
          subst (λ (i : ℕ). Holds (free_cell q i x) xs k (h + 1))
              (sym (head_index q (x ∷ xs) k h r)) (free_cell-Holds q x xs k h r),
        ),
      )

  -- `Len` is the number of items held, and `Cap` the size.
  pub len-Queues :
      (q : LockFreeQueue A) (xs : List A) (k : ℕ)
      → Queues q xs k
      → (len q ≡ length xs) × (cap q ≡ 2 ^ k) × (length xs ≤ 2 ^ k)
  unfolding len cap
  len-Queues q xs k (h, r) = (
    omega (
      arith,
      r.head_value,
      r.tail_value,
      r.fits,
      pow-le-pow_right {n = 2} (omega arith) {i = k} {j = 62} r.small,
    ),
    r.cell_count,
    r.fits,
  )
