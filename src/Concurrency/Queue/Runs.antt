-- ===== src/Concurrency/Queue/Runs.antt =====
-- Histories of one `LockFreeQueue` against those of a bounded first-in first-out list.
use hioload_ws.Prelude.{◌*◌, ◌<◌, ◌^◌, ◌∙◌, ◌∷◌, ◌≡◌, ◌≤◌, Bool, List, Option, [], ap, refl, suc, ℕ}
use hioload_ws.Prelude.Int.{ℤ}
use hioload_ws.Concurrency.Queue.{
  LockFreeQueue, Outcome, dequeue, done, enqueue, new_lock_free_queue, out_of_range, spins,
}
use hioload_ws.Concurrency.Queue.Contents.{Queues}
use hioload_ws.Concurrency.Queue.Fifo.{dequeue-fifo, enqueue-fifo, fifo_dequeue, fifo_enqueue}
use hioload_ws.Concurrency.Queue.New.{at_least_two, new_lock_free_queue_lem}

pub data Operation (A : Type 0) : Type 0 where
  put : A → Operation A
  take_one : Operation A

pub data Reply (A : Type 0) : Type 0 where
  accepted : Bool → Reply A
  item : Option A → Reply A

module _ {A : Type 0} where
  abbrev pub with_reply : Reply A → Outcome (List (Reply A)) → Outcome (List (Reply A))
  with_reply r (done rs) = done (r ∷ rs)
  with_reply r out_of_range = out_of_range
  with_reply r spins = spins

  abbrev pub after :
      {R : Type 0}
      → (LockFreeQueue A × R → Outcome (List (Reply A)))
      → Outcome (LockFreeQueue A × R)
      → Outcome (List (Reply A))
  after next (done p) = next p
  after next out_of_range = out_of_range
  after next spins = spins

  -- The replies of the queue to the operations in turn.
  unfoldable pub run : ℕ → LockFreeQueue A → List (Operation A) → Outcome (List (Reply A))
  run fuel q [] = done []
  run fuel q (put val ∷ ops) =
      after (λ p. with_reply (accepted p.1) (run fuel p.0 ops)) (enqueue fuel q val)
  run fuel q (take_one ∷ ops) =
      after (λ p. with_reply (item p.1) (run fuel p.0 ops)) (dequeue fuel q)

  -- The replies of a list of at most `size` items.
  pub run_fifo : ℕ → List A → List (Operation A) → List (Reply A)
  run_fifo size xs [] = []
  run_fifo size xs (put val ∷ ops) =
      let (xs', b) = fifo_enqueue size xs val in accepted b ∷ run_fifo size xs' ops
  run_fifo size xs (take_one ∷ ops) =
      let (xs', x) = fifo_dequeue xs in item x ∷ run_fifo size xs' ops

  run-Queues :
      (fuel : ℕ) (q : LockFreeQueue A) (xs : List A) (k : ℕ) (ops : List (Operation A))
      → Queues q xs k
      → run (suc fuel) q ops ≡ done (run_fifo (2 ^ k) xs ops)
  unfolding run run_fifo
  run-Queues fuel q xs k [] r = refl
  run-Queues fuel q xs k (put val ∷ ops) r =
      let (q', e, r') = enqueue-fifo fuel q xs k val r in
      ap (after (λ p. with_reply (accepted p.1) (run (suc fuel) p.0 ops))) e
      ∙ ap (with_reply (accepted (fifo_enqueue (2 ^ k) xs val).1)) (run-Queues fuel q' _ k ops r')
  run-Queues fuel q xs k (take_one ∷ ops) r =
      let (q', e, r') = dequeue-fifo fuel q xs k r in
      ap (after (λ p. with_reply (item p.1) (run (suc fuel) p.0 ops))) e
      ∙ ap (with_reply (item (fifo_dequeue xs).1)) (run-Queues fuel q' _ k ops r')

  -- A new queue of capacity up to 2 ^ 62 replies to every sequence of `Enqueue` and `Dequeue` calls as
  -- a bounded first-in first-out list does, whose bound is a power of two that reaches the capacity
  -- (2 where that is less) and is less than twice that. No call spins or indexes out of range, and the
  -- counters may wrap around any number of times.
  pub run-run_fifo :
      (fuel : ℕ) (z : A) (capacity : ℤ) (ops : List (Operation A))
      → at_least_two capacity ≤ 2 ^ 62
      → (q : LockFreeQueue A) × (k : ℕ) × (new_lock_free_queue z capacity ≡ done q)
        × (at_least_two capacity ≤ 2 ^ k)
        × (2 ^ k < 2 * at_least_two capacity)
        × (run (suc fuel) q ops ≡ done (run_fifo (2 ^ k) [] ops))
  run-run_fifo fuel z capacity ops h =
      let (q, k, e, r, reaches, close) = new_lock_free_queue_lem z capacity h in
      (q, k, e, reaches, close, run-Queues fuel q [] k ops r)
