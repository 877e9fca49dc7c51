-- ===== src/Concurrency/Ring/Examples.antt =====
-- A run of the ring buffer at concrete inputs.
use hioload_ws.Prelude.{
  ◌+◌, ◌^◌, ◌∷◌, ◌≡◌, ◌≤◌, Along, List, [], arith, refl, run_steps, some, take,
}
use hioload_ws.Concurrency.Ring.{RingBuffer, Step, consumes, enqueues, produces, ring_of, take_step}
use hioload_ws.Concurrency.Ring.Fifo.{run_steps-fifo}
use hioload_ws.Concurrency.Ring.Stored.{IsCounted}

-- A ring of two places: the consumer looks while the producer is at work, and gets the first item.
abbrev two_items : List Step
two_items =
    enqueues 5
    ∷ produces
    ∷ consumes
    ∷ produces
    ∷ produces
    ∷ consumes
    ∷ produces
    ∷ consumes
    ∷ enqueues 6
    ∷ produces
    ∷ consumes
    ∷ consumes
    ∷ produces
    ∷ produces
    ∷ consumes
    ∷ consumes
    ∷ consumes
    ∷ produces
    ∷ []

abbrev after_two_items : RingBuffer
after_two_items = record (ring_of 2) {
  items = 5 ∷ 6 ∷ [];
  head = 1;
  tail = 2;
  accepted = 5 ∷ 6 ∷ [];
  delivered = 5 ∷ [];
}

two_items_run : run_steps take_step two_items (ring_of 2) ≡ some after_two_items
unfolding run_steps take_step
two_items_run = refl

two_items-IsCounted : Along IsCounted take_step two_items (ring_of 2)
unfolding take_step
two_items-IsCounted = (
  omega arith,
  (
    omega arith,
    (
      omega arith,
      (
        omega arith,
        (
          omega arith,
          (
            omega arith,
            (
              omega arith,
              (
                omega arith,
                (
                  omega arith,
                  (
                    omega arith,
                    (
                      omega arith,
                      (
                        omega arith,
                        (
                          omega arith,
                          (
                            omega arith,
                            (omega arith, (omega arith, (omega arith, (omega arith, omega arith)))),
                          ),
                        ),
                      ),
                    ),
                  ),
                ),
              ),
            ),
          ),
        ),
      ),
    ),
  ),
)

run_steps-fifo_example :
    (after_two_items.delivered ≡ take 1 after_two_items.accepted) × (2 ≤ 1 + 2 ^ 1)
run_steps-fifo_example =
    run_steps-fifo 1 two_items after_two_items (omega arith) two_items-IsCounted two_items_run
