-- ===== src/Concurrency/Queue/Examples.antt =====
-- Queues of a few cells, and the theorems at them.
use hioload_ws.Prelude.{◌*◌, ◌<◌, ◌^◌, ◌∷◌, ◌≡◌, ◌≤◌, [], arith, ℕ}
use hioload_ws.Prelude.Int.{pos}
use hioload_ws.Concurrency.Queue.{LockFreeQueue, cells_from, done, new_lock_free_queue}
use hioload_ws.Concurrency.Queue.Contents.{Queues}
use hioload_ws.Concurrency.Queue.New.{at_least_two, cells_from-Holds}
use hioload_ws.Concurrency.Queue.Runs.{put, run, run-run_fifo, run_fifo, take_one}

-- Two cells, asked for three.
run-run_fifo_example :
    (q : LockFreeQueue ℕ) × (k : ℕ) × (new_lock_free_queue 0 (pos 3) ≡ done q)
    × (at_least_two (pos 3) ≤ 2 ^ k)
    × (2 ^ k < 2 * at_least_two (pos 3))
    × (run 1 q (put 7 ∷ put 8 ∷ take_one ∷ [])
        ≡ done (run_fifo (2 ^ k) [] (put 7 ∷ put 8 ∷ take_one ∷ [])))
run-run_fifo_example = run-run_fifo 0 0 (pos 3) (put 7 ∷ put 8 ∷ take_one ∷ []) (omega arith)

abbrev two_cells : LockFreeQueue ℕ
two_cells = record { head = 0; tail = 0; mask = 1; cells = cells_from 0 0 2 }

two_cells-Queues : Queues two_cells [] 1
two_cells-Queues = (0, cells_from-Holds 0 1 (omega arith) (omega arith))
