-- ===== src/Executor/Submit.antt =====
-- `Submit` of core/concurrency/executor.go. It takes no lock: the executor can change between the test
-- of `closed`, the computation of the index, the load of the queue and the sends.
-- The test of `closed`; a call that it refuses leaves no trace.
use Prim.Native.Nat.{zero}
use hioload_ws.Prelude.{[], get_elem?, set, suc, ◌%◌, ◌%◌}
use hioload_ws.Prelude.{◌++◌, ◌++◌, ◌==◌, ◌==◌, ◌∷◌, ◌∷◌}
use hioload_ws.Executor.State.{holding, indexed, local_capacity}
use hioload_ws.Executor.State.{is_closed, refused, tested}
use hioload_ws.Prelude.{length, ltb, none, some, true}
use hioload_ws.Prelude.{List, Option, if◌then◌else◌, if◌then◌else◌}
use hioload_ws.Executor.State.{Call, Executor}
use hioload_ws.Prelude.{ℕ}

abbrev pub check_open : ℕ → Executor → Executor
check_open task s = if is_closed s.closer then s else record s { calls = tested task ∷ s.calls }

-- The index by the clock; the remainder by zero is a panic.
abbrev pub compute_index : ℕ → ℕ → Executor → Executor
compute_index task now s =
    if length s.local_queues == 0
    then record s { panicked = true }
    else record s { calls = indexed task (now % length s.local_queues) ∷ s.calls }

-- `e.localQueues[idx]`, of the slice as it is by now.
abbrev pub load_queue : ℕ → Executor → Option ℕ → Executor
load_queue task s none = record s { panicked = true }
load_queue task s (some a) = record s { calls = holding task a ∷ s.calls }

-- `Enqueue` in the queue at address `a`, whether it is still a local queue or not; there is no address
-- without a queue.
abbrev pub enqueue_at : ℕ → ℕ → Executor → Option (List ℕ) → Option Executor
enqueue_at task a s none = none
enqueue_at task a s (some q) = some (
    if ltb (length q) local_capacity
    then record s {
      queues = set s.queues a (q ++ (task ∷ []));
      accepted = s.accepted ++ (task ∷ []);
    }
    else record s { calls = refused task ∷ s.calls })

-- The select that sends to the global queue if it can.
abbrev pub submit_global : ℕ → Executor → Executor
submit_global task s =
    if ltb (length s.global_queue) s.global_capacity
    then record s {
      global_queue = s.global_queue ++ (task ∷ []);
      accepted = s.accepted ++ (task ∷ []);
    }
    else s

-- The next step of a call, which is no longer in `calls`, at the time `now`.
abbrev pub advance_call : ℕ → Executor → Call → Option Executor
advance_call now s (tested task) = some (compute_index task now s)
advance_call now s (indexed task idx) = some (load_queue task s (get_elem? s.local_queues idx))
advance_call now s (holding task a) = enqueue_at task a s (get_elem? s.queues a)
advance_call now s (refused task) = some (submit_global task s)

-- The select that sees `closeCh`, which can come although the global queue has room.
abbrev pub give_up : Executor → Call → Option Executor
give_up s (refused task) = if is_closed s.closer then some s else none
give_up s (tested task) = none
give_up s (indexed task idx) = none
give_up s (holding task a) = none

-- The calls go on in any order: the next is the one at `i`.
abbrev pub pick_then : {A : Type 0} → A → Option (A × List A) → Option (A × List A)
pick_then c none = none
pick_then c (some (d, rest)) = some (d, c ∷ rest)

abbrev pub pick : {A : Type 0} → ℕ → List A → Option (A × List A)
pick i [] = none
pick zero (c ∷ cs) = some (c, cs)
pick (suc i) (c ∷ cs) = pick_then c (pick i cs)

abbrev pub advance_picked : ℕ → Executor → Option (Call × List Call) → Option Executor
advance_picked now s none = none
advance_picked now s (some (c, rest)) = advance_call now (record s { calls = rest }) c

abbrev pub give_up_picked : Executor → Option (Call × List Call) → Option Executor
give_up_picked s none = none
give_up_picked s (some (c, rest)) = give_up (record s { calls = rest }) c
