-- ===== src/Executor/State.antt =====
-- The state of an executor and NewExecutor, of core/concurrency/executor.go.
-- Where the goroutine of a worker is: at its first select, past it, at the second select, gone.
use hioload_ws.Prelude.{replicate}
use Prim.Native.Nat.{zero}
use hioload_ws.Prelude.{true, ◌*◌, ◌*◌, ◌∷◌, ◌∷◌}
use hioload_ws.Prelude.{[], false, suc}
use hioload_ws.Prelude.{Bool, List, ℕ}

pub data WorkerPlace : Type 0 where
  selecting dequeuing selecting_global exited : WorkerPlace

-- `local_queue` is the address of its queue; `stop` tells that `stopCh` is closed.
pub record Worker : Type 0 where
  pub local_queue : ℕ
  pub stop : Bool
  pub place : WorkerPlace

-- `manageResizes`: it waits for a request, has one and waits for the mutex, or has the mutex and waits
-- for the workers behind the first ones to exit.
pub data Manager : Type 0 where
  awaiting : Manager
  requested removing : ℕ → Manager

-- `Close`: not called, past the closing of the channels, past the mutex.
pub data Closer : Type 0 where
  is_open closing stopped : Closer

-- A call of `Submit`: it saw the executor open, has the index, has the address of the queue, or was
-- refused by that queue because it is full.
pub data Call : Type 0 where
  tested refused : ℕ → Call
  indexed holding : ℕ → ℕ → Call

-- `queues` are all the queues that were ever created, each at its address, which is its index;
-- `local_queues` are the addresses in the slice of that name, from which a resize cuts queues off.
-- `calls` are the calls of `Submit` under way; `accepted` the tasks for which `Submit` returned nil and
-- `executed` those that were run. `panicked` tells that a goroutine closed a closed channel, sent on
-- one, or read a slice out of its bounds, which ends the program.
pub record Executor : Type 0 where
  pub global_queue : List ℕ
  pub global_capacity : ℕ
  pub queues : List (List ℕ)
  pub local_queues : List ℕ
  pub workers : List Worker
  pub manager : Manager
  pub closer : Closer
  pub calls : List Call
  pub accepted : List ℕ
  pub executed : List ℕ
  pub panicked : Bool

abbrev pub local_capacity : ℕ
local_capacity = 1024

-- `n` workers, and their queues, at the addresses from `a` on.
abbrev pub new_worker : ℕ → Worker
new_worker a = record { local_queue = a; stop = false; place = selecting }

abbrev pub new_workers : ℕ → ℕ → List Worker
new_workers a zero = []
new_workers a (suc n) = new_worker a ∷ new_workers (suc a) n

abbrev pub addresses : ℕ → ℕ → List ℕ
addresses a zero = []
addresses a (suc n) = a ∷ addresses (suc a) n

abbrev pub executor_of : ℕ → Executor
executor_of n = record {
  global_queue = [];
  global_capacity = n * 4;
  queues = replicate n [];
  local_queues = addresses 0 n;
  workers = new_workers 0 n;
  manager = awaiting;
  closer = is_open;
  calls = [];
  accepted = [];
  executed = [];
  panicked = false;
}

-- `num_cpu` is what the runtime reports; it replaces a count that is not positive.
abbrev pub new_executor : ℕ → ℕ → Executor
new_executor num_cpu zero = executor_of num_cpu
new_executor num_cpu (suc n) = executor_of (suc n)

abbrev pub is_closed : Closer → Bool
is_closed is_open = false
is_closed closing = true
is_closed stopped = true
