-- ===== src/Pool/Examples.antt =====
-- A pool of four-byte buffers, and the theorems on pools at concrete inputs.
use hioload_ws.Prelude.{◌∷◌, ◌≡◌, [], arith, some, true}
use hioload_ws.Prelude.Int.{negsuc, pos}
use hioload_ws.Api.Buffer.{Buffer}
use hioload_ws.Concurrency.Queue.{add_uint64, cells_from, done}
use hioload_ws.Concurrency.Queue.New.{cells_from-Holds}
use hioload_ws.Pool.Slab.{SlabPool, get_buffer, in_use, put_buffer, zero_buffer}
use hioload_ws.Pool.Slab.Recycle.{Keeps, put_buffer-get_buffer}

abbrev small_pool : SlabPool
small_pool = record {
  size = 4;
  queue = record { head = 0; tail = 0; mask = 1; cells = cells_from zero_buffer 0 2 };
  total_alloc = 1;
  total_free = 0;
  numa_stats = some ((pos 0, 1) ∷ []);
}

small_pool-Keeps : Keeps small_pool [] 1
small_pool-Keeps = (0, cells_from-Holds zero_buffer 1 (omega arith) (omega arith))

-- What is left of a four-byte buffer after `Slice(0, 2)`.
abbrev half_buffer : Buffer
half_buffer = record {
  bytes = some (104 ∷ 105 ∷ []);
  numa = pos 0;
  pool = true;
  class_size = pos 4;
}

put_buffer-get_buffer_example :
    (sp' : SlabPool) × (sp'' : SlabPool) × (put_buffer 1 small_pool half_buffer ≡ done sp')
    × (get_buffer 1 sp' 4 (negsuc 0) ≡ done (sp'', half_buffer))
    × Keeps sp'' [] 1
    × (add_uint64 (in_use sp'') 1 ≡ in_use small_pool)
put_buffer-get_buffer_example =
    put_buffer-get_buffer 0 small_pool half_buffer 1 4 (negsuc 0) small_pool-Keeps (omega arith)
