-- ===== src/Pool/Slab.antt =====
-- `slabPool` of pool/slab_pool.go with the allocator of pool/bufferpool_linux.go: buffers of one size,
-- recycled through a `LockFreeQueue`. One caller at a time; `fuel` is that of the queue's loops.
pub mod Recycle
pub mod Client
use hioload_ws.Prelude.{
  ◌||◌, ◌∷◌, Bool, List, Option, [], false, if◌then◌else◌, none, not, replicate, some, suc, true,
  zero, ℕ,
}
use hioload_ws.Prelude.Int.{ltb_ℤ, pos, ℤ}
use hioload_ws.Api.Buffer.{Buffer}
use hioload_ws.Concurrency.Queue.{
  LockFreeQueue, Outcome, add_uint64, dequeue, dif, done, enqueue, new_lock_free_queue,
  out_of_range, spins,
}

-- `counts` of a `numaMap`
abbrev pub NumaMap : Type 0
NumaMap = List (ℤ × ℕ)

pub record SlabPool : Type 0 where
  pub size : ℕ
  pub queue : LockFreeQueue Buffer
  pub total_alloc : ℕ
  pub total_free : ℕ
  pub numa_stats : Option NumaMap

abbrev pub default_pool_capacity : ℤ
default_pool_capacity = pos 4096

abbrev pub same_node : ℤ → ℤ → Bool
same_node a b = not (ltb_ℤ a b || ltb_ℤ b a)

-- `numaMap.record`: `counts[n]++`
unfoldable pub record_node : ℤ → NumaMap → NumaMap
record_node n [] = (n, 1) ∷ []
record_node n ((m, count) ∷ counts) =
    if same_node n m then (m, add_uint64 count 1) ∷ counts else (m, count) ∷ record_node n counts

abbrev pub counts_of : Option NumaMap → NumaMap
counts_of none = []
counts_of (some counts) = counts

-- `linuxAlloc`
unfoldable pub linux_alloc : ℕ → ℤ → Buffer
linux_alloc sz numa_node = record {
  bytes = some (replicate sz 0);
  numa = numa_node;
  pool = false;
  class_size = pos 0;
}

abbrev pub zero_buffer : Buffer
zero_buffer = record { bytes = none; numa = pos 0; pool = false; class_size = pos 0 }

abbrev pub with_queue : ℕ → Outcome (LockFreeQueue Buffer) → Outcome SlabPool
with_queue size (done q) =
    done (record { size = size; queue = q; total_alloc = 0; total_free = 0; numa_stats = none })
with_queue size out_of_range = out_of_range
with_queue size spins = spins

-- `newSlabPool`
unfoldable pub new_slab_pool : ℕ → Outcome SlabPool
new_slab_pool size = with_queue size (new_lock_free_queue zero_buffer default_pool_capacity)

-- The part of `Get` behind an empty queue.
unfoldable pub allocate : SlabPool → ℤ → SlabPool × Buffer
allocate sp numa_node = (
  record sp {
    total_alloc = add_uint64 sp.total_alloc 1;
    numa_stats = some (record_node numa_node (counts_of sp.numa_stats));
  },
  record (linux_alloc sp.size numa_node) { pool = true; class_size = pos sp.size },
)

abbrev pub or_allocate :
    SlabPool → ℤ → Outcome (LockFreeQueue Buffer × Option Buffer) → Outcome (SlabPool × Buffer)
or_allocate sp numa_node (done (q, some b)) = done (record sp { queue = q }, b)
or_allocate sp numa_node (done (q, none)) = done (allocate (record sp { queue = q }) numa_node)
or_allocate sp numa_node out_of_range = out_of_range
or_allocate sp numa_node spins = spins

-- `Get`: the size asked for is not used.
unfoldable pub get_buffer : ℕ → SlabPool → ℕ → ℤ → Outcome (SlabPool × Buffer)
get_buffer fuel sp asked numa_node = or_allocate sp numa_node (dequeue fuel sp.queue)

abbrev pub or_release : SlabPool → Outcome (LockFreeQueue Buffer × Bool) → Outcome SlabPool
or_release sp (done (q, true)) =
    done (record sp { queue = q; total_free = add_uint64 sp.total_free 1 })
or_release sp (done (q, false)) = done (record sp { queue = q })
or_release sp out_of_range = out_of_range
or_release sp spins = spins

-- `Put`; `linuxRelease` of a buffer that finds no room does nothing.
unfoldable pub put_buffer : ℕ → SlabPool → Buffer → Outcome SlabPool
put_buffer fuel sp b = or_release sp (enqueue fuel sp.queue b)

-- `InUse` of `Stats`, as the bit pattern of an int64.
unfoldable pub in_use : SlabPool → ℕ
in_use sp = dif sp.total_alloc sp.total_free
