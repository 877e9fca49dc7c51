-- ===== src/Pool/Classes.antt =====
-- `BufferPoolManager` of pool/bufferpool.go: a slab pool for each NUMA node and size class, made when
use hioload_ws.Prelude.{
  ◌*◌, ◌==◌, ◌∷◌, ◌≡◌, ◌≤◌, ◌⊎◌, All, Bool, List, Option, [], false, get_elem?, if◌then◌else◌, none,
  not, refl, replicate, set, some, suc, true, zero, ℕ,
}
use hioload_ws.Prelude.Int.{◌≤ℤ◌, ltb_ℤ, pos, pos_part, ℤ}
use hioload_ws.Concurrency.Queue.{Outcome, done, out_of_range, spins}
use hioload_ws.Normalize.{numa_node_auto}
use hioload_ws.Pool.Slab.{SlabPool, new_slab_pool}
pub mod Bounds
pub mod Lookup

-- it is first asked for. The pools stay in the manager, and `get_pool` gives the place of one.

abbrev pub size_classes : List ℕ
size_classes =
    2 * 1024
    ∷ 4 * 1024
    ∷ 8 * 1024
    ∷ 16 * 1024
    ∷ 32 * 1024
    ∷ 64 * 1024
    ∷ 128 * 1024
    ∷ 256 * 1024
    ∷ 512 * 1024
    ∷ 1024 * 1024
    ∷ []

-- The loop of `sizeClassUpperBound`, with what is returned behind it.
abbrev pub first_class : ℤ → List ℕ → ℕ → ℕ
first_class size [] biggest = biggest
first_class size (c ∷ cs) biggest =
    if not (ltb_ℤ (pos c) size) then c else first_class size cs biggest

-- `sizeClassUpperBound`
unfoldable pub size_class_upper_bound : ℤ → ℕ
size_class_upper_bound size = first_class size size_classes (1024 * 1024)

-- The pools of one node: a map from size class to pool.
abbrev pub NodePools : Type 0
NodePools = List (ℕ × SlabPool)

abbrev pub lookup : ℕ → NodePools → Option SlabPool
lookup c [] = none
lookup c ((c', sp) ∷ pools) = if c == c' then some sp else lookup c pools

abbrev pub add_pool : ℕ → NodePools → Outcome SlabPool → Outcome NodePools
add_pool c pools (done sp) = done ((c, sp) ∷ pools)
add_pool c pools out_of_range = out_of_range
add_pool c pools spins = spins

abbrev pub or_create : ℕ → NodePools → Option SlabPool → Outcome NodePools
or_create c pools (some sp) = done pools
or_create c pools none = add_pool c pools (new_slab_pool c)

-- `getOrCreatePool`, one caller at a time: the map afterwards.
unfoldable pub get_or_create_pool : ℕ → NodePools → Outcome NodePools
get_or_create_pool c pools = or_create c pools (lookup c pools)

-- `NewBufferPoolManager`
abbrev pub new_buffer_pool_manager : ℕ → List NodePools
new_buffer_pool_manager node_cnt = replicate node_cnt []

abbrev pub with_node : List NodePools → ℕ → ℕ → Outcome NodePools → Outcome (List NodePools × ℕ × ℕ)
with_node nodes node c (done pools) = done (set nodes node pools, node, c)
with_node nodes node c out_of_range = out_of_range
with_node nodes node c spins = spins

-- `GetPool`: the manager afterwards, and the node and size class of the pool it gives. The number of
-- nodes that the system reports and the current node are parameters, as in `numa_node_auto`.
unfoldable pub get_pool : ℤ → ℤ → List NodePools → ℤ → ℤ → Outcome (List NodePools × ℕ × ℕ)
get_pool cnt current nodes size preferred =
    let node = pos_part (numa_node_auto cnt current preferred) in
    let c = size_class_upper_bound size in
    elim (get_elem? nodes node) [
      | none ↦ out_of_range
      | some pools ↦ with_node nodes node c (get_or_create_pool c pools)
    ]
