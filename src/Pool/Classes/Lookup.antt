-- ===== src/Pool/Classes/Lookup.antt =====
-- The manager makes one pool for each node and class.
use hioload_ws.Prelude.{
  ◌∙◌, ◌∷◌, ◌≡◌, ◌⊎◌, Option-cases, [], ap, arith, inl, inr, none, refl, some, ℕ,
}
use hioload_ws.Concurrency.Queue.{done}
use hioload_ws.Concurrency.Queue.New.{new_lock_free_queue_lem}
use hioload_ws.Pool.Classes.{NodePools, add_pool, get_or_create_pool, lookup, or_create}
use hioload_ws.Pool.Slab.{SlabPool, default_pool_capacity, new_slab_pool, with_queue, zero_buffer}
use hioload_ws.Pool.Slab.Recycle.{Keeps}

-- The pool of a class, as a state that keeps no buffer.
new_slab_pool_lem :
    (c : ℕ)
    → (sp : SlabPool) × (k : ℕ) × (new_slab_pool c ≡ done sp) × Keeps sp [] k × (sp.size ≡ c)
unfolding new_slab_pool
new_slab_pool_lem c =
    let (q, k, e, r, _, _) =
      new_lock_free_queue_lem zero_buffer default_pool_capacity (omega arith) in
    (
      record { size = c; queue = q; total_alloc = 0; total_free = 0; numa_stats = none },
      k,
      ap (with_queue c) e,
      r,
      refl,
    )

lookup-first : (c : ℕ) (sp : SlabPool) (pools : NodePools) → lookup c ((c, sp) ∷ pools) ≡ some sp
lookup-first c sp pools = ground arith

-- The step of `get_or_create_pool` by what the map holds.
get_or_create_pool-some :
    (c : ℕ) (pools : NodePools) (sp : SlabPool)
    → lookup c pools ≡ some sp
    → get_or_create_pool c pools ≡ done pools
unfolding get_or_create_pool
get_or_create_pool-some c pools sp e = ap (or_create c pools) e

get_or_create_pool-none :
    (c : ℕ) (pools : NodePools)
    → lookup c pools ≡ none
    → get_or_create_pool c pools ≡ add_pool c pools (new_slab_pool c)
unfolding get_or_create_pool
get_or_create_pool-none c pools e = ap (or_create c pools) e

-- `getOrCreatePool` leaves a pool under its class; where there was none, the pool is new: it keeps no
-- buffer and is of the class's size. A second call changes nothing.
pub get_or_create_pool_lem :
    (c : ℕ) (pools : NodePools)
    → (pools' : NodePools) × (sp : SlabPool) × (get_or_create_pool c pools ≡ done pools')
      × (lookup c pools' ≡ some sp)
      × ((lookup c pools ≡ some sp) ⊎ ((k : ℕ) × Keeps sp [] k × (sp.size ≡ c)))
      × (get_or_create_pool c pools' ≡ done pools')
get_or_create_pool_lem c pools = elim (Option-cases (lookup c pools)) [
  | inl missing ↦
      let (sp, k, e, r, s) = new_slab_pool_lem c in
      (
        (c, sp) ∷ pools,
        sp,
        get_or_create_pool-none c pools missing ∙ ap (add_pool c pools) e,
        lookup-first c sp pools,
        inr (k, r, s),
        get_or_create_pool-some c ((c, sp) ∷ pools) sp (lookup-first c sp pools),
      )
  | inr (sp, found) ↦ (
    pools,
    sp,
    get_or_create_pool-some c pools sp found,
    found,
    inl found,
    get_or_create_pool-some c pools sp found,
  )
]
