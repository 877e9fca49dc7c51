-- ===== src/Pool/Slab/Recycle.antt =====
-- A slab pool recycles buffers in the order they came back.
use native.Mathlib.Nat.{one-le-pow}
use hioload_ws.Prelude.{
  ◌++◌, ◌<◌, ◌^◌, ◌∙◌, ◌∷◌, ◌≡◌, All, Bool, List, [], ap, arith, length, length-replicate, refl,
  replicate, some, subst, suc, ℕ,
}
use hioload_ws.Prelude.Int.{ℤ}
use hioload_ws.Api.Buffer.{Buffer}
use hioload_ws.Concurrency.Queue.{add_uint64, done}
use hioload_ws.Concurrency.Queue.Contents.{Queues}
use hioload_ws.Concurrency.Queue.Fifo.{dequeue-fifo, enqueue-fifo, fifo_enqueue-room}
use hioload_ws.Pool.Slab.{
  SlabPool, allocate, get_buffer, in_use, linux_alloc, or_allocate, or_release, put_buffer,
}

-- The pool keeps `bs` for reuse, in `2 ^ k` places.
abbrev pub Keeps : SlabPool → List Buffer → ℕ → Type 0
Keeps sp bs k = Queues sp.queue bs k

pub get_buffer-kept :
    (fuel : ℕ) (sp : SlabPool) (b : Buffer) (bs : List Buffer) (k asked : ℕ) (node : ℤ)
    → Keeps sp (b ∷ bs) k
    → (sp' : SlabPool) × (get_buffer (suc fuel) sp asked node ≡ done (sp', b))
      × Keeps sp' bs k
      × (in_use sp' ≡ in_use sp)
      × (sp'.size ≡ sp.size)
unfolding get_buffer in_use
get_buffer-kept fuel sp b bs k asked node r =
    let (q, e, r') = dequeue-fifo fuel sp.queue (b ∷ bs) k r in
    (record sp { queue = q }, ap (or_allocate sp node) e, r', refl, refl)

pub get_buffer-new :
    (fuel : ℕ) (sp : SlabPool) (k asked : ℕ) (node : ℤ)
    → Keeps sp [] k
    → (sp' : SlabPool) × (b : Buffer) × (get_buffer (suc fuel) sp asked node ≡ done (sp', b))
      × Keeps sp' [] k
      × (b.bytes ≡ some (replicate sp.size 0))
      × (in_use sp' ≡ add_uint64 (in_use sp) 1)
      × (sp'.size ≡ sp.size)
unfolding get_buffer allocate linux_alloc in_use
get_buffer-new fuel sp k asked node r =
    let (q, e, r') = dequeue-fifo fuel sp.queue [] k r in
    (
      (allocate (record sp { queue = q }) node).0,
      (allocate (record sp { queue = q }) node).1,
      ap (or_allocate sp node) e,
      r',
      refl,
      omega arith,
      refl,
    )

pub put_buffer-room :
    (fuel : ℕ) (sp : SlabPool) (b : Buffer) (bs : List Buffer) (k : ℕ)
    → Keeps sp bs k
    → length bs < 2 ^ k
    → sp.total_free < 2 ^ 64
    → (sp' : SlabPool) × (put_buffer (suc fuel) sp b ≡ done sp')
      × Keeps sp' (bs ++ (b ∷ [])) k
      × (add_uint64 (in_use sp') 1 ≡ in_use sp)
      × (sp'.size ≡ sp.size)
unfolding put_buffer in_use
put_buffer-room fuel sp b bs k r room counted =
    let (q, e, r') = enqueue-fifo fuel sp.queue bs k b r in
    let grown = fifo_enqueue-room (2 ^ k) bs b room in
    (
      record sp { queue = q; total_free = add_uint64 sp.total_free 1 },
      ap (or_release sp) (e ∙ ap (λ (p : List Buffer × Bool). done (q, p.1)) grown),
      subst (λ (p : List Buffer × Bool). Queues q p.0 k) grown r',
      omega (arith, counted),
      refl,
    )

-- A buffer put into a pool that keeps none is what the next `Get` returns, whatever its length and
-- whatever the size asked for. The buffer is out again, yet `InUse` is one less than before.
pub put_buffer-get_buffer :
    (fuel : ℕ) (sp : SlabPool) (b : Buffer) (k asked : ℕ) (node : ℤ)
    → Keeps sp [] k
    → sp.total_free < 2 ^ 64
    → (sp' : SlabPool) × (sp'' : SlabPool) × (put_buffer (suc fuel) sp b ≡ done sp')
      × (get_buffer (suc fuel) sp' asked node ≡ done (sp'', b))
      × Keeps sp'' [] k
      × (add_uint64 (in_use sp'') 1 ≡ in_use sp)
put_buffer-get_buffer fuel sp b k asked node r counted =
    let (sp', e, r', i, _) =
      put_buffer-room fuel sp b [] k r (one-le-pow k 2 (omega arith)) counted in
    let (sp'', e', r'', i', _) = get_buffer-kept fuel sp' b [] k asked node r' in
    (sp', sp'', e, e', r'', ap (λ (n : ℕ). add_uint64 n 1) i' ∙ i)

-- A buffer with all the bytes of its pool's size.
abbrev pub IsWhole : ℕ → Buffer → Type 0
IsWhole size b = (bs : List ℕ) × (b.bytes ≡ some bs) × (length bs ≡ size)

-- As long as the kept buffers are whole, `Get` returns a whole buffer, and those that stay are whole.
pub get_buffer-IsWhole :
    (fuel : ℕ) (sp : SlabPool) (bs : List Buffer) (k asked : ℕ) (node : ℤ)
    → Keeps sp bs k
    → All (IsWhole sp.size) bs
    → (sp' : SlabPool) × (b : Buffer) × (bs' : List Buffer) × (get_buffer (suc fuel) sp asked node
        ≡ done (sp', b))
      × Keeps sp' bs' k
      × All (IsWhole sp.size) bs'
      × IsWhole sp.size b
      × (sp'.size ≡ sp.size)
get_buffer-IsWhole fuel sp [] k asked node r whole =
    let (sp', b, e, r', full, i, s) = get_buffer-new fuel sp k asked node r in
    (sp', b, [], e, r', tt, (replicate sp.size 0, full, length-replicate {A = ℕ} sp.size 0), s)
get_buffer-IsWhole fuel sp (b ∷ bs) k asked node r whole =
    let (sp', e, r', i, s) = get_buffer-kept fuel sp b bs k asked node r in
    (sp', b, bs, e, r', whole.1, whole.0, s)
