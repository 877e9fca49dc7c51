-- ===== src/Pool/Slab/Client.antt =====
-- A slab pool behind the `BufferPool` interface of api/buffer.go.
use hioload_ws.Prelude.{◌∙◌, ◌≡◌, All, List, arith, subst, sym, ℕ}
use hioload_ws.Prelude.Int.{negsuc}
use hioload_ws.Api.Buffer.{Buffer, BufferPool, IsRoomy}
use hioload_ws.Concurrency.Queue.{done}
use hioload_ws.Pool.Slab.{SlabPool, get_buffer}
use hioload_ws.Pool.Slab.Recycle.{IsWhole, Keeps, get_buffer-IsWhole}

-- The states of a pool of size `size` that keeps whole buffers only.
abbrev pub WholeSlab : ℕ → Type 0
WholeSlab size =
    (sp : SlabPool) × (bs : List Buffer) × (k : ℕ) × Keeps sp bs k
    × All (IsWhole size) bs
    × (sp.size ≡ size)

-- `Get(asked, -1)`: what it returns, the pool afterwards, and that the buffer is whole.
pub get_whole_lem :
    (size asked : ℕ) (s : WholeSlab size)
    → (b : Buffer) × (s' : WholeSlab size) × (get_buffer 1 s.0 asked (negsuc 0) ≡ done (s'.0, b))
      × IsWhole size b
get_whole_lem size asked (sp, bs, k, r, whole, e) =
    let (sp', b, bs', got, r', whole', one, e') =
      get_buffer-IsWhole 0 sp bs k asked (negsuc 0) r
        (subst (λ (n : ℕ). All (IsWhole n) bs) (sym e) whole) in
    (
      b,
      (sp', bs', k, r', subst (λ (n : ℕ). All (IsWhole n) bs') e whole', e' ∙ e),
      got,
      subst (λ (n : ℕ). IsWhole n b) e one,
    )

-- The pool with these states, whose `get` is `get_buffer`.
abbrev pub slab_buffers : ℕ → BufferPool
slab_buffers size = record {
  State = WholeSlab size;
  get = λ asked s. let (b, s', got, whole) = get_whole_lem size asked s in (b, s');
}

-- What the connection asks of its pool holds for a slab pool of the limit's size, as long as the
-- buffers that come back are whole.
pub slab_buffers-IsRoomy : (size : ℕ) → IsRoomy (slab_buffers size) size
slab_buffers-IsRoomy size = record {
  room = λ n s h.
      let (b, s', got, whole) = get_whole_lem size n s in
      (whole.0, whole.1, omega (arith, whole.2));
}
