-- ===== src/Concurrency/Ring.antt =====
-- `RingBuffer` of internal/concurrency/ring.go with one producer and one consumer, which it is said to
-- be safe for: each atomic load and store and each access to the array is one step, and the steps of
-- the two come in any order. Items are numbers that name them; a uint64 is a number below 2 ^ 64.
pub mod Fifo
mod Examples
mod Stored
use hioload_ws.Prelude.{
  ◌++◌, ◌-◌, ◌==◌, ◌||◌, ◌∷◌, Bool, List, Option, [], bit_and, false, get_elem?, if◌then◌else◌, leb,
  length, none, replicate, set, some, true, zero, ℕ,
}
use hioload_ws.Concurrency.Queue.{add_uint64, dif}

-- `Enqueue` of an item: not called, with `head` loaded, with both loaded, past its test, with the item
-- written.
pub data Producer : Type 0 where
  ready : Producer
  has_head : ℕ → ℕ → Producer
  has_tail : ℕ → ℕ → ℕ → Producer
  reserved written : ℕ → ℕ → Producer

-- `Dequeue`: not called, with `head` loaded, with both loaded, past its test, with the item read.
pub data Consumer : Type 0 where
  idle : Consumer
  got_head taking : ℕ → Consumer
  got_tail took : ℕ → ℕ → Consumer

-- `accepted` are the items of the calls of `Enqueue` that stored `tail`, `delivered` what the calls of
-- `Dequeue` that stored `head` return.
pub record RingBuffer : Type 0 where
  pub items : List ℕ
  pub mask : ℕ
  pub head : ℕ
  pub tail : ℕ
  pub producer : Producer
  pub consumer : Consumer
  pub accepted : List ℕ
  pub delivered : List ℕ

abbrev pub ring_of : ℕ → RingBuffer
ring_of size = record {
  items = replicate size 0;
  mask = size - 1;
  head = 0;
  tail = 0;
  producer = ready;
  consumer = idle;
  accepted = [];
  delivered = [];
}

-- `NewRingBuffer`; `none` is its panic.
unfoldable pub new_ring_buffer : ℕ → Option RingBuffer
new_ring_buffer size =
    if (size == 0) || (if bit_and size (size - 1) == 0 then false else true)
    then none
    else some (ring_of size)

-- A call of `Enqueue` up to its first load, and the rest of it.
abbrev pub begin_enqueue : ℕ → RingBuffer → Producer → Option RingBuffer
begin_enqueue v s ready = some (record s { producer = has_head v s.head })
begin_enqueue v s (has_head w h) = none
begin_enqueue v s (has_tail w h t) = none
begin_enqueue v s (reserved w t) = none
begin_enqueue v s (written w t) = none

abbrev pub produce : RingBuffer → Producer → Option RingBuffer
produce s ready = none
produce s (has_head v h) = some (record s { producer = has_tail v h s.tail })
produce s (has_tail v h t) =
    some (record s { producer = if leb (length s.items) (dif t h) then ready else reserved v t })
produce s (reserved v t) =
    some (record s { items = set s.items (bit_and t s.mask) v; producer = written v t })
produce s (written v t) =
    some (record s { tail = add_uint64 t 1; producer = ready; accepted = s.accepted ++ (v ∷ []) })

-- The read of the array, and its panic out of range.
abbrev pub take_item : RingBuffer → ℕ → Option ℕ → Option RingBuffer
take_item s h none = none
take_item s h (some x) = some (record s { consumer = took h x })

abbrev pub consume : RingBuffer → Consumer → Option RingBuffer
consume s idle = some (record s { consumer = got_head s.head })
consume s (got_head h) = some (record s { consumer = got_tail h s.tail })
consume s (got_tail h t) = some (record s { consumer = if leb t h then idle else taking h })
consume s (taking h) = take_item s h (get_elem? s.items (bit_and h s.mask))
consume s (took h x) =
    some (record s { head = add_uint64 h 1; consumer = idle; delivered = s.delivered ++ (x ∷ []) })

-- `Len` and `Cap`
abbrev pub ring_len : RingBuffer → ℕ
ring_len s = dif s.tail s.head

abbrev pub ring_cap : RingBuffer → ℕ
ring_cap s = length s.items

pub data Step : Type 0 where
  enqueues : ℕ → Step
  produces consumes : Step

unfoldable pub take_step : Step → RingBuffer → Option RingBuffer
take_step (enqueues v) s = begin_enqueue v s s.producer
take_step produces s = produce s s.producer
take_step consumes s = consume s s.consumer
