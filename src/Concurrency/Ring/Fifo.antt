-- ===== src/Concurrency/Ring/Fifo.antt =====
-- The ring buffer delivers what it accepted.
use native.Mathlib.Nat.{mod-lt, one-le-pow}
use hioload_ws.Prelude.{
  ◌%◌, ◌++◌, ◌+◌, ◌-◌, ◌<◌, ◌^◌, ◌∙◌, ◌∷◌, ◌≡◌, ◌≤◌, Along, List, OnSome, [], ap, arith, bit_and,
  false, get_elem?, get_elem?-set_self, get_elem?-some, if_cases, if◌then◌else◌, leb, length,
  length-append, length-replicate, refl, run_steps, run_steps-along, set, some, subst, sym, take, ℕ,
}
use hioload_ws.Prelude.Mod.{bit_and-mask}
use hioload_ws.Concurrency.Queue.{add_uint64, dif}
use hioload_ws.Concurrency.Ring.{
  Consumer, Producer, RingBuffer, Step, begin_enqueue, consume, consumes, enqueues, got_head,
  got_tail, has_head, has_tail, idle, produce, produces, ready, reserved, ring_of, take_item,
  take_step, taking, took, written,
}
use hioload_ws.Concurrency.Ring.Stored.{
  Core, ProducerOk, ConsumerOk, IsFifo, IsCounted, write-Core, accept-Core, deliver-Core,
  producer_later, consumer_later,
}

module _ (k : ℕ) (s : RingBuffer) (one : IsCounted s) (f : IsFifo k s) where
  abbrev Kept : RingBuffer → Type 0
  Kept s' = IsCounted s' → IsFifo k s'

  begin_enqueue-Kept : (v : ℕ) (p : Producer) → OnSome Kept (begin_enqueue v s p)
  begin_enqueue-Kept v ready = λ n. (f.0, omega arith, f.2, f.3, f.4)
  begin_enqueue-Kept v (has_head w h) = tt
  begin_enqueue-Kept v (has_tail w h t) = tt
  begin_enqueue-Kept v (reserved w t) = tt
  begin_enqueue-Kept v (written w t) = tt

  index : (t : ℕ) → bit_and t s.mask ≡ t % 2 ^ k
  index t = ap (bit_and t) f.3 ∙ bit_and-mask k t

  -- The test of `Enqueue`.
  test_room :
      (v h t : ℕ)
      → h ≤ s.head
      → t ≡ s.tail
      → ProducerOk k s.items s.head s.tail
          (if leb (length s.items) (dif t h) then ready else reserved v t)
  test_room v h t lo e =
      if_cases (ProducerOk k s.items s.head s.tail) (leb (length s.items) (dif t h)) (λ r. tt)
        (λ r. (e, room_left r))
    where
      room_left : leb (length s.items) (dif t h) ≡ false → s.tail < s.head + 2 ^ k
      room_left r =
          let d : dif t h ≡ t - h = omega (arith, one, f.0.tail_value, e, lo, f.0.ordered) in
          let short : dif t h < 2 ^ k = ground (arith, r, f.0.room) in
          omega (arith, d, short, lo, e, f.0.ordered)

  -- A store of `tail`.
  store_tail :
      (v t : ℕ)
      → t ≡ s.tail
      → s.tail < s.head + 2 ^ k
      → get_elem? s.items (t % 2 ^ k) ≡ some v
      → Kept
          (record s { tail = add_uint64 t 1; producer = ready; accepted = s.accepted ++ (v ∷ []) })
  store_tail v t e l g n =
      let fine : add_uint64 t 1 ≡ t + 1 =
        omega (arith, n, length-append s.accepted (v ∷ []), e, f.0.tail_value) in
      let next : add_uint64 t 1 ≡ s.tail + 1 = omega (arith, fine, e) in
      (
        subst (λ z. Core k s.items s.head z (s.accepted ++ (v ∷ [])) s.delivered) (sym fine)
            (accept-Core k s f.0 v t e l g),
        tt,
        subst (λ z. ConsumerOk s.head z (s.accepted ++ (v ∷ [])) s.consumer) (sym next)
            (consumer_later s.head s.tail v s.accepted s.consumer f.2),
        f.3,
        f.4,
      )

  produce-Kept : (p : Producer) → ProducerOk k s.items s.head s.tail p → OnSome Kept (produce s p)
  produce-Kept ready o = tt
  produce-Kept (has_head v h) o = λ n. (f.0, (o, refl), f.2, f.3, f.4)
  produce-Kept (has_tail v h t) o = λ n. (f.0, test_room v h t o.0 o.1, f.2, f.3, f.4)
  produce-Kept (reserved v t) o = λ n.
      subst (λ i. IsFifo k (record s { items = set s.items i v; producer = written v t }))
        (sym (index t))
        (
          write-Core k s f.0 v t o.0 o.1,
          (
            o.0,
            o.1,
            get_elem?-set_self s.items (t % 2 ^ k) v
                (omega (arith, f.0.room, mod-lt t {m = 2 ^ k} (one-le-pow k 2 (omega arith)))),
          ),
          f.2,
          f.3,
          f.4,
        )
  produce-Kept (written v t) o = store_tail v t o.0 o.1 o.2

  -- The read of `Dequeue`.
  take_item-Kept :
      (h : ℕ)
      → h ≡ s.head
      → s.head < s.tail
      → OnSome Kept (take_item s h (get_elem? s.items (bit_and h s.mask)))
  take_item-Kept h e l =
      let (x, g) = get_elem?-some s.accepted h (omega (arith, e, l, f.0.tail_value)) in
      let found : get_elem? s.items (bit_and h s.mask) ≡ some x =
        ap (get_elem? s.items) (index h) ∙ f.0.stored h x (omega (arith, e)) g in
      subst (λ o. OnSome Kept (take_item s h o)) (sym found) (λ n. (f.0, f.1, (e, l, g), f.3, f.4))

  -- A store of `head`.
  store_head :
      (h x : ℕ)
      → h ≡ s.head
      → s.head < s.tail
      → get_elem? s.accepted h ≡ some x
      → Kept
          (record s { head = add_uint64 h 1; consumer = idle; delivered = s.delivered ++ (x ∷ []) })
  store_head h x e l g n =
      let fine : add_uint64 h 1 ≡ h + 1 = omega (arith, one, e, l, f.0.tail_value) in
      let next : add_uint64 h 1 ≡ s.head + 1 = omega (arith, fine, e) in
      (
        subst (λ z. Core k s.items z s.tail s.accepted (s.delivered ++ (x ∷ []))) (sym fine)
            (deliver-Core k s f.0 h x e l g),
        subst (λ z. ProducerOk k s.items z s.tail s.producer) (sym next)
            (producer_later k s.items s.head s.tail s.producer f.1),
        tt,
        f.3,
        f.4,
      )

  consume-Kept : (q : Consumer) → ConsumerOk s.head s.tail s.accepted q → OnSome Kept (consume s q)
  consume-Kept idle o = λ n. (f.0, f.1, refl, f.3, f.4)
  consume-Kept (got_head h) o = λ n. (f.0, f.1, (o, omega arith), f.3, f.4)
  consume-Kept (got_tail h t) o = λ n. (
    f.0,
    f.1,
    if_cases (ConsumerOk s.head s.tail s.accepted) (leb t h) (λ r. tt)
        (λ r. (o.0, ground (arith, r, o.0, o.1))),
    f.3,
    f.4,
  )
  consume-Kept (taking h) o = take_item-Kept h o.0 o.1
  consume-Kept (took h x) o = store_head h x o.0 o.1 o.2

take_step-Kept :
    (k : ℕ) (step : Step) (s : RingBuffer)
    → IsCounted s
    → IsFifo k s
    → OnSome (λ s'. IsCounted s' → IsFifo k s') (take_step step s)
unfolding take_step
take_step-Kept k (enqueues v) s n f = begin_enqueue-Kept k s n f v s.producer
take_step-Kept k produces s n f = produce-Kept k s n f s.producer f.1
take_step-Kept k consumes s n f = consume-Kept k s n f s.consumer f.2

-- One producer and one consumer may use the ring at once: in a ring of `2 ^ k` places, for `k` up to
-- 63, after any interleaving of the loads, stores and array accesses of the two, with fewer than
-- 2 ^ 64 items accepted, the items delivered are the first of the items accepted, in order and none
-- twice, and those that are left are at most as many as there are places.
pub run_steps-fifo :
    (k : ℕ) (steps : List Step) (s : RingBuffer)
    → k ≤ 63
    → Along IsCounted take_step steps (ring_of (2 ^ k))
    → run_steps take_step steps (ring_of (2 ^ k)) ≡ some s
    → (s.delivered ≡ take (length s.delivered) s.accepted)
      × (length s.accepted ≤ length s.delivered + 2 ^ k)
run_steps-fifo k steps s small along e =
    let f : IsFifo k s =
      run_steps-along take_step IsCounted (IsFifo k) (take_step-Kept k) steps (ring_of (2 ^ k))
        along
        (
          record {
            room = length-replicate (2 ^ k) 0;
            tail_value = refl;
            head_value = refl;
            ordered = omega arith;
            within = omega arith;
            first_ones = refl;
            stored = λ i x lo g. absurd (grind (arith, g));
          },
          tt,
          tt,
          refl,
          small,
        )
        s e in
    (
      f.0.first_ones ∙ ap (λ z. take z s.accepted) f.0.head_value,
      omega (arith, f.0.within, f.0.tail_value, f.0.head_value),
    )
