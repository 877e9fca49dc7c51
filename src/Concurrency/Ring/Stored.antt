-- ===== src/Concurrency/Ring/Stored.antt =====
-- The array of a ring holds what was accepted and not yet delivered.
use Prim.Native.Nat.{zero}
use mathlib.Core.Option.{some-injective}
use hioload_ws.Prelude.{
  ◌%◌, ◌++◌, ◌+◌, ◌-◌, ◌<◌, ◌^◌, ◌∙◌, ◌∷◌, ◌≡◌, ◌≤◌, List, [], ap, arith, get_elem?, get_elem?-lt,
  get_elem?-set_ne, get_elem?-snoc, inl, inr, length, length-append, length-set, set, some, suc,
  sym, take, take-append, ℕ,
}
use hioload_ws.Prelude.Mod.{mod-ne}
use hioload_ws.Concurrency.Ring.{
  Consumer, Producer, RingBuffer, got_head, got_tail, has_head, has_tail, idle, ready, reserved,
  taking, took, written,
}

-- The counters count, the delivered items are the first of the accepted ones, and the array has the
-- others, in `2 ^ k` places.
pub record Core (k : ℕ) (items : List ℕ) (head tail : ℕ) (accepted delivered : List ℕ)
    : Type 0 where
  pub room : length items ≡ 2 ^ k
  pub tail_value : tail ≡ length accepted
  pub head_value : head ≡ length delivered
  pub ordered : head ≤ tail
  pub within : tail ≤ head + 2 ^ k
  pub first_ones : delivered ≡ take head accepted
  pub stored :
      (i x : ℕ) → head ≤ i → get_elem? accepted i ≡ some x → get_elem? items (i % 2 ^ k) ≡ some x

abbrev pub ProducerOk : ℕ → List ℕ → ℕ → ℕ → Producer → Type 0
ProducerOk k items head tail ready = Unit {0}
ProducerOk k items head tail (has_head v h) = h ≤ head
ProducerOk k items head tail (has_tail v h t) = (h ≤ head) × (t ≡ tail)
ProducerOk k items head tail (reserved v t) = (t ≡ tail) × (tail < head + 2 ^ k)
ProducerOk k items head tail (written v t) =
    (t ≡ tail) × (tail < head + 2 ^ k) × (get_elem? items (t % 2 ^ k) ≡ some v)

abbrev pub ConsumerOk : ℕ → ℕ → List ℕ → Consumer → Type 0
ConsumerOk head tail accepted idle = Unit {0}
ConsumerOk head tail accepted (got_head h) = h ≡ head
ConsumerOk head tail accepted (taking h) = (h ≡ head) × (head < tail)
ConsumerOk head tail accepted (got_tail h t) = (h ≡ head) × (t ≤ tail)
ConsumerOk head tail accepted (took h x) =
    (h ≡ head) × (head < tail) × (get_elem? accepted h ≡ some x)

abbrev pub IsFifo : ℕ → RingBuffer → Type 0
IsFifo k s =
    Core k s.items s.head s.tail s.accepted s.delivered
    × ProducerOk k s.items s.head s.tail s.producer
    × ConsumerOk s.head s.tail s.accepted s.consumer
    × (s.mask ≡ 2 ^ k - 1)
    × (k ≤ 63)

-- The counters have not wrapped.
abbrev pub IsCounted : RingBuffer → Type 0
IsCounted s = length s.accepted < 2 ^ 64

take-suc :
    (n x : ℕ) (xs : List ℕ) → get_elem? xs n ≡ some x → take (n + 1) xs ≡ take n xs ++ (x ∷ [])
take-suc n x [] e = grind (arith, e)
take-suc zero x (y ∷ xs) e = ap (λ z. z ∷ []) (some-injective y x e)
take-suc (suc n) x (y ∷ xs) e =
    ap (λ z. take z (y ∷ xs)) {x = suc n + 1} {y = suc (n + 1)} (omega arith)
    ∙ ap (λ z. y ∷ z) (take-suc n x xs e)

get_elem?-append :
    (xs ys : List ℕ) (i x : ℕ) → get_elem? xs i ≡ some x → get_elem? (xs ++ ys) i ≡ some x
get_elem?-append [] ys i x e = grind (arith, e)
get_elem?-append (y ∷ xs) ys zero x e = e
get_elem?-append (y ∷ xs) ys (suc i) x e = get_elem?-append xs ys i x e

module _ (k : ℕ) (s : RingBuffer) (c : Core k s.items s.head s.tail s.accepted s.delivered) where
  -- The array with the item of the producer.
  pub write-Core :
      (v t : ℕ)
      → t ≡ s.tail
      → s.tail < s.head + 2 ^ k
      → Core k (set s.items (t % 2 ^ k) v) s.head s.tail s.accepted s.delivered
  write-Core v t e l = record {
    room = length-set s.items (t % 2 ^ k) v ∙ c.room;
    tail_value = c.tail_value;
    head_value = c.head_value;
    ordered = c.ordered;
    within = c.within;
    first_ones = c.first_ones;
    stored = λ i x lo g.
        let hi = get_elem?-lt s.accepted i x g in
        let gap : i + (t - i) ≡ t = omega (arith, hi, e, c.tail_value) in
        get_elem?-set_ne s.items v (λ d.
          mod-ne (2 ^ k) i (t - i) (omega (arith, hi, e, c.tail_value)) (omega (arith, lo, l, e))
            (sym d ∙ ap (λ z. z % 2 ^ k) (sym gap)))
        ∙ c.stored i x lo g;
  }

  -- The item is accepted.
  pub accept-Core :
      (v t : ℕ)
      → t ≡ s.tail
      → s.tail < s.head + 2 ^ k
      → get_elem? s.items (t % 2 ^ k) ≡ some v
      → Core k s.items s.head (t + 1) (s.accepted ++ (v ∷ [])) s.delivered
  accept-Core v t e l g = record {
    room = c.room;
    tail_value = omega (arith, e, c.tail_value, length-append s.accepted (v ∷ []));
    head_value = c.head_value;
    ordered = omega (arith, c.ordered, e);
    within = omega (arith, l, e);
    first_ones =
        c.first_ones
        ∙ sym (take-append s.head s.accepted (v ∷ []) (omega (arith, c.ordered, c.tail_value)));
    stored = λ i x lo h. elim (get_elem?-snoc s.accepted v i x h) [
      | inl h' ↦ c.stored i x lo h'
      | inr (at, same) ↦
          ap (λ (z : ℕ). get_elem? s.items (z % 2 ^ k)) (at ∙ sym c.tail_value ∙ sym e)
          ∙ g
          ∙ ap some same
    ];
  }

  -- The next item is delivered.
  pub deliver-Core :
      (h x : ℕ)
      → h ≡ s.head
      → s.head < s.tail
      → get_elem? s.accepted h ≡ some x
      → Core k s.items (h + 1) s.tail s.accepted (s.delivered ++ (x ∷ []))
  deliver-Core h x e l g = record {
    room = c.room;
    tail_value = c.tail_value;
    head_value = omega (arith, e, c.head_value, length-append s.delivered (x ∷ []));
    ordered = omega (arith, e, l);
    within = omega (arith, c.within, e);
    first_ones =
        ap (λ z. z ++ (x ∷ [])) (c.first_ones ∙ ap (λ z. take z s.accepted) (sym e))
        ∙ sym (take-suc h x s.accepted g);
    stored = λ i y lo d. c.stored i y (omega (arith, lo, e)) d;
  }

-- The other side sees a counter grow.
pub producer_later :
    (k : ℕ) (items : List ℕ) (head tail : ℕ) (p : Producer)
    → ProducerOk k items head tail p
    → ProducerOk k items (head + 1) tail p
producer_later k items head tail ready o = tt
producer_later k items head tail (has_head v h) o = omega (arith, o)
producer_later k items head tail (has_tail v h t) o = (omega (arith, o.0), o.1)
producer_later k items head tail (reserved v t) o = (o.0, omega (arith, o.1))
producer_later k items head tail (written v t) o = (o.0, omega (arith, o.1), o.2)

pub consumer_later :
    (head tail v : ℕ) (accepted : List ℕ) (q : Consumer)
    → ConsumerOk head tail accepted q
    → ConsumerOk head (tail + 1) (accepted ++ (v ∷ [])) q
consumer_later head tail v accepted idle o = tt
consumer_later head tail v accepted (got_head h) o = o
consumer_later head tail v accepted (taking h) o = (o.0, omega (arith, o.1))
consumer_later head tail v accepted (got_tail h t) o = (o.0, omega (arith, o.1))
consumer_later head tail v accepted (took h x) o =
    (o.0, omega (arith, o.1), get_elem?-append accepted (v ∷ []) h x o.2)
