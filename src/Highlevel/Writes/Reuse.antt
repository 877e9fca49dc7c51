-- ===== src/Highlevel/Writes/Reuse.antt =====
-- What a later write does to a frame that is still queued.
use hioload_ws.Prelude.{
  ◌++◌, ◌∙◌, ◌∷◌, ◌≡◌, ◌≤◌, List, Option, [], ap, append_assoc, arith, drop, false, if◌then◌else◌,
  leb, length, length-append, length-drop, length-take, min, none, some, take, true, ℕ,
}
use hioload_ws.Api.Buffer.{copy}
use hioload_ws.Highlevel.Writes.{
  ArrayPool, SlicedFrame, WriteError, Writer, connection_closed, frame_for, own_slice, payload_of,
  write_array, write_filled, write_got, write_message,
}
use hioload_ws.Highlevel.Writes.Payload.{at_self, take-copy}

module _ (pool : ArrayPool) where
  -- The writer after a message for which the pool's array has room.
  abbrev pooled : Writer pool → ℕ → pool.State → ℕ → List ℕ → Writer pool
  pooled c a arrays message_type data_bytes = record c {
    memory = write_array c.memory a (copy (c.memory.array a) data_bytes);
    arrays = pool.put_array a arrays;
    outbox = c.outbox ++ (frame_for message_type data_bytes a ∷ []);
  }

  write_got-pooled :
      (c : Writer pool) (message_type : ℕ) (data_bytes : List ℕ) (a : ℕ) (arrays : pool.State)
      → c.auto_release ≡ true
      → length data_bytes ≤ length (c.memory.array a)
      → write_got pool true message_type data_bytes c (a, arrays)
        ≡ pooled c a arrays message_type data_bytes
  write_got-pooled c message_type data_bytes a arrays r h =
      let room : leb (length data_bytes) (length (c.memory.array a)) ≡ true = ground arith in
      ap
        (λ b. write_filled pool true message_type data_bytes (
          if b
          then (
            record c {
              memory = write_array c.memory a (copy (c.memory.array a) data_bytes);
              arrays = arrays;
            },
            a,
            true,
          )
          else (
            record c { memory = own_slice c.memory data_bytes; arrays = pool.put_array a arrays },
            c.memory.fresh,
            false,
          )))
        room
      ∙ ap
          (λ b.
            if b
            then pooled c a arrays message_type data_bytes
            else record (pooled c a arrays message_type data_bytes) { arrays = arrays })
          r

  write_message-pooled :
      (c : Writer pool) (message_type : ℕ) (data_bytes : List ℕ) (a : ℕ) (arrays : pool.State)
      → c.closed ≡ false
      → c.auto_release ≡ true
      → pool.get_array (length data_bytes) c.arrays ≡ (a, arrays)
      → length data_bytes ≤ length (c.memory.array a)
      → (write_message pool true message_type data_bytes c).0
        ≡ pooled c a arrays message_type data_bytes
  unfolding write_message
  write_message-pooled c message_type data_bytes a arrays o r g h =
      ap (λ (p : Writer pool × Option WriteError). p.0)
        (ap
          (λ b. if b then (c, some connection_closed) else (
            write_got pool true message_type data_bytes c
                (pool.get_array (length data_bytes) c.arrays),
            none,
          ))
          o)
      ∙ ap (write_got pool true message_type data_bytes c) g
      ∙ write_got-pooled c message_type data_bytes a arrays r h

  -- The pool's array goes back as soon as the frame is queued. If the pool hands it out for the next
  -- message, of the same length, before the send loop has written the first frame, then that frame,
  -- still in the queue, carries the second message.
  pub write_message-reuse :
      (c : Writer pool) (t u : ℕ) (first second : List ℕ) (a : ℕ) (arrays again : pool.State)
      → c.closed ≡ false
      → c.auto_release ≡ true
      → pool.get_array (length first) c.arrays ≡ (a, arrays)
      → pool.get_array (length second) (pool.put_array a arrays) ≡ (a, again)
      → length first ≡ length second
      → length first ≤ length (c.memory.array a)
      → (f g : SlicedFrame) × ((write_message pool true u second
            (write_message pool true t first c).0).0.outbox
          ≡ c.outbox ++ (f ∷ g ∷ []))
        × (payload_of (write_message pool true t first c).0.memory f ≡ first)
        × (payload_of
              (write_message pool true u second (write_message pool true t first c).0).0.memory
              f
            ≡ second)
  write_message-reuse c t u first second a arrays again o r g g' e h =
      let f = frame_for t first a in
      let f' = frame_for u second a in
      let c₁ = pooled c a arrays t first in
      let e₁ = write_message-pooled c t first a arrays o r g h in
      let kept : length (copy (c.memory.array a) first) ≡ length (c.memory.array a) =
        length-copy (c.memory.array a) first h in
      let at₁ : c₁.memory.array a ≡ copy (c.memory.array a) first = ground arith in
      let e₂ : (write_message pool true u second (write_message pool true t first c).0).0
          ≡ pooled c₁ a again u second =
        ap (λ d. (write_message pool true u second d).0) e₁
        ∙ write_message-pooled c₁ u second a again o r g' (omega (arith, kept, ap length at₁)) in
      (
        f,
        f',
        ap (λ d. d.outbox) e₂ ∙ append_assoc c.outbox (f ∷ []) (f' ∷ []),
        ap (λ d. payload_of d.memory f) e₁
            ∙ ap (take (length first)) at₁
            ∙ take-copy (c.memory.array a) first h,
        ap (λ d. payload_of d.memory f) e₂
            ∙ ap (take (length first)) (at_self c₁.memory a (copy (c₁.memory.array a) second))
            ∙ ap (λ n. take n (copy (c₁.memory.array a) second)) e
            ∙ take-copy (c₁.memory.array a) second (omega (arith, kept, ap length at₁)),
      )
    where
      length-copy :
          (dst src : List ℕ) → length src ≤ length dst → length (copy dst src) ≡ length dst
      length-copy dst src h = omega (
        arith,
        length-append (take (min (length dst) (length src)) src)
            (drop (min (length dst) (length src)) dst),
        length-take (min (length dst) (length src)) src,
        length-drop (min (length dst) (length src)) dst,
      )
