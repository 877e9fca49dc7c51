-- ===== src/Highlevel/Writes/Payload.antt =====
-- What a write queues.
use hioload_ws.Prelude.{
  ◌&&◌, ◌++◌, ◌∙◌, ◌∷◌, ◌≡◌, ◌≤◌, Bool, List, Option, [], ap, arith, drop, false, if_cases, if_lem,
  leb, length, none, refl, take, take-length-append, take_all, true, ℕ,
}
use hioload_ws.Api.Buffer.{copy}
use hioload_ws.Highlevel.Writes.{
  ArrayPool, Memory, SlicedFrame, WriteError, Writer, fill, frame_for, frame_opcode, payload_of,
  write_array, write_filled, write_got, write_message,
}

pub take-copy :
    (dst src : List ℕ) → length src ≤ length dst → take (length src) (copy dst src) ≡ src
take-copy dst src h =
    ap (λ n. take (length src) (take n src ++ drop n dst)) (omega arith)
    ∙ ap (λ z. take (length src) (z ++ drop (length src) dst))
        (take_all (length src) src (omega arith))
    ∙ take-length-append src (drop (length src) dst)

pub at_self : (m : Memory) (a : ℕ) (bs : List ℕ) → (write_array m a bs).array a ≡ bs
at_self m a bs = ground arith

module _ (pool : ArrayPool) where
  -- A writer with the frames of another, in whose memory an array starts with some bytes.
  abbrev Filled : Writer pool → List ℕ → Writer pool × ℕ × Bool → Type 0
  Filled c data_bytes (c', a, use_pool) =
      (c'.outbox ≡ c.outbox) × (take (length data_bytes) (c'.memory.array a) ≡ data_bytes)

  fill-Filled :
      (c : Writer pool) (a : ℕ) (arrays : pool.State) (data_bytes : List ℕ)
      → Filled c data_bytes (fill pool c a arrays data_bytes)
  fill-Filled c a arrays data_bytes =
      if_cases (Filled c data_bytes) (leb (length data_bytes) (length (c.memory.array a)))
        (λ e. (
          refl,
          ap (take (length data_bytes)) (at_self c.memory a (copy (c.memory.array a) data_bytes))
              ∙ take-copy (c.memory.array a) data_bytes (ground (arith, e)),
        ))
        (λ e. (
          refl,
          ap (take (length data_bytes)) (at_self c.memory c.memory.fresh data_bytes)
              ∙ take_all (length data_bytes) data_bytes (omega arith),
        ))

  -- One frame more, with the opcode and, in memory, the payload.
  abbrev pub Queues : Writer pool → ℕ → List ℕ → Writer pool → Type 0
  Queues c message_type data_bytes c' =
      (f : SlicedFrame) × (c'.outbox ≡ c.outbox ++ (f ∷ []))
      × (f.opcode ≡ frame_opcode message_type)
      × (payload_of c'.memory f ≡ data_bytes)

  write_filled-Queues :
      (c : Writer pool) (message_type : ℕ) (data_bytes : List ℕ) (p : Writer pool × ℕ × Bool)
      → Filled c data_bytes p
      → Queues c message_type data_bytes (write_filled pool true message_type data_bytes p)
  write_filled-Queues c message_type data_bytes (c', a, use_pool) (e, h) =
      let f = frame_for message_type data_bytes a in
      let c₁ : Writer pool = record c' { outbox = c'.outbox ++ (f ∷ []) } in
      let grown : c₁.outbox ≡ c.outbox ++ (f ∷ []) = ap (λ q. q ++ (f ∷ [])) e in
      if_lem (Queues c message_type data_bytes) (use_pool && c'.auto_release)
        {x = record c₁ { arrays = pool.put_array a c₁.arrays }} {y = c₁} (f, grown, refl, h)
        (f, grown, refl, h)

  write_got-Queues :
      (c : Writer pool) (message_type : ℕ) (data_bytes : List ℕ) (p : ℕ × pool.State)
      → Queues c message_type data_bytes (write_got pool true message_type data_bytes c p)
  write_got-Queues c message_type data_bytes (a, arrays) =
      write_filled-Queues c message_type data_bytes (fill pool c a arrays data_bytes)
        (fill-Filled c a arrays data_bytes)

  -- When `SendFrame` takes the frame, `WriteMessage` on an open connection succeeds, whether or not the
  -- pool's array has room: one frame is queued, with the opcode of the message type, and what memory
  -- then holds for it is the message.
  pub write_message-Queues :
      (c : Writer pool) (message_type : ℕ) (data_bytes : List ℕ)
      → c.closed ≡ false
      → ((write_message pool true message_type data_bytes c).1 ≡ none)
        × Queues c message_type data_bytes (write_message pool true message_type data_bytes c).0
  unfolding write_message
  write_message-Queues c message_type data_bytes o =
      if_cases
        (λ (p : Writer pool × Option WriteError).
          (p.1 ≡ none) × Queues c message_type data_bytes p.0)
        c.closed (λ e. grind (arith, e, o))
        (λ e. (
          refl,
          write_got-Queues c message_type data_bytes (pool.get_array (length data_bytes) c.arrays),
        ))
