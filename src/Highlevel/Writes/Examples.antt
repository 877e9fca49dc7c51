-- ===== src/Highlevel/Writes/Examples.antt =====
-- Reads and writes of high-level connections.
use hioload_ws.Prelude.{◌∷◌, ◌≡◌, List, [], arith, false, none, refl, some, true, ℕ}
use hioload_ws.Prelude.Int.{pos}
use hioload_ws.Api.Buffer.{Buffer}
use hioload_ws.Highlevel.Reads.{Conn, new_client_conn}
use hioload_ws.Highlevel.Writes.{ArrayPool, SlicedFrame, Writer, payload_of, write_message}
use hioload_ws.Highlevel.Writes.Payload.{Queues, write_message-Queues}
use hioload_ws.Highlevel.Writes.Reuse.{write_message-reuse}

-- A pool that hands out the array that came back last.
abbrev stack_pool : ArrayPool
stack_pool = record { State = List ℕ; get_array = λ n s. pop s; put_array = λ a s. a ∷ s }
  where
    pop : List ℕ → ℕ × List ℕ
    pop [] = (0, [])
    pop (a ∷ s) = (a, s)

abbrev writer : Writer stack_pool
writer = record {
  closed = false;
  has_write_timeout = false;
  auto_release = true;
  memory = record { array = λ j. 0 ∷ 0 ∷ 0 ∷ 0 ∷ []; fresh = 9 };
  arrays = 3 ∷ [];
  outbox = [];
}

abbrev hi : List ℕ
hi = b'h' ∷ b'i' ∷ []

abbrev yo : List ℕ
yo = b'y' ∷ b'o' ∷ []

write_message-Queues_example :
    ((write_message stack_pool true 1 hi writer).1 ≡ none)
    × Queues stack_pool writer 1 hi (write_message stack_pool true 1 hi writer).0
write_message-Queues_example = write_message-Queues stack_pool writer 1 hi refl

write_message-reuse_example :
    (f g : SlicedFrame) × ((write_message stack_pool true 1 yo
        (write_message stack_pool true 1 hi writer).0).0.outbox
      ≡ f ∷ g ∷ [])
    × (payload_of (write_message stack_pool true 1 hi writer).0.memory f ≡ hi)
    × (payload_of
          (write_message stack_pool true 1 yo
            (write_message stack_pool true 1 hi writer).0).0.memory
          f
        ≡ yo)
write_message-reuse_example =
    write_message-reuse stack_pool writer 1 1 hi yo 3 [] [] refl refl refl refl refl (omega arith)

abbrev message : ℕ → Buffer
message n = record { bytes = some (n ∷ []); numa = pos 0; pool = true; class_size = pos 2048 }

abbrev client : Conn
client = new_client_conn true
