-- ===== src/Client/Received.antt =====
-- What the other side receives of what the client sends.
use mathlib.Core.List.{flatten}
use hioload_ws.Prelude.{
  ◌++◌, ◌∙◌, ◌∷◌, ◌≡◌, All, Along, List, [], ap, append-nil, map, refl, run_steps, some, sym, true,
  ℕ,
}
use hioload_ws.Api.Buffer.{Buffer, BufferPool, IsRoomy}
use hioload_ws.Client.{
  Client, Step, caller_sends, cancels, checks, client_frame, closes, loop_sends, new_client,
  sees_done, signalled, take_step, ticks, writes,
}
use hioload_ws.Client.Appends.{run_steps-Appends, wire_forms, written}
use hioload_ws.Client.Order.{OneFlush, in_flight, run_steps-appended}
use hioload_ws.Connection.{Connection}
use hioload_ws.Connection.Direct.{received, recv_direct}
use hioload_ws.Connection.Direct.Stream.{payloads, recv_direct-wires, wires}
use hioload_ws.Frame.{max_frame_payload}
use hioload_ws.Frame.Encode.RoundTrip.{IsSendable, wire}

flatten-wire_forms :
    (steps : List Step) → flatten (wire_forms (written steps)) ≡ wires (written steps)
unfolding flatten
flatten-wire_forms [] = refl
flatten-wire_forms (writes message_type scratch msg ∷ steps) =
    ap (λ z. wire (client_frame message_type msg) true ++ z) (flatten-wire_forms steps)
flatten-wire_forms (caller_sends i ∷ steps) = flatten-wire_forms steps
flatten-wire_forms (checks ∷ steps) = flatten-wire_forms steps
flatten-wire_forms (ticks ∷ steps) = flatten-wire_forms steps
flatten-wire_forms (signalled ∷ steps) = flatten-wire_forms steps
flatten-wire_forms (sees_done ∷ steps) = flatten-wire_forms steps
flatten-wire_forms (loop_sends ∷ steps) = flatten-wire_forms steps
flatten-wire_forms (cancels ∷ steps) = flatten-wire_forms steps
flatten-wire_forms (closes ∷ steps) = flatten-wire_forms steps

module _ (pool : BufferPool) (roomy : IsRoomy pool max_frame_payload) where
  -- From one side to the other: in a run of a new client in which flushes do not overlap, with
  -- messages within the size limit, once nothing is left in the batch or in a flush, what the client
  -- handed to the transport arrives at an idle connection in direct mode as one buffer for each
  -- message, in the order of the calls and with its bytes, given a pool whose buffers have room.
  pub recv_direct-written :
      (batch_size : ℕ) (steps : List Step) (s : Client) (c : Connection) (p : pool.State)
      → All IsSendable (written steps)
      → Along OneFlush take_step steps (new_client batch_size)
      → run_steps take_step steps (new_client batch_size) ≡ some s
      → in_flight s ++ s.batch ≡ []
      → c.read_buf ≡ []
      → (bufs : List Buffer) × (c' : Connection) × (p' : pool.State) × (recv_direct pool c p
            (some s.sent)
          ≡ received bufs c' p')
        × (map (λ b. b.bytes) bufs ≡ payloads (written steps))
        × (c'.read_buf ≡ [])
  recv_direct-written batch_size steps s c p ok along e done idle =
      let all_sent : s.sent ≡ wire_forms (written steps) =
        sym (append-nil s.sent)
        ∙ ap (λ z. s.sent ++ z) (sym done)
        ∙ sym (run_steps-appended batch_size steps s along e)
        ∙ run_steps-Appends steps (new_client batch_size) s ok e in
      recv_direct-wires pool roomy (written steps) s.sent c p ok idle
        (ap flatten all_sent ∙ flatten-wire_forms steps)
