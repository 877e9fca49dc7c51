-- ===== src/Client/Examples.antt =====
-- Runs of the client at concrete inputs.
use mathlib.Core.List.{flatten}
use hioload_ws.Prelude.{
  ◌++◌, ◌∷◌, ◌≡◌, All, Along, List, [], arith, map, refl, run_steps, some, true, ℕ,
}
use hioload_ws.Api.Buffer.{Buffer}
use hioload_ws.Client.{
  Client, Step, cancels, checks, closes, finished, loop_sends, new_client, sees_done, signalled,
  take_step, write_message, writes,
}
use hioload_ws.Client.Appends.{written}
use hioload_ws.Client.Order.{OneFlush, in_flight, run_steps-appended}
use hioload_ws.Client.Received.{recv_direct-written}
use hioload_ws.Connection.{Connection}
use hioload_ws.Connection.Direct.{received, recv_direct}
use hioload_ws.Connection.Direct.Stream.{payloads}
use hioload_ws.Connection.Examples.{fresh, fresh_pool, fresh_pool-IsRoomy}
use hioload_ws.Frame.Encode.{append_payload, encode_frame_to_buffer_with_mask, first_byte, header}
use hioload_ws.Frame.Encode.RoundTrip.{IsSendable}
use hioload_ws.Frame.Mask.{mask_first}

-- Two messages, the first flushed by `sendLoop` and the second by the caller, then `Close`.
abbrev two_messages : List Step
two_messages =
    writes 2 [] (104 ∷ [])
    ∷ checks
    ∷ signalled
    ∷ loop_sends
    ∷ writes 1 [] (105 ∷ [])
    ∷ checks
    ∷ cancels
    ∷ sees_done
    ∷ loop_sends
    ∷ closes
    ∷ []

abbrev one_wire : ℕ → ℕ → List ℕ
one_wire first byte = first ∷ 0x81 ∷ 0x12 ∷ 0x34 ∷ 0x56 ∷ 0x78 ∷ byte ∷ []

abbrev both_wires : List (List ℕ)
both_wires = one_wire 0x82 0x7A ∷ one_wire 0x81 0x7B ∷ []

abbrev after_two : Client
after_two = record (new_client 2) {
  loop = finished;
  flush_signal = true;
  cancelled = true;
  closed = true;
  appended = both_wires;
  sent = both_wires;
}

run_two : run_steps take_step two_messages (new_client 2) ≡ some after_two
unfolding run_steps take_step write_message encode_frame_to_buffer_with_mask append_payload
    mask_first header first_byte
run_two = refl

two_messages-IsSendable : All IsSendable (written two_messages)
two_messages-IsSendable = (
  record {
    bytes = (omega arith, tt);
    limit = omega arith;
    length_agrees = refl;
    opcode_in = omega arith;
  },
  (
    record {
      bytes = (omega arith, tt);
      limit = omega arith;
      length_agrees = refl;
      opcode_in = omega arith;
    },
    tt,
  ),
)

one_flush : Along OneFlush take_step two_messages (new_client 2)
unfolding take_step write_message encode_frame_to_buffer_with_mask append_payload mask_first header
    first_byte
one_flush = (
  omega arith,
  (
    omega arith,
    (
      omega arith,
      (
        omega arith,
        (
          omega arith,
          (omega arith, (omega arith, (omega arith, (omega arith, (omega arith, omega arith))))),
        ),
      ),
    ),
  ),
)

run_steps-appended_example :
    after_two.appended ≡ after_two.sent ++ (in_flight after_two ++ after_two.batch)
run_steps-appended_example = run_steps-appended 2 two_messages after_two one_flush run_two

recv_direct-written_example :
    (bufs : List Buffer) × (c' : Connection) × (p' : ℕ) × (recv_direct fresh_pool fresh 0
        (some after_two.sent)
      ≡ received bufs c' p')
    × (map (λ b. b.bytes) bufs ≡ payloads (written two_messages))
    × (c'.read_buf ≡ [])
unfolding flatten
recv_direct-written_example =
    recv_direct-written fresh_pool fresh_pool-IsRoomy 2 two_messages after_two fresh 0
      two_messages-IsSendable one_flush run_two refl refl
