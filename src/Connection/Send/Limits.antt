-- ===== src/Connection/Send/Limits.antt =====
-- Bounds of the outbox and of a batch, and the counters of sent frames.
use hioload_ws.Prelude.{
  ◌&&◌, ◌++◌, ◌+◌, ◌∷◌, ◌≡◌, ◌≤◌, All, All-append, Bool, Bool-cases, List, [], ap, arith, drop,
  false, inl, inr, length, length-append, length-drop, length-take, refl, take, ℕ,
}
use hioload_ws.Connection.{Connection, close, get_stats, new_ws_connection}
use hioload_ws.Connection.Send.{
  Batch, add_encoded, all_encoded, crashed, encode_batch, failed, max_batch, returned, send_batch,
  send_frame, send_round,
}
use hioload_ws.Connection.Send.Order.{Sends, accepts, begins, closes, flushes}
use hioload_ws.Frame.{WsFrame}
use hioload_ws.Frame.Encode.{Encoded, encoded, panic, too_large}

add_encoded_inv :
    (x : Encoded) (b : Batch) (out : List (List ℕ))
    → add_encoded x b ≡ all_encoded out
    → (rest : List (List ℕ)) × (b ≡ all_encoded rest) × (length out ≡ length rest + 1)
add_encoded_inv too_large b out e = absurd (cc)
add_encoded_inv panic b out e = absurd (cc)
add_encoded_inv (encoded bytes) failed out e = absurd (cc)
add_encoded_inv (encoded bytes) crashed out e = absurd (cc)
add_encoded_inv (encoded bytes) (all_encoded rest) out e = (rest, refl, ground arith)

length-encode_batch :
    (fs : List WsFrame) (out : List (List ℕ))
    → encode_batch fs ≡ all_encoded out
    → length out ≡ length fs
unfolding encode_batch
length-encode_batch [] out e = ground arith
length-encode_batch (f ∷ fs) out e =
    let (rest, whole, size) = add_encoded_inv _ (encode_batch fs) out e in
    omega (arith, length-encode_batch fs rest whole)

-- The outbox within its capacity, and every batch within `max_batch`.
pub record IsBounded (c : Connection) : Type 0 where
  pub outbox_fits : length c.outbox ≤ c.channel_size
  pub batches : All (λ b. length b ≤ max_batch) c.sent
  pub frames_uncounted : c.frames_sent ≡ 0
  pub bytes_uncounted : c.bytes_sent ≡ 0

close-IsBounded : (c : Connection) → IsBounded c → IsBounded (close c)
unfolding close
close-IsBounded c v = ground arith

send_frame-IsBounded :
    (fails error : Bool) (c e : Connection) (f : WsFrame)
    → send_frame fails c f ≡ returned error e
    → IsBounded c
    → IsBounded e
unfolding send_frame
send_frame-IsBounded fails error c e f h v = ground (arith, length-append c.outbox (f ∷ []))

send_batch-IsBounded :
    (fails error : Bool) (c e : Connection) (b : Batch)
    → ((out : List (List ℕ)) → b ≡ all_encoded out → length out ≤ max_batch)
    → send_batch fails c b ≡ returned error e
    → IsBounded c
    → IsBounded e
unfolding send_batch
send_batch-IsBounded fails error c e failed small h v =
    let same : e ≡ close c = cc in rw same (close-IsBounded c v)
send_batch-IsBounded fails error c e crashed small h v = absurd (cc)
send_batch-IsBounded fails error c e (all_encoded out) small h v =
    let c' : Connection = record c { sent = c.sent ++ out ∷ [] } in
    let more : IsBounded c' = record {
      outbox_fits = v.outbox_fits;
      batches = All-append _ c.sent (out ∷ []) v.batches (small out refl, tt);
      frames_uncounted = v.frames_uncounted;
      bytes_uncounted = v.bytes_uncounted;
    } in
    let closed = close-IsBounded c' more in ground arith

send_round-IsBounded :
    (done_first fails error : Bool) (c e : Connection)
    → send_round done_first fails c ≡ returned error e
    → IsBounded c
    → IsBounded e
unfolding send_round
send_round-IsBounded done_first fails error c e h v = go c.outbox refl
  where
    stays : e ≡ c → IsBounded e
    stays same = rw same v

    go : (box : List WsFrame) → c.outbox ≡ box → IsBounded e
    go [] at = stays (ground arith)
    go (f ∷ fs) at = elim (Bool-cases (c.closed && done_first)) [
      | inl skips ↦ stays (ground arith)
      | inr sends ↦
          send_batch-IsBounded fails error (record c { outbox = drop max_batch (f ∷ fs) }) e
            (encode_batch (take max_batch (f ∷ fs)))
            (λ out whole. omega (
              arith,
              length-encode_batch (take max_batch (f ∷ fs)) out whole,
              length-take max_batch (f ∷ fs),
            ))
            (rw (at, sends) at h)
            (record {
              outbox_fits = omega (
                arith,
                v.outbox_fits,
                ap (λ (b : List WsFrame). length b) at,
                length-drop max_batch (f ∷ fs),
              );
              batches = v.batches;
              frames_uncounted = v.frames_uncounted;
              bytes_uncounted = v.bytes_uncounted;
            })
    ]

Sends-IsBounded : {c d : Connection} {fs : List WsFrame} → Sends c d fs → IsBounded c → IsBounded d
Sends-IsBounded begins v = v
Sends-IsBounded (accepts {d} {e} fails f r h) v =
    send_frame-IsBounded fails false d e f h (Sends-IsBounded r v)
Sends-IsBounded (flushes {d} {e} done_first fails error r h) v =
    send_round-IsBounded done_first fails error d e h (Sends-IsBounded r v)
Sends-IsBounded (closes {d} r) v = close-IsBounded d (Sends-IsBounded r v)

new-IsBounded : (size : ℕ) → IsBounded (new_ws_connection size)
unfolding new_ws_connection
new-IsBounded size = omega arith

-- On a new connection the outbox never holds more frames than the channel size, and no `Send` is given
-- more than 32 of them.
pub Sends-bounded :
    (size : ℕ) (d : Connection) (fs : List WsFrame)
    → Sends (new_ws_connection size) d fs
    → (length d.outbox ≤ d.channel_size) × All (λ b. length b ≤ max_batch) d.sent
Sends-bounded size d fs r =
    let v = Sends-IsBounded r (new-IsBounded size) in (v.outbox_fits, v.batches)

-- However many frames a new connection accepts and sends, `GetStats` reports no frame and no byte
-- sent: `SendFrame` always queues, and `sendLoop` does not count.
pub Sends-uncounted :
    (size : ℕ) (d : Connection) (fs : List WsFrame)
    → Sends (new_ws_connection size) d fs
    → ((get_stats d).frames_sent ≡ 0) × ((get_stats d).bytes_sent ≡ 0)
unfolding get_stats
Sends-uncounted size d fs r =
    let v = Sends-IsBounded r (new-IsBounded size) in (v.frames_uncounted, v.bytes_uncounted)
