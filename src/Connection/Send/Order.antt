-- ===== src/Connection/Send/Order.antt =====
-- What `SendFrame` accepts and what `sendLoop` hands to the transport.
use mathlib.Core.List.{flatten}
use hioload_ws.Prelude.{
  ◌&&◌, ◌++◌, ◌∙◌, ◌∷◌, ◌≡◌, All, All-append, All-drop, All-of_append, All-take, Bool, Bool-cases,
  List, [], ap, append-nil, append_assoc, ap₂, arith, drop, false, flatten-append, if◌then◌else◌,
  inl, inr, refl, subst, sym, take, take-append-drop, true, ℕ,
}
use hioload_ws.Connection.{Connection, close, new_ws_connection}
use hioload_ws.Connection.Direct.Stream.{wires}
use hioload_ws.Connection.Send.{
  all_encoded, encode_batch, max_batch, returned, send_batch, send_frame, send_round,
}
use hioload_ws.Frame.{WsFrame}
use hioload_ws.Frame.Encode.RoundTrip.{IsSendable, encode_lem, wire}

-- The calls of `SendFrame` that succeed, the rounds of `sendLoop` and the calls of `Close`, in any
-- order, from `c` on; the list is of the frames accepted.
pub data Sends (c : Connection) : Connection → List WsFrame → Type 0 where
  begins : Sends c c []
  accepts :
      {d e : Connection} {fs : List WsFrame} (fails : Bool) (f : WsFrame)
      → Sends c d fs
      → send_frame fails d f ≡ returned false e
      → Sends c e (fs ++ f ∷ [])
  flushes :
      {d e : Connection} {fs : List WsFrame} (done_first fails error : Bool)
      → Sends c d fs
      → send_round done_first fails d ≡ returned error e
      → Sends c e fs
  closes : {d : Connection} {fs : List WsFrame} → Sends c d fs → Sends c (close d) fs

wires-append : (fs gs : List WsFrame) → wires (fs ++ gs) ≡ wires fs ++ wires gs
wires-append [] gs = refl
wires-append (f ∷ fs) gs =
    ap (λ l. wire f f.masked ++ l) (wires-append fs gs)
    ∙ sym (append_assoc (wire f f.masked) (wires fs) (wires gs))

-- A batch of sendable frames is encoded whole, to their wire forms in order.
encode_batch_lem :
    (fs : List WsFrame)
    → All IsSendable fs
    → (out : List (List ℕ)) × (encode_batch fs ≡ all_encoded out) × (flatten out ≡ wires fs)
unfolding encode_batch flatten
encode_batch_lem [] ok = ([], refl, refl)
encode_batch_lem (f ∷ fs) (ok, oks) =
    let (out, e, same) = encode_batch_lem fs oks in
    (
      wire f f.masked ∷ out,
      rw (encode_lem f f.masked [] ok, e),
      ap (λ l. wire f f.masked ++ l) same,
    )

-- The bytes on the wire so far.
abbrev pub sent_bytes : Connection → List ℕ
sent_bytes c = flatten (flatten c.sent)

accepts_lem :
    (fails : Bool) (d e : Connection) (fs : List WsFrame) (f : WsFrame)
    → send_frame fails d f ≡ returned false e
    → (e.sent ≡ d.sent) × (e.outbox ≡ d.outbox ++ f ∷ [])
unfolding send_frame
accepts_lem fails d e fs f h = ground arith

-- What a round of `sendLoop` leaves alone: the bytes sent and the bytes to send, in this order.
record Flushed (c e : Connection) : Type 0 where
  sendable : All IsSendable e.outbox
  same : sent_bytes e ++ wires e.outbox ≡ sent_bytes c ++ wires c.outbox

Flushed-close : (c e : Connection) → Flushed c e → Flushed c (close e)
unfolding close
Flushed-close c e v = ground arith

batch_bytes :
    (sent : List (List (List ℕ))) (out : List (List ℕ)) (box : List WsFrame)
    → flatten out ≡ wires (take max_batch box)
    → flatten (flatten (sent ++ out ∷ [])) ++ wires (drop max_batch box)
      ≡ flatten (flatten sent) ++ wires box
unfolding flatten
batch_bytes sent out box e =
    let later = wires (drop max_batch box) in
    let one : flatten (sent ++ out ∷ []) ≡ flatten sent ++ out =
      flatten-append sent (out ∷ []) ∙ ap (λ l. flatten sent ++ l) (append-nil out) in
    let split : wires (take max_batch box) ++ later ≡ wires box =
      sym (wires-append (take max_batch box) (drop max_batch box))
      ∙ ap wires (take-append-drop max_batch box) in
    ap (λ l. flatten l ++ later) one
    ∙ ap (λ l. l ++ later) (flatten-append (flatten sent) out)
    ∙ append_assoc (flatten (flatten sent)) (flatten out) later
    ∙ ap (λ l. flatten (flatten sent) ++ (l ++ later)) e
    ∙ ap (λ l. flatten (flatten sent) ++ l) split

close_if :
    (fails : Bool) (c e : Connection) → Flushed c e → Flushed c (if fails then close e else e)
close_if true c e v = Flushed-close c e v
close_if false c e v = v

send_batch_all :
    (fails : Bool) (c : Connection) (out : List (List ℕ))
    → let c' = record c { sent = c.sent ++ out ∷ [] } in
      send_batch fails c (all_encoded out) ≡ returned fails (if fails then close c' else c')
unfolding send_batch
send_batch_all true c out = refl
send_batch_all false c out = refl

send_batch-Flushed :
    (fails error : Bool) (c e : Connection) (box : List WsFrame)
    → c.outbox ≡ box
    → All IsSendable box
    → send_batch fails
        (record c { outbox = drop max_batch box })
        (encode_batch (take max_batch box))
      ≡ returned error e
    → Flushed c e
unfolding send_batch
send_batch-Flushed fails error c e box at ok h =
    let (out, whole, bytes) =
      encode_batch_lem (take max_batch box) (All-take IsSendable max_batch box ok) in
    let c' : Connection = record c { outbox = drop max_batch box; sent = c.sent ++ out ∷ [] } in
    let flushed : Flushed c c' = record {
      sendable = All-drop IsSendable max_batch box ok;
      same = batch_bytes c.sent out box bytes ∙ ap (λ b. sent_bytes c ++ wires b) (sym at);
    } in
    let end : returned fails (if fails then close c' else c') ≡ returned error e =
      sym (
        ap (send_batch fails (record c { outbox = drop max_batch box })) whole
        ∙ send_batch_all fails (record c { outbox = drop max_batch box }) out)
      ∙ h in
    let final : e ≡ (if fails then close c' else c') = cc in rw final (close_if fails c c' flushed)

flushes-Flushed :
    (done_first fails error : Bool) (c e : Connection)
    → All IsSendable c.outbox
    → send_round done_first fails c ≡ returned error e
    → Flushed c e
unfolding send_round
flushes-Flushed done_first fails error c e ok h = go c.outbox refl
  where
    stays : e ≡ c → Flushed c e
    stays same = rw same (record { sendable = ok; same = refl })

    go : (box : List WsFrame) → c.outbox ≡ box → Flushed c e
    go [] at = stays (ground arith)
    go (f ∷ fs) at = elim (Bool-cases (c.closed && done_first)) [
      | inl skips ↦ stays (ground arith)
      | inr sends ↦
          send_batch-Flushed fails error c e (f ∷ fs) at (subst (All IsSendable) at ok)
            (rw (at, sends) at h)
    ]

-- From a connection that has sent nothing yet.
Sends-order :
    {c d : Connection} {fs : List WsFrame}
    → Sends c d fs
    → c.sent ≡ []
    → c.outbox ≡ []
    → All IsSendable fs
    → All IsSendable d.outbox × (sent_bytes d ++ wires d.outbox ≡ wires fs)
unfolding flatten
Sends-order {c} begins s o ok = (
  subst (All IsSendable) (sym o) ok,
  ap (λ l. flatten (flatten l) ++ wires c.outbox) s ∙ ap wires o,
)
Sends-order {c} (accepts {d} {e} {fs} fails f r h) s o ok =
    let (oks, okf) = All-of_append IsSendable fs (f ∷ []) ok in
    let (waiting, order) = Sends-order r s o oks in
    let (same, box) = accepts_lem fails d e fs f h in
    (
      subst (All IsSendable) (sym box) (All-append IsSendable d.outbox (f ∷ []) waiting okf),
      ap₂ (λ l b. flatten (flatten l) ++ wires b) same box
          ∙ ap (λ l. sent_bytes d ++ l) (wires-append d.outbox (f ∷ []))
          ∙ sym (append_assoc (sent_bytes d) (wires d.outbox) (wires (f ∷ [])))
          ∙ ap (λ l. l ++ wires (f ∷ [])) order
          ∙ sym (wires-append fs (f ∷ [])),
    )
Sends-order {c} (flushes {d} {e} done_first fails error r h) s o ok =
    let (waiting, order) = Sends-order r s o ok in
    let v = flushes-Flushed done_first fails error d e waiting h in (v.sendable, v.same ∙ order)
Sends-order {c} (closes {d} r) s o ok =
    let (waiting, order) = Sends-order r s o ok in
    let v = Flushed-close d d (record { sendable = waiting; same = refl }) in
    (v.sendable, v.same ∙ order)

-- On a new connection, after any sequence of successful `SendFrame` calls of sendable frames, rounds
-- of `sendLoop` and calls of `Close`, the bytes handed to the transport, followed by the wire forms of
-- the frames in the outbox, are the wire forms of the accepted frames in the order of acceptance:
-- nothing is lost, repeated or reordered.
pub Sends-in_order :
    (size : ℕ) (d : Connection) (fs : List WsFrame)
    → Sends (new_ws_connection size) d fs
    → All IsSendable fs
    → sent_bytes d ++ wires d.outbox ≡ wires fs
unfolding new_ws_connection
Sends-in_order size d fs r ok = (Sends-order r refl refl ok).1
