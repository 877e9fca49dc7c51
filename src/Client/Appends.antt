-- ===== src/Client/Appends.antt =====
-- What the steps of a client append: the wire forms of the frames that are written.
use Prim.Native.Nat.{zero}
use mathlib.Core.Option.{some-injective}
use hioload_ws.Prelude.{
  ◌++◌, ◌∙◌, ◌∷◌, ◌≡◌, All, Bool, List, OnSome, Option, [], ap, append-nil, append_assoc, arith,
  false, if_lem, length, ltb, none, refl, run_from, run_steps, some, subst, suc, sym, true, ℕ,
}
use hioload_ws.Client.{
  Client, LoopPlace, Step, append_encoded, caller_flush, caller_send, caller_sends, cancels,
  check_length, checks, client_frame, close_connection, closes, finished, last_flush, loop_done,
  loop_flush, loop_send, loop_sends, loop_signal, loop_tick, pick, sees_done, selecting, sending,
  sending_last, signalled, take_step, ticks, write_message, writes,
}
use hioload_ws.Frame.{WsFrame}
use hioload_ws.Frame.Encode.RoundTrip.{IsSendable, encode_lem, wire}

-- The frames of the calls of `WriteMessage` and `Send`.
abbrev pub written : List Step → List WsFrame
written [] = []
written (writes message_type scratch msg ∷ steps) = client_frame message_type msg ∷ written steps
written (step ∷ steps) = written steps

abbrev pub wire_forms : List WsFrame → List (List ℕ)
wire_forms [] = []
wire_forms (f ∷ fs) = wire f true ∷ wire_forms fs

-- Nothing was appended.
abbrev Same : Client → Option Client → Type 0
Same s = OnSome (λ s'. s'.appended ≡ s.appended)

module _ (s : Client) where
  caller_flush-Same :
      (n : ℕ) (b : List (List ℕ))
      → (caller_flush (record s { checking = n }) b).appended ≡ s.appended
  caller_flush-Same n [] = refl
  caller_flush-Same n (b ∷ bs) = refl

  check_length-Same : (n : ℕ) → Same s (check_length s n)
  check_length-Same zero = tt
  check_length-Same (suc n) =
      if_lem (λ (s' : Client). s'.appended ≡ s.appended) (ltb (length s.batch) s.batch_size) refl
        (caller_flush-Same n s.batch)

  caller_send-Same : (o : Option (List (List ℕ) × List (List (List ℕ)))) → Same s (caller_send s o)
  caller_send-Same none = tt
  caller_send-Same (some (b, rest)) = refl

  loop_flush-Same :
      (f : Bool) (b : List (List ℕ))
      → (loop_flush (record s { flush_signal = f }) b).appended ≡ s.appended
  loop_flush-Same f [] = refl
  loop_flush-Same f (b ∷ bs) = refl

  last_flush-Same : (b : List (List ℕ)) → (last_flush s b).appended ≡ s.appended
  last_flush-Same [] = refl
  last_flush-Same (b ∷ bs) = refl

  loop_tick-Same : (p : LoopPlace) → Same s (loop_tick s p)
  loop_tick-Same selecting = loop_flush-Same s.flush_signal s.batch
  loop_tick-Same finished = tt
  loop_tick-Same (sending b) = tt
  loop_tick-Same (sending_last b) = tt

  loop_signal-Same : (p : LoopPlace) → Same s (loop_signal s p)
  loop_signal-Same selecting = if_lem (Same s) s.flush_signal (loop_flush-Same false s.batch) tt
  loop_signal-Same finished = tt
  loop_signal-Same (sending b) = tt
  loop_signal-Same (sending_last b) = tt

  loop_done-Same : (p : LoopPlace) → Same s (loop_done s p)
  loop_done-Same selecting = if_lem (Same s) s.cancelled (last_flush-Same s.batch) tt
  loop_done-Same finished = tt
  loop_done-Same (sending b) = tt
  loop_done-Same (sending_last b) = tt

  loop_send-Same : (p : LoopPlace) → Same s (loop_send s p)
  loop_send-Same selecting = tt
  loop_send-Same finished = tt
  loop_send-Same (sending b) = refl
  loop_send-Same (sending_last b) = refl

  close_connection-Same : (p : LoopPlace) → Same s (close_connection s p)
  close_connection-Same selecting = tt
  close_connection-Same finished = refl
  close_connection-Same (sending b) = tt
  close_connection-Same (sending_last b) = tt

-- A step appends the wire form of the frame that it writes, if any.
abbrev Appends : List WsFrame → Client → Option Client → Type 0
Appends fs s = OnSome (λ s'. s'.appended ≡ s.appended ++ wire_forms fs)

Same-Appends : (s : Client) (o : Option Client) → Same s o → Appends [] s o
Same-Appends s none h = tt
Same-Appends s (some s') h = h ∙ sym (append-nil s.appended)

write_message-Appends :
    (message_type : ℕ) (scratch msg : List ℕ) (s : Client)
    → IsSendable (client_frame message_type msg)
    → Appends (client_frame message_type msg ∷ []) s (write_message message_type scratch msg s)
unfolding write_message
write_message-Appends message_type scratch msg s ok =
    subst (λ e. Appends (client_frame message_type msg ∷ []) s (append_encoded e s))
      (sym (encode_lem (client_frame message_type msg) true scratch ok)) refl

take_step-Appends :
    (step : Step) (s : Client)
    → All IsSendable (written (step ∷ []))
    → Appends (written (step ∷ [])) s (take_step step s)
unfolding take_step
take_step-Appends (writes message_type scratch msg) s ok =
    write_message-Appends message_type scratch msg s ok.0
take_step-Appends (caller_sends i) s ok = Same-Appends s _ (caller_send-Same s (pick i s.callers))
take_step-Appends checks s ok = Same-Appends s _ (check_length-Same s s.checking)
take_step-Appends ticks s ok = Same-Appends s _ (loop_tick-Same s s.loop)
take_step-Appends signalled s ok = Same-Appends s _ (loop_signal-Same s s.loop)
take_step-Appends sees_done s ok = Same-Appends s _ (loop_done-Same s s.loop)
take_step-Appends loop_sends s ok = Same-Appends s _ (loop_send-Same s s.loop)
take_step-Appends cancels s ok = sym (append-nil s.appended)
take_step-Appends closes s ok = Same-Appends s _ (close_connection-Same s s.loop)

appended-extended :
    (s s' : Client) (step : Step) (steps : List Step)
    → s'.appended ≡ s.appended ++ wire_forms (written (step ∷ []))
    → (c : Client) → c.appended ≡ s'.appended ++ wire_forms (written steps)
    → c.appended ≡ s.appended ++ wire_forms (written (step ∷ steps))
appended-extended s s' step steps e c h =
    h
    ∙ ap (λ z. z ++ wire_forms (written steps)) e
    ∙ append_assoc s.appended (wire_forms (written (step ∷ []))) (wire_forms (written steps))
    ∙ ap (λ z. s.appended ++ z) (split step)
  where
    split :
        (step : Step)
        → wire_forms (written (step ∷ [])) ++ wire_forms (written steps)
          ≡ wire_forms (written (step ∷ steps))
    split (writes message_type scratch msg) = refl
    split (caller_sends i) = refl
    split checks = refl
    split ticks = refl
    split signalled = refl
    split sees_done = refl
    split loop_sends = refl
    split cancels = refl
    split closes = refl

IsSendable-parts :
    (step : Step) (steps : List Step)
    → All IsSendable (written (step ∷ steps))
    → All IsSendable (written (step ∷ [])) × All IsSendable (written steps)
IsSendable-parts (writes message_type scratch msg) steps a = ((a.0, tt), a.1)
IsSendable-parts (caller_sends i) steps a = (tt, a)
IsSendable-parts checks steps a = (tt, a)
IsSendable-parts ticks steps a = (tt, a)
IsSendable-parts signalled steps a = (tt, a)
IsSendable-parts sees_done steps a = (tt, a)
IsSendable-parts loop_sends steps a = (tt, a)
IsSendable-parts cancels steps a = (tt, a)
IsSendable-parts closes steps a = (tt, a)

-- A run appends the wire forms of what it writes, in order.
pub run_steps-Appends :
    (steps : List Step) (s c : Client)
    → All IsSendable (written steps)
    → run_steps take_step steps s ≡ some c
    → c.appended ≡ s.appended ++ wire_forms (written steps)
unfolding run_steps
run_steps-Appends [] s c ok e =
    ap (λ z. z.appended) (sym (some-injective s c e)) ∙ sym (append-nil s.appended)
run_steps-Appends (step ∷ steps) s c ok e =
    let (first, rest) = IsSendable-parts step steps ok in
    go (take_step step s) (take_step-Appends step s first)
      (λ s₁ e₁. run_steps-Appends steps s₁ c rest e₁) e
  where
    go :
        (o : Option Client)
        → Appends (written (step ∷ [])) s o
        → ((s₁ : Client)
            → run_steps take_step steps s₁ ≡ some c
            → c.appended ≡ s₁.appended ++ wire_forms (written steps))
        → run_from (run_steps take_step steps) o ≡ some c
        → c.appended ≡ s.appended ++ wire_forms (written (step ∷ steps))
    go none h rest e = grind (arith, e)
    go (some s₁) h rest e = appended-extended s s₁ step steps h c (rest s₁ e)
