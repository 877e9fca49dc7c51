-- ===== src/Client/Order.antt =====
-- What the client hands to the transport, and in which order.
use Prim.Native.Nat.{zero}
use mathlib.Core.List.{flatten}
use mathlib.Core.Option.{some-injective}
use hioload_ws.Prelude.{
  ◌++◌, ◌+◌, ◌∙◌, ◌∷◌, ◌≡◌, ◌≤◌, Along, Bool, List, OnSome, Option, [], ap, append-nil, append-snoc,
  append_assoc, ap₂, arith, false, if_lem, length, length-append, ltb, none, refl, run_steps,
  run_steps-along, some, suc, sym, true, ℕ,
}
use hioload_ws.Client.{
  Client, LoopPlace, Step, append, append_encoded, caller_flush, caller_send, caller_sends, cancels,
  check_length, checks, client_frame, close_connection, closes, finished, last_flush, loop_done,
  loop_flush, loop_send, loop_sends, loop_signal, loop_tick, new_client, pick, sees_done, selecting,
  sending, sending_last, signalled, take_step, ticks, write_message, writes,
}
use hioload_ws.Frame.Encode.{Encoded, encode_frame_to_buffer_with_mask, encoded, panic, too_large}

-- The batch that `sendLoop` has to send.
abbrev pub loop_batch : LoopPlace → List (List ℕ)
loop_batch selecting = []
loop_batch finished = []
loop_batch (sending b) = b
loop_batch (sending_last b) = b

abbrev pub loop_flushes : LoopPlace → ℕ
loop_flushes selecting = 0
loop_flushes finished = 0
loop_flushes (sending b) = 1
loop_flushes (sending_last b) = 1

-- The batches that are between their `Swap` and the end of their `transport.Send`.
abbrev pub in_flight : Client → List (List ℕ)
in_flight s = flatten s.callers ++ loop_batch s.loop

-- At most one flush is under way.
abbrev pub OneFlush : Client → Type 0
OneFlush s = length s.callers + loop_flushes s.loop ≤ 1

abbrev pub InOrder : Client → Type 0
InOrder s = s.appended ≡ s.sent ++ (in_flight s ++ s.batch)

-- The lists when at most one flush is under way.
swap_caller :
    (cs : List (List (List ℕ))) (p : LoopPlace) (x : List (List ℕ))
    → length (cs ++ (x ∷ [])) + loop_flushes p ≤ 1
    → (flatten cs ++ loop_batch p) ++ x ≡ (flatten (cs ++ (x ∷ [])) ++ loop_batch p) ++ []
unfolding flatten
swap_caller [] selecting x l = sym (append-nil _ ∙ append-nil _ ∙ append-nil x)
swap_caller [] finished x l = sym (append-nil _ ∙ append-nil _ ∙ append-nil x)
swap_caller [] (sending b) x l = absurd (omega (arith, l))
swap_caller [] (sending_last b) x l = absurd (omega (arith, l))
swap_caller (c ∷ cs) p x l = absurd (omega (arith, l, length-append cs (x ∷ [])))

no_callers : (cs : List (List (List ℕ))) → length cs + 1 ≤ 1 → flatten cs ≡ []
unfolding flatten
no_callers [] l = refl
no_callers (c ∷ cs) l = absurd (omega (arith, l))

picked :
    (i : ℕ) (cs : List (List (List ℕ))) (p : LoopPlace) (b : List (List ℕ))
    (rest : List (List (List ℕ)))
    → length cs + loop_flushes p ≤ 1
    → pick i cs ≡ some (b, rest)
    → flatten cs ++ loop_batch p ≡ b ++ (flatten rest ++ loop_batch p)
unfolding flatten
picked i [] p b rest l e = grind (arith, e)
picked zero (c ∷ []) p b rest l e =
    let same = some-injective _ _ e in
    ap (λ z. z ++ loop_batch p) (append-nil c)
    ∙ ap (λ z. z.0 ++ (flatten z.1 ++ loop_batch p)) {x = (c, [])} {y = (b, rest)} same
picked (suc i) (c ∷ []) p b rest l e = grind (arith, e)
picked i (c ∷ d ∷ cs) p b rest l e = absurd (omega (arith, l))

module _ (s : Client) (one : OneFlush s) (h : InOrder s) where
  abbrev Kept : Client → Type 0
  Kept s' = OneFlush s' → InOrder s'

  append-Kept : (raw : List ℕ) → Kept (append raw s)
  append-Kept raw o = append-snoc s.sent (in_flight s) s.batch raw h

  append_encoded-Kept : (e : Encoded) → OnSome Kept (append_encoded e s)
  append_encoded-Kept too_large = λ o. h
  append_encoded-Kept (encoded raw) = append-Kept raw
  append_encoded-Kept panic = tt

  caller_flush-Kept :
      (n : ℕ) (b : List (List ℕ)) → s.batch ≡ b → Kept (caller_flush (record s { checking = n }) b)
  caller_flush-Kept n [] e o = h ∙ ap (λ z. s.sent ++ (in_flight s ++ z)) e
  caller_flush-Kept n (b ∷ bs) e o =
      h
      ∙ ap (λ z. s.sent ++ (in_flight s ++ z)) e
      ∙ ap (λ z. s.sent ++ z) (swap_caller s.callers s.loop (b ∷ bs) o)

  check_length-Kept : (n : ℕ) → OnSome Kept (check_length s n)
  check_length-Kept zero = tt
  check_length-Kept (suc n) =
      if_lem Kept (ltb (length s.batch) s.batch_size) (λ o. h) (caller_flush-Kept n s.batch refl)

  caller_send-Kept :
      (i : ℕ) (o : Option (List (List ℕ) × List (List (List ℕ))))
      → pick i s.callers ≡ o
      → OnSome Kept (caller_send s o)
  caller_send-Kept i none e = tt
  caller_send-Kept i (some (b, rest)) e = λ o.
      h
      ∙ ap (λ z. s.sent ++ (z ++ s.batch)) (picked i s.callers s.loop b rest one e)
      ∙ ap (λ z. s.sent ++ z) (append_assoc b (flatten rest ++ loop_batch s.loop) s.batch)
      ∙ sym (append_assoc s.sent b ((flatten rest ++ loop_batch s.loop) ++ s.batch))

  -- `sendLoop` swaps the batch out.
  swap_loop :
      (p q : LoopPlace) (b : List (List ℕ))
      → s.batch ≡ b
      → loop_batch p ≡ []
      → loop_batch q ≡ b
      → s.loop ≡ p
      → length s.callers + 1 ≤ 1
      → s.appended ≡ s.sent ++ ((flatten s.callers ++ loop_batch q) ++ [])
  swap_loop p q b e n m at l =
      let none_left = no_callers s.callers l in
      h
      ∙ ap₂ (λ z w. s.sent ++ ((flatten s.callers ++ z) ++ w)) (ap loop_batch at ∙ n) e
      ∙ ap (λ z. s.sent ++ ((z ++ []) ++ b)) none_left
      ∙ ap (λ z. s.sent ++ z) (sym (append-nil b))
      ∙ ap₂ (λ z w. s.sent ++ ((z ++ w) ++ [])) (sym none_left) (sym m)

  loop_flush-Kept :
      (f : Bool) (b : List (List ℕ))
      → s.batch ≡ b
      → s.loop ≡ selecting
      → Kept (loop_flush (record s { flush_signal = f }) b)
  loop_flush-Kept f [] e at = λ o. h ∙ ap (λ z. s.sent ++ (in_flight s ++ z)) e
  loop_flush-Kept f (b ∷ bs) e at =
      λ o. swap_loop selecting (sending (b ∷ bs)) (b ∷ bs) e refl refl at o

  last_flush-Kept : (b : List (List ℕ)) → s.batch ≡ b → s.loop ≡ selecting → Kept (last_flush s b)
  last_flush-Kept [] e at =
      λ o. h ∙ ap₂ (λ z w. s.sent ++ ((flatten s.callers ++ loop_batch w) ++ z)) e at
  last_flush-Kept (b ∷ bs) e at =
      λ o. swap_loop selecting (sending_last (b ∷ bs)) (b ∷ bs) e refl refl at o

  loop_tick-Kept : (p : LoopPlace) → s.loop ≡ p → OnSome Kept (loop_tick s p)
  loop_tick-Kept selecting at = loop_flush-Kept s.flush_signal s.batch refl at
  loop_tick-Kept finished at = tt
  loop_tick-Kept (sending b) at = tt
  loop_tick-Kept (sending_last b) at = tt

  loop_signal-Kept : (p : LoopPlace) → s.loop ≡ p → OnSome Kept (loop_signal s p)
  loop_signal-Kept selecting at =
      if_lem (OnSome Kept) s.flush_signal (loop_flush-Kept false s.batch refl at) tt
  loop_signal-Kept finished at = tt
  loop_signal-Kept (sending b) at = tt
  loop_signal-Kept (sending_last b) at = tt

  loop_done-Kept : (p : LoopPlace) → s.loop ≡ p → OnSome Kept (loop_done s p)
  loop_done-Kept selecting at =
      if_lem (OnSome Kept) s.cancelled (last_flush-Kept s.batch refl at) tt
  loop_done-Kept finished at = tt
  loop_done-Kept (sending b) at = tt
  loop_done-Kept (sending_last b) at = tt

  -- `sendLoop` sends what it has swapped out.
  sent_by_loop :
      (p : LoopPlace) (b : List (List ℕ))
      → s.loop ≡ p
      → loop_batch p ≡ b
      → loop_flushes p ≡ 1
      → s.appended ≡ (s.sent ++ b) ++ ((flatten s.callers ++ []) ++ s.batch)
  sent_by_loop p b at e n =
      let l : length s.callers + 1 ≤ 1 = omega (arith, one, ap loop_flushes at, n) in
      let none_left = no_callers s.callers l in
      h
      ∙ ap₂ (λ z w. s.sent ++ ((z ++ w) ++ s.batch)) none_left (ap loop_batch at ∙ e)
      ∙ sym (append_assoc s.sent b s.batch)
      ∙ ap (λ z. (s.sent ++ b) ++ ((z ++ []) ++ s.batch)) (sym none_left)

  loop_send-Kept : (p : LoopPlace) → s.loop ≡ p → OnSome Kept (loop_send s p)
  loop_send-Kept selecting at = tt
  loop_send-Kept finished at = tt
  loop_send-Kept (sending b) at = λ o. sent_by_loop (sending b) b at refl refl
  loop_send-Kept (sending_last b) at = λ o. sent_by_loop (sending_last b) b at refl refl

  close_connection-Kept : (p : LoopPlace) → OnSome Kept (close_connection s p)
  close_connection-Kept selecting = tt
  close_connection-Kept finished = λ o. h
  close_connection-Kept (sending b) = tt
  close_connection-Kept (sending_last b) = tt

take_step-Kept :
    (step : Step) (s : Client)
    → OneFlush s
    → InOrder s
    → OnSome (λ s'. OneFlush s' → InOrder s') (take_step step s)
unfolding take_step write_message
take_step-Kept (writes message_type scratch msg) s one h =
    append_encoded-Kept s one h
      (encode_frame_to_buffer_with_mask (client_frame message_type msg) true scratch)
take_step-Kept (caller_sends i) s one h = caller_send-Kept s one h i (pick i s.callers) refl
take_step-Kept checks s one h = check_length-Kept s one h s.checking
take_step-Kept ticks s one h = loop_tick-Kept s one h s.loop refl
take_step-Kept signalled s one h = loop_signal-Kept s one h s.loop refl
take_step-Kept sees_done s one h = loop_done-Kept s one h s.loop refl
take_step-Kept loop_sends s one h = loop_send-Kept s one h s.loop refl
take_step-Kept cancels s one h = λ o. h
take_step-Kept closes s one h = close_connection-Kept s one h s.loop

-- The order of what is sent: in a run of a new client in which at no time two flushes are between
-- their `Swap` and the end of their `transport.Send`, what was handed to the transport, what the one
-- flush has in hand and what is in the batch are together the frames appended, in their order.
pub run_steps-appended :
    (batch_size : ℕ) (steps : List Step) (s : Client)
    → Along OneFlush take_step steps (new_client batch_size)
    → run_steps take_step steps (new_client batch_size) ≡ some s
    → s.appended ≡ s.sent ++ (in_flight s ++ s.batch)
unfolding flatten
run_steps-appended batch_size steps s along e =
    run_steps-along take_step OneFlush InOrder take_step-Kept steps (new_client batch_size) along
      refl s e
