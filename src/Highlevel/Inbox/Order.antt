-- ===== src/Highlevel/Inbox/Order.antt =====
-- The order in which the reader gets the buffers.
use hioload_ws.Prelude.{
  ◌++◌, ◌∙◌, ◌∷◌, ◌≡◌, All, All-of_append, List, OnSome, Option, [], ap, append_assoc, arith, false,
  length, ltb, none, refl, some, subst, sym, true, ℕ,
}
use hioload_ws.Api.Buffer.{Buffer}
use hioload_ws.Highlevel.Inbox.{
  Inbox, Step, abandons, closes, connection_done, history, history_from, idle, incoming_capacity,
  is_open, new_inbox, offer, offers, reads, receives, sees_done, sends, spills, take_step,
}
use hioload_ws.Highlevel.Inbox.Ordered.{HasData, InOrder, longer, take_step-InOrder}
use hioload_ws.Highlevel.Inbox.Weight.{offered}

offered-cons :
    (step : Step) (steps : List Step)
    → offered (step ∷ steps) ≡ offered (step ∷ []) ++ offered steps
offered-cons (offers b) steps = refl
offered-cons (spills i) steps = refl
offered-cons (abandons i) steps = refl
offered-cons receives steps = refl
offered-cons sends steps = refl
offered-cons sees_done steps = refl
offered-cons reads steps = refl
offered-cons closes steps = refl
offered-cons connection_done steps = refl

history-InOrder :
    (bs : List Buffer) (steps : List Step) (s : Inbox)
    → All HasData (bs ++ offered steps)
    → InOrder bs s
    → OnSome (InOrder (bs ++ offered steps)) (history steps s)
unfolding history
history-InOrder bs [] s a h = longer bs (some s) h
history-InOrder bs (step ∷ steps) s a h =
    let e : (bs ++ offered (step ∷ [])) ++ offered steps ≡ bs ++ offered (step ∷ steps) =
      append_assoc bs (offered (step ∷ [])) (offered steps)
      ∙ ap (λ z. bs ++ z) (sym (offered-cons step steps)) in
    go (bs ++ offered (step ∷ [])) e
      (λ s₁. history-InOrder (bs ++ offered (step ∷ [])) steps s₁ (subst (All HasData) (sym e) a))
      (take_step step s) (take_step-InOrder bs step s (All-of_append HasData bs _ a).0 h)
  where
    go :
        {cs ds : List Buffer} (es : List Buffer)
        → cs ≡ ds
        → ((s₁ : Inbox) → InOrder es s₁ → OnSome (InOrder cs) (history steps s₁))
        → (o : Option Inbox) → OnSome (InOrder es) o
        → OnSome (InOrder ds) (history_from (history steps) o)
    go es e rest none h = tt
    go es e rest (some s₁) h = subst (λ z. OnSome (InOrder z) (history steps s₁)) e (rest s₁ h)

-- In a history of a new inbox in which the worker is never started and `Close` is not called, with
-- data in every buffer offered, the buffers that were read and then those in `incoming` are those
-- that were offered, in their order.
pub history-in_order :
    (steps : List Step) (s : Inbox)
    → history steps new_inbox ≡ some s
    → All HasData (offered steps)
    → s.overflow ≡ none
    → s.closer ≡ is_open
    → s.delivered ++ s.incoming ≡ offered steps
unfolding InOrder
history-in_order steps s e a n o =
    let kept : OnSome (InOrder (offered steps)) (some s) =
      subst (OnSome (InOrder (offered steps))) e
        (history-InOrder [] steps new_inbox a (λ n o. (refl, refl))) in
    (kept n o).0

-- Once `incoming` is full the order is lost: whenever an idle worker has nothing to move and the next
-- in `incoming` has data, a buffer goes through the worker while one that is offered after it, and
-- after a read, takes the last place in `incoming` before it.
pub history-overtakes :
    (s : Inbox) (next first second : Buffer) (q : List Buffer) (bs : List ℕ)
    → s.incoming ≡ next ∷ q
    → length s.incoming ≡ incoming_capacity
    → next.bytes ≡ some bs
    → s.overflow ≡ some []
    → s.pending ≡ []
    → s.worker ≡ idle
    → (s' : Inbox) × (history (offers first ∷ spills 0 ∷ reads ∷ offers second ∷ []) s ≡ some s')
      × (s'.incoming ≡ q ++ (second ∷ []))
      × (s'.overflow ≡ some (first ∷ []))
unfolding history take_step offer
history-overtakes s next first second q bs e full d o p v =
    let room : ltb (length q) incoming_capacity ≡ true = ground (arith, full, ap length e) in
    let no_room : ltb (length s.incoming) incoming_capacity ≡ false = ground (arith, full) in
    (
      record s {
        incoming = q ++ (second ∷ []);
        overflow = some (first ∷ []);
        pending = [];
        delivered = s.delivered ++ (next ∷ []);
      },
      rw (no_room, o, p) (rw e (rw d (rw room refl))),
      refl,
      refl,
    )
