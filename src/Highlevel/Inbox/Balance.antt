-- ===== src/Highlevel/Inbox/Balance.antt =====
-- Where the buffers of a connection's inbound queue are.
use hioload_ws.Prelude.{◌+◌, ◌∷◌, ◌≡◌, List, Option, [], arith, none, some, subst, ℕ}
use hioload_ws.Api.Buffer.{Buffer}
use hioload_ws.Highlevel.Inbox.{
  Inbox, Step, abandons, closes, connection_done, history, history_from, new_inbox, offers, reads,
  receives, sees_done, sends, spills, take_step,
}
use hioload_ws.Highlevel.Inbox.Weight.{Adds, offered, take_step-Adds, total, weigh}

module _ (w : Buffer → ℕ) where
  offered-cons :
      (step : Step) (steps : List Step)
      → total w (offered (step ∷ steps)) ≡ total w (offered (step ∷ [])) + total w (offered steps)
  offered-cons (offers b) steps = omega arith
  offered-cons (spills i) steps = omega arith
  offered-cons (abandons i) steps = omega arith
  offered-cons receives steps = omega arith
  offered-cons sends steps = omega arith
  offered-cons sees_done steps = omega arith
  offered-cons reads steps = omega arith
  offered-cons closes steps = omega arith
  offered-cons connection_done steps = omega arith

  history-Adds :
      (steps : List Step) (s : Inbox) → Adds w (total w (offered steps)) s (history steps s)
  unfolding history
  history-Adds [] s = omega arith
  history-Adds (step ∷ steps) s =
      go (history-Adds steps) (take_step step s) (take_step-Adds w step s)
    where
      grow :
          (s₁ : Inbox) (o : Option Inbox)
          → weigh w s₁ ≡ total w (offered (step ∷ [])) + weigh w s
          → Adds w (total w (offered steps)) s₁ o
          → Adds w (total w (offered (step ∷ steps))) s o
      grow s₁ none e h = tt
      grow s₁ (some s') e h = omega (arith, offered-cons step steps)

      go :
          ((s₁ : Inbox) → Adds w (total w (offered steps)) s₁ (history steps s₁))
          → (o : Option Inbox) → Adds w (total w (offered (step ∷ []))) s o
          → Adds w (total w (offered (step ∷ steps))) s (history_from (history steps) o)
      go h' none h = tt
      go h' (some s₁) h = grow s₁ (history steps s₁) h (h' s₁)

-- No buffer is lost or doubled: after every history of a new inbox, whichever buffers a weight counts,
-- those that were offered are together those in the two queues, with the waiting calls and the
-- worker, given back to the pool, returned to the reader, and left without data.
pub history-weigh :
    (w : Buffer → ℕ) (steps : List Step) (s : Inbox)
    → history steps new_inbox ≡ some s
    → weigh w s ≡ total w (offered steps)
history-weigh w steps s e =
    let sum : Adds w (total w (offered steps)) new_inbox (some s) =
      subst (Adds w (total w (offered steps)) new_inbox) e (history-Adds w steps new_inbox) in
    omega arith
