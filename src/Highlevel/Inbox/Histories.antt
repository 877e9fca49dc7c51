-- ===== src/Highlevel/Inbox/Histories.antt =====
-- What every step keeps, every history keeps.
use hioload_ws.Prelude.{◌∷◌, List, OnSome, Option, [], none, some}
use hioload_ws.Highlevel.Inbox.{Inbox, Step, history, history_from, take_step}

pub history-OnSome :
    (P : Inbox → Type 0)
    → ((step : Step) (s : Inbox) → P s → OnSome P (take_step step s))
    → (steps : List Step) (s : Inbox) → P s
    → OnSome P (history steps s)
unfolding history
history-OnSome P keeps [] s h = h
history-OnSome P keeps (step ∷ steps) s h =
    go (take_step step s) (history-OnSome P keeps steps) (keeps step s h)
  where
    go :
        (o : Option Inbox)
        → ((s₁ : Inbox) → P s₁ → OnSome P (history steps s₁))
        → OnSome P o
        → OnSome P (history_from (history steps) o)
    go none rest h = tt
    go (some s₁) rest h = rest s₁ h
