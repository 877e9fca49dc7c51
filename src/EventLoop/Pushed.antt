-- ===== src/EventLoop/Pushed.antt =====
-- Only `Push` accepts events, and only `Stop` closes `quitCh`.
use hioload_ws.Prelude.{◌∷◌, ◌≡◌, List, OnSome, [], if_lem, ltb, refl, ℕ}
use hioload_ws.EventLoop.{
  EventLoop, Place, advance, after_drain, call_next, calling, clearing, dispatch, drain_one,
  draining, idle, panicked, receive_event, returned, running, see_quit, start_run, testing,
  time_out, waiting,
}

module _ (s : EventLoop) where
  abbrev SamePushed : EventLoop → Type 0
  SamePushed s' = (s'.pushed ≡ s.pushed) × (s'.quit ≡ s.quit)

  after_drain_same : (b : List ℕ) → SamePushed (after_drain s b)
  after_drain_same [] = (refl, refl)
  after_drain_same (ev ∷ evs) = (refl, refl)

  drain_one_same : (i : ℕ) (q : List ℕ) → SamePushed (drain_one s i q)
  drain_one_same i [] = after_drain_same s.batch
  drain_one_same i (ev ∷ q) =
      if_lem SamePushed (ltb i s.batch_size) (refl, refl) (after_drain_same s.batch)

  dispatch_same : (b : List ℕ) → SamePushed (dispatch s b)
  dispatch_same [] = (refl, refl)
  dispatch_same (ev ∷ evs) = (refl, refl)

  call_next_same : (cs : List (ℕ × ℕ)) → SamePushed (call_next s cs)
  call_next_same [] = (refl, refl)
  call_next_same (c ∷ cs) = (refl, refl)

  pub start_run_same : SamePushed (start_run s)
  start_run_same = if_lem SamePushed (running s.place) (refl, refl) (refl, refl)

  pub advance_same : (p : Place) → OnSome SamePushed (advance s p)
  advance_same idle = tt
  advance_same clearing = (refl, refl)
  advance_same waiting = tt
  advance_same testing = dispatch_same s.batch
  advance_same returned = tt
  advance_same panicked = tt
  advance_same (draining i) = drain_one_same i s.inbox
  advance_same (calling cs) = call_next_same cs

  pub see_quit_same : (p : Place) → OnSome SamePushed (see_quit s p)
  see_quit_same waiting =
      if_lem (OnSome SamePushed) s.quit (if_lem SamePushed s.done (refl, refl) (refl, refl)) tt
  see_quit_same idle = tt
  see_quit_same clearing = tt
  see_quit_same testing = tt
  see_quit_same returned = tt
  see_quit_same panicked = tt
  see_quit_same (draining i) = tt
  see_quit_same (calling cs) = tt

  pub receive_event_same : (p : Place) (q : List ℕ) → OnSome SamePushed (receive_event s p q)
  receive_event_same waiting [] = tt
  receive_event_same waiting (ev ∷ q) = (refl, refl)
  receive_event_same idle q = tt
  receive_event_same clearing q = tt
  receive_event_same testing q = tt
  receive_event_same returned q = tt
  receive_event_same panicked q = tt
  receive_event_same (draining i) q = tt
  receive_event_same (calling cs) q = tt

  pub time_out_same : (p : Place) → OnSome SamePushed (time_out s p)
  time_out_same waiting = (refl, refl)
  time_out_same idle = tt
  time_out_same clearing = tt
  time_out_same testing = tt
  time_out_same returned = tt
  time_out_same panicked = tt
  time_out_same (draining i) = tt
  time_out_same (calling cs) = tt
