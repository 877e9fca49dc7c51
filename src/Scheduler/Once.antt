-- ===== src/Scheduler/Once.antt =====
-- How often a scheduled function runs.
use hioload_ws.Prelude.{
  ◌+◌, ◌≡◌, ◌≢◌, ◌≤◌, ◌⊎◌, Bool, List, OnSome, ap, arith, false, if_cases, inl, inr, refl,
  run_steps, run_steps-always, some, subst, sym, true, ℕ,
}
use hioload_ws.Scheduler.{
  Goroutine, Step, Task, Timer, armed, calling, cancel, cancels, drained, fire, fired, fires,
  forgets, gone, leave, leaves, leaving, receive, receives, schedule, see_done, sees_done, stopped,
  take_step, waiting,
}

-- Whether the channel is closed and how often the function was called, for each pair of places that
-- the timer and the goroutine can be at.
Allowed : Timer → Goroutine → Bool → ℕ → Type 0
Allowed armed waiting d n = (d ≡ false) × (n ≡ 0)
Allowed fired waiting d n = (d ≡ false) × (n ≡ 0)
Allowed stopped calling d n = ⊥
Allowed stopped g d n = (d ≡ true) × (n ≡ 0)
Allowed drained waiting d n = ⊥
Allowed drained g d n = (d ≡ false) × (n ≡ 1)
Allowed t g d n = ⊥

-- The deleted entry of a goroutine that has returned.
IsForgotten : Goroutine → Bool → Type 0
IsForgotten gone m = m ≡ false
IsForgotten g m = Unit {0}

abbrev IsGood : Task → Type 0
IsGood s =
    Allowed s.timer s.goroutine s.done s.runs
    × IsForgotten s.goroutine s.in_timers
    × (s.panicked ≡ false)

-- How the places may change.
armed→fired : (g : Goroutine) (d : Bool) (n : ℕ) → Allowed armed g d n → Allowed fired g d n
unfolding Allowed
armed→fired waiting d n h = h
armed→fired calling d n h = h
armed→fired leaving d n h = h
armed→fired gone d n h = h

armed→stopped : (g : Goroutine) (d : Bool) (n : ℕ) → Allowed armed g d n → Allowed stopped g true n
unfolding Allowed
armed→stopped waiting d n h = (refl, h.1)
armed→stopped calling d n h = h
armed→stopped leaving d n h = absurd h
armed→stopped gone d n h = absurd h

fired→stopped : (g : Goroutine) (d : Bool) (n : ℕ) → Allowed fired g d n → Allowed stopped g true n
unfolding Allowed
fired→stopped waiting d n h = (refl, h.1)
fired→stopped calling d n h = h
fired→stopped leaving d n h = absurd h
fired→stopped gone d n h = absurd h

fired-open : (g : Goroutine) (d : Bool) (n : ℕ) → Allowed fired g d n → d ≡ false
unfolding Allowed
fired-open waiting d n h = h.0
fired-open calling d n h = absurd h
fired-open leaving d n h = absurd h
fired-open gone d n h = absurd h

armed-open : (g : Goroutine) (d : Bool) (n : ℕ) → Allowed armed g d n → d ≡ false
unfolding Allowed
armed-open waiting d n h = h.0
armed-open calling d n h = absurd h
armed-open leaving d n h = absurd h
armed-open gone d n h = absurd h

done→leaving :
    (t : Timer) (d : Bool) (n : ℕ) → Allowed t waiting d n → d ≡ true → Allowed t leaving d n
unfolding Allowed
done→leaving armed d n h e = absurd (grind (arith, h.0, e))
done→leaving fired d n h e = absurd (grind (arith, h.0, e))
done→leaving drained d n h e = absurd h
done→leaving stopped d n h e = h

calling→leaving : (t : Timer) (d : Bool) (n : ℕ) → Allowed t calling d n → Allowed t leaving d n
unfolding Allowed
calling→leaving armed d n h = h
calling→leaving fired d n h = h
calling→leaving drained d n h = h
calling→leaving stopped d n h = absurd h

leaving→gone : (t : Timer) (d : Bool) (n : ℕ) → Allowed t leaving d n → Allowed t gone d n
unfolding Allowed
leaving→gone armed d n h = h
leaving→gone fired d n h = h
leaving→gone drained d n h = h
leaving→gone stopped d n h = h

module _ (s : Task) (forgotten : IsForgotten s.goroutine s.in_timers)
    (fine : s.panicked ≡ false) where
  fire-IsGood : (t : Timer) → Allowed t s.goroutine s.done s.runs → OnSome IsGood (fire s t)
  fire-IsGood armed h = (armed→fired s.goroutine s.done s.runs h, forgotten, fine)
  fire-IsGood fired h = tt
  fire-IsGood drained h = tt
  fire-IsGood stopped h = tt

  receive-IsGood :
      (g : Goroutine) (t : Timer) → Allowed t g s.done s.runs → OnSome IsGood (receive s g t)
  unfolding Allowed IsForgotten
  receive-IsGood waiting fired h = ((h.0, ap (λ n. n + 1) h.1), tt, fine)
  receive-IsGood waiting armed h = tt
  receive-IsGood waiting drained h = tt
  receive-IsGood waiting stopped h = tt
  receive-IsGood calling t h = tt
  receive-IsGood leaving t h = tt
  receive-IsGood gone t h = tt

  see_done-IsGood : (g : Goroutine) → Allowed s.timer g s.done s.runs → OnSome IsGood (see_done s g)
  unfolding IsForgotten
  see_done-IsGood waiting h =
      if_cases (OnSome IsGood) s.done (λ e. (done→leaving s.timer s.done s.runs h e, tt, fine))
        (λ e. tt)
  see_done-IsGood calling h = tt
  see_done-IsGood leaving h = tt
  see_done-IsGood gone h = tt

  leave-IsGood : (g : Goroutine) → Allowed s.timer g s.done s.runs → OnSome IsGood (leave s g)
  unfolding IsForgotten
  leave-IsGood waiting h = tt
  leave-IsGood calling h = (calling→leaving s.timer s.done s.runs h, tt, fine)
  leave-IsGood leaving h = (leaving→gone s.timer s.done s.runs h, refl, fine)
  leave-IsGood gone h = tt

  cancel-IsGood :
      (t : Timer) → s.timer ≡ t → Allowed t s.goroutine s.done s.runs → IsGood (cancel s t)
  cancel-IsGood armed e h =
      if_cases IsGood s.done
        (λ d. absurd (grind (arith, d, armed-open s.goroutine s.done s.runs h)))
        (λ d. (armed→stopped s.goroutine s.done s.runs h, forgotten, fine))
  cancel-IsGood fired e h =
      if_cases IsGood s.done
        (λ d. absurd (grind (arith, d, fired-open s.goroutine s.done s.runs h)))
        (λ d. (fired→stopped s.goroutine s.done s.runs h, forgotten, fine))
  cancel-IsGood drained e h =
      (subst (λ z. Allowed z s.goroutine s.done s.runs) (sym e) h, forgotten, fine)
  cancel-IsGood stopped e h =
      (subst (λ z. Allowed z s.goroutine s.done s.runs) (sym e) h, forgotten, fine)

  forget_lem : (g : Goroutine) → IsForgotten g false
  unfolding IsForgotten
  forget_lem waiting = tt
  forget_lem calling = tt
  forget_lem leaving = tt
  forget_lem gone = refl

take_step-IsGood : (step : Step) (s : Task) → IsGood s → OnSome IsGood (take_step step s)
unfolding take_step
take_step-IsGood fires s (a, f, p) = fire-IsGood s f p s.timer a
take_step-IsGood receives s (a, f, p) = receive-IsGood s f p s.goroutine s.timer a
take_step-IsGood sees_done s (a, f, p) = see_done-IsGood s f p s.goroutine a
take_step-IsGood leaves s (a, f, p) = leave-IsGood s f p s.goroutine a
take_step-IsGood cancels s (a, f, p) = cancel-IsGood s f p s.timer refl a
take_step-IsGood forgets s (a, f, p) = (a, forget_lem s f p s.goroutine, p)

at_most_once : (t : Timer) (g : Goroutine) (d : Bool) (n : ℕ) → Allowed t g d n → n ≤ 1
unfolding Allowed
at_most_once armed waiting d n h = omega (arith, h.1)
at_most_once fired waiting d n h = omega (arith, h.1)
at_most_once stopped waiting d n h = omega (arith, h.1)
at_most_once stopped leaving d n h = omega (arith, h.1)
at_most_once stopped gone d n h = omega (arith, h.1)
at_most_once drained calling d n h = omega (arith, h.1)
at_most_once drained leaving d n h = omega (arith, h.1)
at_most_once drained gone d n h = omega (arith, h.1)
at_most_once armed calling d n h = absurd h
at_most_once armed leaving d n h = absurd h
at_most_once armed gone d n h = absurd h
at_most_once fired calling d n h = absurd h
at_most_once fired leaving d n h = absurd h
at_most_once fired gone d n h = absurd h
at_most_once drained waiting d n h = absurd h
at_most_once stopped calling d n h = absurd h

cancelled_lem :
    (t : Timer) (g : Goroutine) (d : Bool) (n : ℕ)
    → Allowed t g d n
    → (d ≡ false) ⊎ ((t ≡ stopped) × (n ≡ 0))
unfolding Allowed
cancelled_lem armed waiting d n h = inl h.0
cancelled_lem fired waiting d n h = inl h.0
cancelled_lem stopped waiting d n h = inr (refl, h.1)
cancelled_lem stopped leaving d n h = inr (refl, h.1)
cancelled_lem stopped gone d n h = inr (refl, h.1)
cancelled_lem drained calling d n h = inl h.0
cancelled_lem drained leaving d n h = inl h.0
cancelled_lem drained gone d n h = inl h.0
cancelled_lem armed calling d n h = absurd h
cancelled_lem armed leaving d n h = absurd h
cancelled_lem armed gone d n h = absurd h
cancelled_lem fired calling d n h = absurd h
cancelled_lem fired leaving d n h = absurd h
cancelled_lem fired gone d n h = absurd h
cancelled_lem drained waiting d n h = absurd h
cancelled_lem stopped calling d n h = absurd h

forgotten_lem : (g : Goroutine) (m : Bool) → IsForgotten g m → (g ≢ gone) ⊎ (m ≡ false)
unfolding IsForgotten
forgotten_lem waiting m f = inl (λ e. grind (arith, e))
forgotten_lem calling m f = inl (λ e. grind (arith, e))
forgotten_lem leaving m f = inl (λ e. grind (arith, e))
forgotten_lem gone m f = inr f

-- Whatever the timer, the goroutine and any number of calls of `Cancel` do, and in any order: the
-- function is run at most once; once `done` is closed the timer was stopped and the function was not
-- and will not be run; a goroutine that has returned leaves no entry in the map; and `done` is never
-- closed twice.
pub run_steps-once :
    (steps : List Step) (s : Task)
    → run_steps take_step steps schedule ≡ some s
    → (s.runs ≤ 1)
      × ((s.done ≡ false) ⊎ ((s.timer ≡ stopped) × (s.runs ≡ 0)))
      × ((s.goroutine ≢ gone) ⊎ (s.in_timers ≡ false))
      × (s.panicked ≡ false)
unfolding Allowed IsForgotten
run_steps-once steps s e =
    let (a, f, p) =
      run_steps-always take_step IsGood take_step-IsGood steps schedule ((refl, refl), tt, refl) s
        e in
    (
      at_most_once s.timer s.goroutine s.done s.runs a,
      cancelled_lem s.timer s.goroutine s.done s.runs a,
      forgotten_lem s.goroutine s.in_timers f,
      p,
    )
