-- ===== src/Executor/Rest.antt =====
-- What an executor still runs once `Close` has stopped its workers.
use hioload_ws.Prelude.{if◌then◌else◌}
use hioload_ws.Executor.{advances}
use hioload_ws.Executor.Submit.{pick}
use hioload_ws.Executor.{gives_up}
use hioload_ws.Executor.{quits}
use hioload_ws.Executor.{works}
use hioload_ws.Prelude.{◌∙◌, ◌∙◌}
use hioload_ws.Executor.{resizes}
use Prim.Native.Nat.{zero}
use hioload_ws.Prelude.{if_cases, length-append, refl, sym, ◌==◌, ◌==◌}
use mathlib.Core.Option.{some-injective}
use hioload_ws.Executor.State.{local_capacity}
use hioload_ws.Executor.{submits}
use hioload_ws.Prelude.{[], [], ap, ltb, none, run_steps-always, suc, ◌++◌, ◌++◌}
use hioload_ws.Executor.Resize.{begin_resize, end_resize, request_resize, stop_all}
use hioload_ws.Executor.State.{is_closed}
use hioload_ws.Executor.Submit.{advance_call, advance_picked, enqueue_at, give_up, give_up_picked}
use hioload_ws.Executor.Work.{dequeue_from, quit_at, quit_worker, select_global, work, work_at}
use hioload_ws.Executor.{step_of}
use hioload_ws.Prelude.{OnSome, arith, if_lem, length, run_steps, set, some, true, ◌+◌, ◌+◌}
use hioload_ws.Executor.Submit.{load_queue}
use hioload_ws.Executor.Resize.{begin_close}
use hioload_ws.Prelude.{All, Option, get_elem?, ◌∷◌, ◌≡◌, ◌≡◌, ◌≤◌, ◌≤◌}
use hioload_ws.Executor.{Step}
use hioload_ws.Executor.Submit.{check_open, submit_global}
use hioload_ws.Executor.State.{Call, Closer, Manager}
use hioload_ws.Prelude.{List, ℕ}
use hioload_ws.Executor.State.{Executor, Worker, WorkerPlace}
use hioload_ws.Executor.{take_step}
use hioload_ws.Executor.State.{
  stopped, exited, awaiting, selecting, selecting_global, dequeuing, closing, is_open, requested,
  removing, tested, refused, indexed, holding,
}
use hioload_ws.Executor.{stops_all, closes, resize_begins, resize_ends}

abbrev pub IsStopped : Worker → Type 0
IsStopped w = w.stop ≡ true

at_IsStopped :
    (ws : List Worker) (j : ℕ) (x : Worker)
    → All IsStopped ws
    → get_elem? ws j ≡ some x
    → IsStopped x
at_IsStopped [] j x a e = grind (arith, e)
at_IsStopped (w ∷ ws) zero x a e = ap (λ v. v.stop) (sym (some-injective w x e)) ∙ a.0
at_IsStopped (w ∷ ws) (suc j) x a e = at_IsStopped ws j x a.1 e

set-IsStopped :
    (ws : List Worker) (j : ℕ) (x : Worker)
    → All IsStopped ws
    → IsStopped x
    → All IsStopped (set ws j x)
set-IsStopped [] j x a h = tt
set-IsStopped (w ∷ ws) zero x a h = (h, a.1)
set-IsStopped (w ∷ ws) (suc j) x a h = (a.0, set-IsStopped ws j x a.1 h)

-- The tasks that a stopped worker may still run.
abbrev left : WorkerPlace → ℕ
left selecting = 0
left dequeuing = 1
left selecting_global = 1
left exited = 0

abbrev all_left : List Worker → ℕ
all_left [] = 0
all_left (w ∷ ws) = left w.place + all_left ws

all_left-set :
    (ws : List Worker) (j : ℕ) (x y : Worker)
    → get_elem? ws j ≡ some x
    → all_left (set ws j y) + left x.place ≡ all_left ws + left y.place
all_left-set [] j x y e = grind (arith, e)
all_left-set (z ∷ ws) zero x y e =
    let same : left z.place ≡ left x.place = ap (λ v. left v.place) (some-injective z x e) in
    omega (arith, same)
all_left-set (z ∷ ws) (suc j) x y e = omega (arith, all_left-set ws j x y e)

left_le : (p : WorkerPlace) → left p ≤ 1
left_le selecting = omega arith
left_le dequeuing = omega arith
left_le selecting_global = omega arith
left_le exited = omega arith

all_left_le : (ws : List Worker) → all_left ws ≤ length ws
all_left_le [] = omega arith
all_left_le (w ∷ ws) = omega (arith, left_le w.place, all_left_le ws)

-- All are stopped, and at most `n` tasks are run in the end.
abbrev Ends : ℕ → Executor → Type 0
Ends n s =
    All IsStopped s.workers
    × (s.closer ≡ stopped)
    × (s.manager ≡ awaiting)
    × (length s.executed + all_left s.workers ≤ n)

module _ (n : ℕ) (s : Executor) (h : Ends n s) where
  check_open-Ends : (task : ℕ) → Ends n (check_open task s)
  check_open-Ends task = if_lem (Ends n) (is_closed s.closer) h h

  submit_global-Ends : (task : ℕ) → Ends n (submit_global task s)
  submit_global-Ends task = if_lem (Ends n) (ltb (length s.global_queue) s.global_capacity) h h

  load_queue-Ends : (task : ℕ) (o : Option ℕ) → Ends n (load_queue task s o)
  load_queue-Ends task none = h
  load_queue-Ends task (some a) = h

  enqueue_at-Ends : (task a : ℕ) (o : Option (List ℕ)) → OnSome (Ends n) (enqueue_at task a s o)
  enqueue_at-Ends task a none = tt
  enqueue_at-Ends task a (some q) = if_lem (Ends n) (ltb (length q) local_capacity) h h

  advance_call-Ends : (now : ℕ) (c : Call) → OnSome (Ends n) (advance_call now s c)
  advance_call-Ends now (tested task) = if_lem (Ends n) (length s.local_queues == 0) h h
  advance_call-Ends now (indexed task idx) = load_queue-Ends task (get_elem? s.local_queues idx)
  advance_call-Ends now (holding task a) = enqueue_at-Ends task a (get_elem? s.queues a)
  advance_call-Ends now (refused task) = submit_global-Ends task

  give_up-Ends : (c : Call) → OnSome (Ends n) (give_up s c)
  give_up-Ends (tested task) = tt
  give_up-Ends (indexed task idx) = tt
  give_up-Ends (holding task a) = tt
  give_up-Ends (refused task) = if_lem (OnSome (Ends n)) (is_closed s.closer) h tt

  request_resize-Ends : (k : ℕ) (m : Manager) → OnSome (Ends n) (request_resize k s m)
  request_resize-Ends k awaiting =
      if_cases (Ends n) (is_closed s.closer) (λ r. h)
        (λ r. absurd (grind (arith, ap is_closed h.1, r)))
  request_resize-Ends k (requested m) = if_lem (OnSome (Ends n)) (is_closed s.closer) h tt
  request_resize-Ends k (removing m) = if_lem (OnSome (Ends n)) (is_closed s.closer) h tt

  begin_resize-Ends : (m : Manager) → m ≡ awaiting → OnSome (Ends n) (begin_resize s m)
  begin_resize-Ends awaiting e = tt
  begin_resize-Ends (requested k) e = absurd (grind (arith, e))
  begin_resize-Ends (removing k) e = tt

  end_resize-Ends : (m : Manager) → m ≡ awaiting → OnSome (Ends n) (end_resize s m)
  end_resize-Ends awaiting e = tt
  end_resize-Ends (requested k) e = tt
  end_resize-Ends (removing k) e = absurd (grind (arith, e))

  begin_close-Ends : (c : Closer) → c ≡ stopped → Ends n (begin_close s c)
  begin_close-Ends is_open e = absurd (grind (arith, e))
  begin_close-Ends closing e = h
  begin_close-Ends stopped e = h

  stop_all-Ends : (c : Closer) → c ≡ stopped → OnSome (Ends n) (stop_all s c)
  stop_all-Ends is_open e = tt
  stop_all-Ends closing e = absurd (grind (arith, e))
  stop_all-Ends stopped e = tt

  module _ (j : ℕ) (x : Worker) (e : get_elem? s.workers j ≡ some x) where
    -- A step of the worker that runs no task and lets it run no more than before.
    moved-Ends :
        (p : WorkerPlace)
        → left p ≤ left x.place
        → Ends n (record s { workers = set s.workers j (record x { place = p }) })
    moved-Ends p l = (
      set-IsStopped s.workers j (record x { place = p }) h.0 (at_IsStopped s.workers j x h.0 e),
      h.1,
      h.2,
      omega (arith, h.3, l, all_left-set s.workers j x (record x { place = p }) e),
    )

    -- One that runs a task.
    ran-Ends :
        (t : ℕ)
        → left x.place ≡ 1
        → Ends n (record s {
          workers = set s.workers j (record x { place = selecting });
          executed = s.executed ++ (t ∷ []);
        })
    ran-Ends t l = (
      (moved-Ends selecting (omega (arith, l))).0,
      h.1,
      h.2,
      omega (
        arith,
        h.3,
        l,
        length-append s.executed (t ∷ []),
        all_left-set s.workers j x (record x { place = selecting }) e,
      ),
    )

    is_stopped : x.stop ≡ true
    is_stopped = at_IsStopped s.workers j x h.0 e

    leaves :
        (p : WorkerPlace)
        → Ends n (record s {
          workers = set s.workers j (record x { place = if x.stop then exited else p });
        })
    leaves p =
        if_cases (λ q. Ends n (record s { workers = set s.workers j (record x { place = q }) }))
          x.stop (λ y. moved-Ends exited (omega arith))
          (λ no. absurd (grind (arith, no, is_stopped)))

    dequeue_from-Ends :
        x.place ≡ dequeuing → (o : Option (List ℕ)) → OnSome (Ends n) (dequeue_from j s x o)
    dequeue_from-Ends p none = tt
    dequeue_from-Ends p (some []) = moved-Ends selecting_global (omega (arith, ap left p))
    dequeue_from-Ends p (some (t ∷ q)) = ran-Ends t (ap left p)

    select_global-Ends : x.place ≡ selecting_global → (q : List ℕ) → Ends n (select_global j s x q)
    select_global-Ends p [] = leaves selecting
    select_global-Ends p (t ∷ q) = ran-Ends t (ap left p)

    work_at-Ends : (p : WorkerPlace) → x.place ≡ p → OnSome (Ends n) (work_at j s x p)
    work_at-Ends selecting p = leaves dequeuing
    work_at-Ends dequeuing p = dequeue_from-Ends p (get_elem? s.queues x.local_queue)
    work_at-Ends selecting_global p = select_global-Ends p s.global_queue
    work_at-Ends exited p = tt

    quit_at-Ends : (p : WorkerPlace) → OnSome (Ends n) (quit_at j s x p)
    quit_at-Ends selecting = tt
    quit_at-Ends dequeuing = tt
    quit_at-Ends selecting_global =
        if_cases (OnSome (Ends n)) x.stop (λ y. moved-Ends exited (omega arith)) (λ no. tt)
    quit_at-Ends exited = tt

  work-Ends : (j : ℕ) (o : Option Worker) → get_elem? s.workers j ≡ o → OnSome (Ends n) (work j s o)
  work-Ends j none e = tt
  work-Ends j (some x) e = work_at-Ends j x e x.place refl

  quit_worker-Ends :
      (j : ℕ) (o : Option Worker) → get_elem? s.workers j ≡ o → OnSome (Ends n) (quit_worker j s o)
  quit_worker-Ends j none e = tt
  quit_worker-Ends j (some x) e = quit_at-Ends j x e x.place

advance_picked-Ends :
    (n now : ℕ) (s : Executor)
    → Ends n s
    → (o : Option (Call × List Call)) → OnSome (Ends n) (advance_picked now s o)
advance_picked-Ends n now s h none = tt
advance_picked-Ends n now s h (some (c, rest)) =
    advance_call-Ends n (record s { calls = rest }) h now c

give_up_picked-Ends :
    (n : ℕ) (s : Executor)
    → Ends n s
    → (o : Option (Call × List Call)) → OnSome (Ends n) (give_up_picked s o)
give_up_picked-Ends n s h none = tt
give_up_picked-Ends n s h (some (c, rest)) = give_up-Ends n (record s { calls = rest }) h c

step_of-Ends : (n : ℕ) (step : Step) (s : Executor) → Ends n s → OnSome (Ends n) (step_of step s)
step_of-Ends n (submits task) s h = check_open-Ends n s h task
step_of-Ends n (resizes k) s h = request_resize-Ends n s h k s.manager
step_of-Ends n (works j) s h = work-Ends n s h j (get_elem? s.workers j) refl
step_of-Ends n (quits j) s h = quit_worker-Ends n s h j (get_elem? s.workers j) refl
step_of-Ends n (gives_up i) s h = give_up_picked-Ends n s h (pick i s.calls)
step_of-Ends n (advances i now) s h = advance_picked-Ends n now s h (pick i s.calls)
step_of-Ends n resize_begins s h = begin_resize-Ends n s h s.manager h.2
step_of-Ends n resize_ends s h = end_resize-Ends n s h s.manager h.2
step_of-Ends n closes s h = begin_close-Ends n s h s.closer h.1
step_of-Ends n stops_all s h = stop_all-Ends n s h s.closer h.1

take_step-Ends :
    (n : ℕ) (step : Step) (s : Executor) → Ends n s → OnSome (Ends n) (take_step step s)
unfolding take_step
take_step-Ends n step s h = if_lem (OnSome (Ends n)) s.panicked tt (step_of-Ends n step s h)

-- What stands in the queues is not drained by `Close`: once `Close` has stopped all the workers, and no
-- resize is under way, no sequence of steps runs more tasks than there are workers, one for each at
-- most, however many stand in the queues or are still accepted from calls of `Submit` that had passed
-- its test.
pub closed-executed :
    (s : Executor) (steps : List Step) (s' : Executor)
    → All IsStopped s.workers
    → s.closer ≡ stopped
    → s.manager ≡ awaiting
    → run_steps take_step steps s ≡ some s'
    → length s'.executed ≤ length s.executed + length s.workers
closed-executed s steps s' halted closed quiet e =
    let n = length s.executed + length s.workers in
    let ends =
      run_steps-always take_step (Ends n) (take_step-Ends n) steps s
        (halted, closed, quiet, omega (arith, all_left_le s.workers)) s' e in
    omega (arith, ends.3)
