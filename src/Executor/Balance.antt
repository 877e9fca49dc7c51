-- ===== src/Executor/Balance.antt =====
-- Where the tasks of an executor are.
use hioload_ws.Executor.State.{stopped, exited}
use hioload_ws.Executor.{stops_all}
use hioload_ws.Executor.{closes}
use hioload_ws.Executor.{resize_ends}
use hioload_ws.Executor.{resize_begins}
use hioload_ws.Executor.{advances}
use hioload_ws.Prelude.{◌++◌, ◌++◌}
use hioload_ws.Executor.Submit.{pick}
use hioload_ws.Prelude.{refl, ◌-◌}
use hioload_ws.Executor.Sums.{queued-set}
use hioload_ws.Executor.{gives_up}
use hioload_ws.Executor.State.{refused, selecting_global, selecting_global}
use hioload_ws.Prelude.{[], replicate}
use hioload_ws.Executor.{quits}
use hioload_ws.Executor.State.{awaiting, awaiting, dequeuing, dequeuing, holding, local_capacity}
use hioload_ws.Executor.Sums.{queued-append, total-append}
use hioload_ws.Executor.{works}
use hioload_ws.Prelude.{ap, run_steps-always, ◌==◌, ◌==◌}
use hioload_ws.Executor.Resize.{all_exited}
use hioload_ws.Prelude.{length, none, none, none, none, none, none, ◌∷◌}
use hioload_ws.Executor.State.{closing, closing, indexed, removing, selecting, selecting}
use Prim.Native.Nat.{zero}
use hioload_ws.Executor.Work.{dequeue_local}
use hioload_ws.Executor.{resizes}
use hioload_ws.Executor.Sums.{queued}
use hioload_ws.Executor.Resize.{at_least_one}
use hioload_ws.Executor.State.{is_closed, is_open, requested, tested}
use hioload_ws.Executor.Submit.{enqueue_at}
use hioload_ws.Executor.Work.{dequeue_from, quit_at, select_global, work_at}
use hioload_ws.Executor.{submits}
use hioload_ws.Prelude.{ltb, some, suc, ◌+◌, ◌+◌}
use hioload_ws.Executor.Resize.{any_stopped, mutex_free}
use hioload_ws.Executor.Submit.{advance_call, advance_picked, give_up, give_up_picked, load_queue}
use hioload_ws.Executor.Resize.{begin_close, begin_resize, end_resize, request_resize, stop_all}
use hioload_ws.Prelude.{get_elem?, if_lem, ◌≡◌, ◌≡◌}
use hioload_ws.Executor.Work.{quit_worker, work}
use hioload_ws.Executor.{step_of}
use hioload_ws.Executor.State.{WorkerPlace}
use hioload_ws.Executor.Sums.{queued-replicate}
use hioload_ws.Executor.State.{Call, Closer, Manager, Worker}
use hioload_ws.Executor.Sums.{total}
use hioload_ws.Executor.Submit.{check_open, submit_global}
use hioload_ws.Executor.Resize.{resize_to, stop_extra}
use hioload_ws.Prelude.{OnSome, Option, arith, run_steps}
use hioload_ws.Executor.{Step, take_step}
use hioload_ws.Prelude.{List}
use hioload_ws.Executor.State.{Executor, new_executor}
use hioload_ws.Prelude.{ℕ}

module _ (w : ℕ → ℕ) where
  abbrev Balanced : Executor → Type 0
  Balanced s =
      total w s.accepted ≡ total w s.executed + (queued w s.queues + total w s.global_queue)

  check_open-Balanced : (task : ℕ) (s : Executor) → Balanced s → Balanced (check_open task s)
  check_open-Balanced task s h = if_lem Balanced (is_closed s.closer) h h

  submit_global-Balanced : (task : ℕ) (s : Executor) → Balanced s → Balanced (submit_global task s)
  submit_global-Balanced task s h =
      if_lem Balanced (ltb (length s.global_queue) s.global_capacity)
        (omega (
          arith,
          h,
          total-append w s.accepted (task ∷ []),
          total-append w s.global_queue (task ∷ []),
        ))
        h

  load_queue-Balanced :
      (task : ℕ) (s : Executor) → Balanced s → (o : Option ℕ) → Balanced (load_queue task s o)
  load_queue-Balanced task s h none = h
  load_queue-Balanced task s h (some a) = h

  enqueue_at-Balanced :
      (task a : ℕ) (s : Executor)
      → Balanced s
      → (o : Option (List ℕ)) → get_elem? s.queues a ≡ o
      → OnSome Balanced (enqueue_at task a s o)
  enqueue_at-Balanced task a s h none e = tt
  enqueue_at-Balanced task a s h (some q) e =
      if_lem Balanced (ltb (length q) local_capacity)
        (omega (
          arith,
          h,
          total-append w s.accepted (task ∷ []),
          total-append w q (task ∷ []),
          queued-set w s.queues a q (q ++ (task ∷ [])) e,
        ))
        h

  advance_call-Balanced :
      (now : ℕ) (s : Executor) → Balanced s → (c : Call) → OnSome Balanced (advance_call now s c)
  advance_call-Balanced now s h (tested task) = if_lem Balanced (length s.local_queues == 0) h h
  advance_call-Balanced now s h (indexed task idx) =
      load_queue-Balanced task s h (get_elem? s.local_queues idx)
  advance_call-Balanced now s h (holding task a) =
      enqueue_at-Balanced task a s h (get_elem? s.queues a) refl
  advance_call-Balanced now s h (refused task) = submit_global-Balanced task s h

  advance_picked-Balanced :
      (now : ℕ) (s : Executor)
      → Balanced s
      → (o : Option (Call × List Call)) → OnSome Balanced (advance_picked now s o)
  advance_picked-Balanced now s h none = tt
  advance_picked-Balanced now s h (some (c, rest)) =
      advance_call-Balanced now (record s { calls = rest }) h c

  give_up-Balanced : (s : Executor) → Balanced s → (c : Call) → OnSome Balanced (give_up s c)
  give_up-Balanced s h (tested task) = tt
  give_up-Balanced s h (indexed task idx) = tt
  give_up-Balanced s h (holding task a) = tt
  give_up-Balanced s h (refused task) = if_lem (OnSome Balanced) (is_closed s.closer) h tt

  give_up_picked-Balanced :
      (s : Executor)
      → Balanced s
      → (o : Option (Call × List Call)) → OnSome Balanced (give_up_picked s o)
  give_up_picked-Balanced s h none = tt
  give_up_picked-Balanced s h (some (c, rest)) = give_up-Balanced (record s { calls = rest }) h c

  request_resize-Balanced :
      (n : ℕ) (s : Executor) → Balanced s → (m : Manager) → OnSome Balanced (request_resize n s m)
  request_resize-Balanced n s h awaiting = if_lem Balanced (is_closed s.closer) h h
  request_resize-Balanced n s h (requested m) = if_lem (OnSome Balanced) (is_closed s.closer) h tt
  request_resize-Balanced n s h (removing m) = if_lem (OnSome Balanced) (is_closed s.closer) h tt

  stop_extra-Balanced : (n : ℕ) (s : Executor) → Balanced s → Balanced (stop_extra n s)
  stop_extra-Balanced n s h = if_lem Balanced (any_stopped n s.workers) h h

  resize_to-Balanced : (n : ℕ) (s : Executor) → Balanced s → Balanced (resize_to n s)
  resize_to-Balanced n s h =
      if_lem Balanced (ltb (length s.workers) n)
        (omega (
          arith,
          h,
          queued-append w s.queues (replicate (n - length s.workers) []),
          queued-replicate w (n - length s.workers),
        ))
        (if_lem Balanced (ltb n (length s.workers)) (stop_extra-Balanced n s h) h)

  begin_resize-Balanced :
      (s : Executor) → Balanced s → (m : Manager) → OnSome Balanced (begin_resize s m)
  begin_resize-Balanced s h awaiting = tt
  begin_resize-Balanced s h (requested n) = resize_to-Balanced (at_least_one n) s h
  begin_resize-Balanced s h (removing n) = tt

  end_resize-Balanced :
      (s : Executor) → Balanced s → (m : Manager) → OnSome Balanced (end_resize s m)
  end_resize-Balanced s h awaiting = tt
  end_resize-Balanced s h (requested n) = tt
  end_resize-Balanced s h (removing n) = if_lem (OnSome Balanced) (all_exited n s.workers) h tt

  begin_close-Balanced : (s : Executor) → Balanced s → (c : Closer) → Balanced (begin_close s c)
  begin_close-Balanced s h is_open = h
  begin_close-Balanced s h closing = h
  begin_close-Balanced s h stopped = h

  stop_all-Balanced : (s : Executor) → Balanced s → (c : Closer) → OnSome Balanced (stop_all s c)
  stop_all-Balanced s h is_open = tt
  stop_all-Balanced s h closing =
      if_lem (OnSome Balanced) (mutex_free s.manager)
        (if_lem Balanced (any_stopped 0 s.workers) h h) tt
  stop_all-Balanced s h stopped = tt

  module _ (j : ℕ) (s : Executor) (h : Balanced s) (x : Worker) where
    dequeue_local-Balanced :
        (q : List ℕ) → get_elem? s.queues x.local_queue ≡ some q → Balanced (dequeue_local j s x q)
    dequeue_local-Balanced [] e = h
    dequeue_local-Balanced (t ∷ q) e = omega (
      arith,
      h,
      total-append w s.executed (t ∷ []),
      queued-set w s.queues x.local_queue (t ∷ q) q e,
    )

    dequeue_from-Balanced :
        (o : Option (List ℕ))
        → get_elem? s.queues x.local_queue ≡ o
        → OnSome Balanced (dequeue_from j s x o)
    dequeue_from-Balanced none e = tt
    dequeue_from-Balanced (some q) e = dequeue_local-Balanced q e

    select_global-Balanced : (q : List ℕ) → s.global_queue ≡ q → Balanced (select_global j s x q)
    select_global-Balanced [] d = h
    select_global-Balanced (t ∷ q) d =
        let d' : total w s.global_queue ≡ w t + total w q = ap (total w) d in
        omega (arith, h, d', total-append w s.executed (t ∷ []))

    work_at-Balanced : (p : WorkerPlace) → OnSome Balanced (work_at j s x p)
    work_at-Balanced selecting = h
    work_at-Balanced dequeuing = dequeue_from-Balanced (get_elem? s.queues x.local_queue) refl
    work_at-Balanced selecting_global = select_global-Balanced s.global_queue refl
    work_at-Balanced exited = tt

    quit_at-Balanced : (p : WorkerPlace) → OnSome Balanced (quit_at j s x p)
    quit_at-Balanced selecting = tt
    quit_at-Balanced dequeuing = tt
    quit_at-Balanced selecting_global = if_lem (OnSome Balanced) x.stop h tt
    quit_at-Balanced exited = tt

  work-Balanced :
      (j : ℕ) (s : Executor) → Balanced s → (o : Option Worker) → OnSome Balanced (work j s o)
  work-Balanced j s h none = tt
  work-Balanced j s h (some x) = work_at-Balanced j s h x x.place

  quit_worker-Balanced :
      (j : ℕ) (s : Executor)
      → Balanced s
      → (o : Option Worker) → OnSome Balanced (quit_worker j s o)
  quit_worker-Balanced j s h none = tt
  quit_worker-Balanced j s h (some x) = quit_at-Balanced j s h x x.place

  step_of-Balanced : (step : Step) (s : Executor) → Balanced s → OnSome Balanced (step_of step s)
  step_of-Balanced (submits task) s h = check_open-Balanced task s h
  step_of-Balanced (resizes n) s h = request_resize-Balanced n s h s.manager
  step_of-Balanced (works j) s h = work-Balanced j s h (get_elem? s.workers j)
  step_of-Balanced (quits j) s h = quit_worker-Balanced j s h (get_elem? s.workers j)
  step_of-Balanced (gives_up i) s h = give_up_picked-Balanced s h (pick i s.calls)
  step_of-Balanced (advances i now) s h = advance_picked-Balanced now s h (pick i s.calls)
  step_of-Balanced resize_begins s h = begin_resize-Balanced s h s.manager
  step_of-Balanced resize_ends s h = end_resize-Balanced s h s.manager
  step_of-Balanced closes s h = begin_close-Balanced s h s.closer
  step_of-Balanced stops_all s h = stop_all-Balanced s h s.closer

  take_step-Balanced :
      (step : Step) (s : Executor) → Balanced s → OnSome Balanced (take_step step s)
  unfolding take_step
  take_step-Balanced step s h = if_lem (OnSome Balanced) s.panicked tt (step_of-Balanced step s h)

  new_executor-Balanced : (num_cpu n : ℕ) → Balanced (new_executor num_cpu n)
  new_executor-Balanced num_cpu zero = omega (arith, queued-replicate w num_cpu)
  new_executor-Balanced num_cpu (suc n) = omega (arith, queued-replicate w (suc n))

-- No task is lost or run twice: after any interleaving of the steps of submits, workers, resizes and
-- `Close` on a new executor, also when one of them has panicked, whatever a weight counts, the tasks
-- that `Submit` accepted are together those that were run, those in the global queue, and those in the
-- queues that were ever created, whether these are still local queues or a resize cut them off.
pub run_steps-accepted :
    (w : ℕ → ℕ) (num_cpu n : ℕ) (steps : List Step) (s : Executor)
    → run_steps take_step steps (new_executor num_cpu n) ≡ some s
    → total w s.accepted ≡ total w s.executed + (queued w s.queues + total w s.global_queue)
run_steps-accepted w num_cpu n steps s e =
    run_steps-always take_step (Balanced w) (take_step-Balanced w) steps (new_executor num_cpu n)
      (new_executor-Balanced w num_cpu n) s e
