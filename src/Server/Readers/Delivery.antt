-- ===== src/Server/Readers/Delivery.antt =====
-- What the handler of the server gets from one connection.
use hioload_ws.Server.Readers.Accounted.{push_stopped-AfterPush}
use hioload_ws.Prelude.{inr}
use hioload_ws.Prelude.{inl}
use hioload_ws.Server.Readers.Accounted.{offered, push-AfterPush}
use hioload_ws.EventLoop.{push_stopped}
use hioload_ws.Server.Readers.{push_fails, push_refused}
use hioload_ws.Server.Readers.Accounted.{accepted, pushed_to-Accounted}
use hioload_ws.Prelude.{◌⊎◌, ◌⊎◌}
use hioload_ws.Prelude.{
  ◌++◌, ◌∙◌, ◌∷◌, ◌≡◌, Bool, List, OnSome, Option, [], ap, append_assoc, false, if◌then◌else◌, none,
  refl, run_steps, run_steps-always, some, sym, true, ℕ,
}
use hioload_ws.EventLoop.{EventLoop, calls_of, new_event_loop, push, pushes}
use hioload_ws.EventLoop.Calls.{Called, calls_left, take_step-Called}
use hioload_ws.EventLoop.Order.{InOrder, take_step-InOrder, waiting_events}
use hioload_ws.Server.Readers.{
  Readers, Step, is_of, loop_step, loops, push_next, pushed_to, pushes_next, read_buffers, reads,
  take_step, with_loop,
}
use hioload_ws.Server.Readers.Accounted.{
  Accounted, events_of, events_of-append, events_of-calls_of, keeps_handlers, of_conn,
  of_conn-append, read_buffers-Accounted, same_pushed,
}

module _ (conn_of : ℕ → ℕ) (h : ℕ) where
  abbrev Good : Readers → Type 0
  Good s = InOrder s.loop × Called (h ∷ []) s.loop × Accounted conn_of s

  with_loop-Good :
      (s : Readers)
      → Accounted conn_of s
      → (o : Option EventLoop) → OnSome InOrder o
      → OnSome (Called (h ∷ [])) o
      → OnSome (λ l. (l.pushed ≡ s.loop.pushed) × ((l.quit ≡ true) ⊎ (l.quit ≡ s.loop.quit))) o
      → OnSome Good (with_loop s o)
  unfolding Accounted
  with_loop-Good s a none i c p = tt
  with_loop-Good s a (some l) i c p = (
    i,
    c,
    λ d. (
      ap (of_conn conn_of d) p.0 ∙ (a d).0,
      (a d).1,
      (a d).2,
      elim p.1 [ inl q ↦ inl q | inr q ↦ elim (a d).3 [ inl r ↦ inl (q ∙ r) | inr r ↦ inr r ] ],
    ),
  )

  pushed_to-Good :
      (c ev : ℕ) (evs : List ℕ) (sent : Bool) (s : Readers) (o : Option EventLoop)
      → OnSome InOrder o
      → OnSome (Called (h ∷ [])) o
      → OnSome (Accounted conn_of) (pushed_to c ev evs sent s o)
      → OnSome Good (pushed_to c ev evs sent s o)
  pushed_to-Good c ev evs sent s none i k a = tt
  pushed_to-Good c ev evs sent s (some l) i k a = (i, k, a)

  push_next-Good :
      (c : ℕ) (s : Readers)
      → Good s
      → (w : List ℕ) → s.to_push c ≡ w
      → OnSome Good (push_next c s w)
  unfolding hioload_ws.EventLoop.take_step
  push_next-Good c s g [] e = tt
  push_next-Good c s g (ev ∷ evs) e =
      pushed_to-Good c ev evs true s (push ev s.loop) (take_step-InOrder (pushes ev) s.loop g.0)
        (take_step-Called (h ∷ []) (pushes ev) tt s.loop g.1)
        (pushed_to-Accounted conn_of c ev evs true s g.2 e (push ev s.loop)
          (push-AfterPush ev s.loop))

  push_refused-Good :
      (c : ℕ) (s : Readers)
      → Good s
      → (w : List ℕ) → s.to_push c ≡ w
      → OnSome Good (push_refused c s w)
  unfolding hioload_ws.EventLoop.take_step
  push_refused-Good c s g [] e = tt
  push_refused-Good c s g (ev ∷ evs) e =
      pushed_to-Good c ev evs false s (push_stopped s.loop)
        (take_step-InOrder hioload_ws.EventLoop.push_fails s.loop g.0)
        (take_step-Called (h ∷ []) hioload_ws.EventLoop.push_fails tt s.loop g.1)
        (pushed_to-Accounted conn_of c ev evs false s g.2 e (push_stopped s.loop)
          (push_stopped-AfterPush ev s.loop))

  keep_loop :
      (b : Bool) (s : Readers)
      → InOrder s.loop
      → Called (h ∷ []) s.loop
      → OnSome (Accounted conn_of) (if b then some s else none)
      → OnSome Good (if b then some s else none)
  keep_loop true s i k a = (i, k, a)
  keep_loop false s i k a = tt

  read_buffers-Good :
      (c : ℕ) (evs : List ℕ) (s : Readers)
      → Good s
      → (w : List ℕ) → s.to_push c ≡ w
      → OnSome Good (read_buffers conn_of c evs s w)
  read_buffers-Good c evs s g [] e =
      keep_loop (is_of conn_of c evs) _ g.0 g.1 (read_buffers-Accounted conn_of c evs s g.2 [] e)
  read_buffers-Good c evs s g (w ∷ ws) e = tt

  take_step-Good : (step : Step) (s : Readers) → Good s → OnSome Good (take_step conn_of step s)
  unfolding take_step
  take_step-Good (reads c evs) s g = read_buffers-Good c evs s g (s.to_push c) refl
  take_step-Good (pushes_next c) s g = push_next-Good c s g (s.to_push c) refl
  take_step-Good (push_fails c) s g = push_refused-Good c s g (s.to_push c) refl
  take_step-Good (loops step) s g =
      with_loop-Good s g.2 (hioload_ws.EventLoop.take_step (loop_step step) s.loop)
        (take_step-InOrder (loop_step step) s.loop g.0)
        (take_step-Called (h ∷ []) (loop_step step) (keeps_handlers step) s.loop g.1)
        (same_pushed step s.loop)

-- A new loop with the handler registered, before any connection.
abbrev pub new_readers : ℕ → ℕ → ℕ → Readers
new_readers batch_size ring_capacity h = record {
  loop = record (new_event_loop batch_size ring_capacity) { handlers = h ∷ [] };
  to_push = λ c. [];
  answers = λ c. [];
  taken = λ c. [];
}

-- The events that the handler of the loop has not yet been called with.
abbrev pub unhandled : EventLoop → List ℕ
unhandled l = events_of (calls_left l.place) ++ (waiting_events l.place l.batch ++ l.inbox)

-- What becomes of the buffers of a connection, after any interleaving of the reading and pushing of all
-- connections with the steps of the loop, `Stop` included: its events that the handler was called with
-- and those that wait in the loop are the ones for which `Push` returned true, each once and in the
-- order in which they were read; the events that `Push` was called with and those that the
-- connection's goroutine has still to push are all that it read; and unless the loop was stopped,
-- `Push` returned true for each of them.
pub run_steps-delivered :
    (conn_of : ℕ → ℕ) (batch_size ring_capacity h : ℕ) (steps : List Step) (s : Readers) (c : ℕ)
    → run_steps (take_step conn_of) steps (new_readers batch_size ring_capacity h) ≡ some s
    → (of_conn conn_of c (events_of s.loop.called) ++ of_conn conn_of c (unhandled s.loop)
        ≡ accepted (s.answers c))
      × (offered (s.answers c) ++ s.to_push c ≡ s.taken c)
      × ((s.loop.quit ≡ true) ⊎ (accepted (s.answers c) ≡ offered (s.answers c)))
unfolding Accounted
run_steps-delivered conn_of batch_size ring_capacity h steps s c e =
    let (i, k, a) =
      run_steps-always (take_step conn_of) (Good conn_of h) (take_step-Good conn_of h) steps
        (new_readers batch_size ring_capacity h)
        ((refl, tt), (refl, refl), λ d. (refl, refl, refl, inr refl)) s e in
    let waits = waiting_events s.loop.place s.loop.batch ++ s.loop.inbox in
    let dispatched : events_of s.loop.called ++ events_of (calls_left s.loop.place)
        ≡ s.loop.dispatched =
      sym (events_of-append s.loop.called (calls_left s.loop.place))
      ∙ ap events_of k.1
      ∙ events_of-calls_of h s.loop.dispatched in
    let whole : events_of s.loop.called ++ unhandled s.loop ≡ s.loop.pushed =
      sym (append_assoc (events_of s.loop.called) (events_of (calls_left s.loop.place)) waits)
      ∙ ap (λ z. z ++ waits) dispatched
      ∙ sym i.0 in
    (
      sym (of_conn-append conn_of c (events_of s.loop.called) (unhandled s.loop))
          ∙ ap (of_conn conn_of c) whole
          ∙ (a c).0,
      (a c).1,
      (a c).3,
    )
