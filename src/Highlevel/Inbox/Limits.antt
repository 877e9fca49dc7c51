-- ===== src/Highlevel/Inbox/Limits.antt =====
-- The sizes of the two queues, and what a worker that has returned leaves behind.
use hioload_ws.Prelude.{
  ◌∙◌, ◌∷◌, ◌≡◌, ◌≤◌, List, OnSome, Option, [], ap, arith, if_cases, if_lem, length, length-append,
  ltb, none, refl, some, sym, ℕ,
}
use hioload_ws.Api.Buffer.{Buffer}
use hioload_ws.Highlevel.Inbox.{
  Closer, Inbox, Step, Worker, abandon_of, abandons, close_round, closes, connection_done,
  drain_from, draining, drains, finished, history, holding, idle, incoming_capacity, is_open,
  new_inbox, offer, offers, overflow_capacity, pick, read_from, read_incoming, reads, receives,
  sees_done, sends, spill_to, spills, started, stopped, take_step, worker_done, worker_receives,
  worker_sends,
}
use hioload_ws.Highlevel.Inbox.Histories.{history-OnSome}
use hioload_ws.Highlevel.Inbox.Weight.{spilled}

-- Within the capacities of the channels; a call that waits has a worker's queue to wait for.
pub record WithinCapacity (s : Inbox) : Type 0 where
  pub incoming_fits : length s.incoming ≤ incoming_capacity
  pub overflow_fits : length (spilled s.overflow) ≤ overflow_capacity
  pub waits_on_worker : s.overflow ≡ none → s.pending ≡ []

pub started-some : (q : Option (List Buffer)) → started q ≡ none → ⊥
started-some none e = grind (arith, e)
started-some (some q) e = grind (arith, e)

length-spilled-started :
    (q : Option (List Buffer)) → length (spilled (started q)) ≡ length (spilled q)
length-spilled-started none = refl
length-spilled-started (some q) = refl

offer-WithinCapacity : (b : Buffer) (s : Inbox) → WithinCapacity s → WithinCapacity (offer b s)
unfolding offer
offer-WithinCapacity b s h =
    if_cases WithinCapacity (ltb (length s.incoming) incoming_capacity)
      (λ e. record {
        incoming_fits = ground (arith, e, length-append s.incoming (b ∷ []));
        overflow_fits = h.overflow_fits;
        waits_on_worker = h.waits_on_worker;
      })
      (λ e. record {
        incoming_fits = h.incoming_fits;
        overflow_fits = omega (arith, h.overflow_fits, length-spilled-started s.overflow);
        waits_on_worker = λ n. absurd (started-some s.overflow n);
      })

spill_to-WithinCapacity :
    (s : Inbox) (q : Option (List Buffer)) (o : Option (Buffer × List Buffer))
    → WithinCapacity s
    → OnSome WithinCapacity (spill_to s q o)
spill_to-WithinCapacity s q none h = tt
spill_to-WithinCapacity s none (some (b, rest)) h = tt
spill_to-WithinCapacity s (some q) (some (b, rest)) h =
    if_cases (OnSome WithinCapacity) (ltb (length q) overflow_capacity)
      (λ e. record {
        incoming_fits = h.incoming_fits;
        overflow_fits = ground (arith, e, length-append q (b ∷ []));
        waits_on_worker = λ n. grind (arith, n);
      })
      (λ e. tt)

pick_none :
    (i : ℕ) (bs : List Buffer) (b : Buffer) (rest : List Buffer)
    → pick i bs ≡ some (b, rest)
    → bs ≡ []
    → ⊥
pick_none i [] b rest e n = grind (arith, e)
pick_none i (c ∷ bs) b rest e n = grind (arith, n)

abandon_of-WithinCapacity :
    (s : Inbox) (i : ℕ) (o : Option (Buffer × List Buffer))
    → pick i s.pending ≡ o
    → WithinCapacity s
    → OnSome WithinCapacity (abandon_of s o)
abandon_of-WithinCapacity s i none e h = tt
abandon_of-WithinCapacity s i (some (b, rest)) e h =
    if_lem (OnSome WithinCapacity) s.done
      (record {
        incoming_fits = h.incoming_fits;
        overflow_fits = h.overflow_fits;
        waits_on_worker = λ n. absurd (pick_none i s.pending b rest e (h.waits_on_worker n));
      })
      tt

worker_receives-WithinCapacity :
    (s : Inbox) (v : Worker) (q : Option (List Buffer))
    → s.overflow ≡ q
    → WithinCapacity s
    → OnSome WithinCapacity (worker_receives s v q)
worker_receives-WithinCapacity s v none e h = tt
worker_receives-WithinCapacity s idle (some []) e h = tt
worker_receives-WithinCapacity s idle (some (b ∷ q)) e h = record {
  incoming_fits = h.incoming_fits;
  overflow_fits = omega (arith, h.overflow_fits, ap (λ o. length (spilled o)) e);
  waits_on_worker = λ n. grind (arith, n);
}
worker_receives-WithinCapacity s draining (some []) e h = record {
  incoming_fits = h.incoming_fits;
  overflow_fits = h.overflow_fits;
  waits_on_worker = h.waits_on_worker;
}
worker_receives-WithinCapacity s draining (some (b ∷ q)) e h = record {
  incoming_fits = h.incoming_fits;
  overflow_fits = omega (arith, h.overflow_fits, ap (λ o. length (spilled o)) e);
  waits_on_worker = λ n. grind (arith, n);
}
worker_receives-WithinCapacity s stopped (some q) e h = tt
worker_receives-WithinCapacity s (holding b) (some q) e h = tt

-- A step that changes neither `overflow` nor `pending`, and leaves no more than there is room for.
rest-WithinCapacity :
    (s s' : Inbox)
    → length s'.incoming ≤ incoming_capacity
    → s'.overflow ≡ s.overflow
    → s'.pending ≡ s.pending
    → WithinCapacity s
    → WithinCapacity s'
rest-WithinCapacity s s' n e f h = record {
  incoming_fits = n;
  overflow_fits = omega (arith, h.overflow_fits, ap (λ o. length (spilled o)) e);
  waits_on_worker = λ m. f ∙ h.waits_on_worker (sym e ∙ m);
}

worker_sends-WithinCapacity :
    (s : Inbox) (v : Worker) → WithinCapacity s → OnSome WithinCapacity (worker_sends s v)
worker_sends-WithinCapacity s idle h = tt
worker_sends-WithinCapacity s draining h = tt
worker_sends-WithinCapacity s stopped h = tt
worker_sends-WithinCapacity s (holding b) h =
    if_cases (OnSome WithinCapacity) (ltb (length s.incoming) incoming_capacity)
      (λ e.
        rest-WithinCapacity s _ (ground (arith, e, length-append s.incoming (b ∷ []))) refl refl h)
      (λ e. tt)

worker_done-WithinCapacity :
    (s : Inbox) (v : Worker) (q : Option (List Buffer))
    → WithinCapacity s
    → OnSome WithinCapacity (worker_done s v q)
worker_done-WithinCapacity s v none h = tt
worker_done-WithinCapacity s idle (some q) h =
    if_lem (OnSome WithinCapacity) s.done (rest-WithinCapacity s _ h.incoming_fits refl refl h) tt
worker_done-WithinCapacity s draining (some q) h = tt
worker_done-WithinCapacity s stopped (some q) h = tt
worker_done-WithinCapacity s (holding b) (some q) h =
    if_lem (OnSome WithinCapacity) s.done (rest-WithinCapacity s _ h.incoming_fits refl refl h) tt

shorter :
    (s : Inbox) (b : Buffer) (q : List Buffer)
    → s.incoming ≡ b ∷ q
    → WithinCapacity s
    → length q ≤ incoming_capacity
shorter s b q e h = omega (arith, h.incoming_fits, ap length e)

read_incoming-WithinCapacity :
    (s : Inbox) (q : List Buffer)
    → s.incoming ≡ q
    → WithinCapacity s
    → OnSome WithinCapacity (read_incoming s q)
read_incoming-WithinCapacity s [] e h = tt
read_incoming-WithinCapacity s (b ∷ q) e h = go b.bytes
  where
    go : (o : Option (List ℕ)) → WithinCapacity (read_from s o b q)
    go none = rest-WithinCapacity s _ (shorter s b q e h) refl refl h
    go (some bs) = rest-WithinCapacity s _ (shorter s b q e h) refl refl h

close_round-WithinCapacity :
    (s : Inbox) (c : Closer) (q : List Buffer)
    → s.incoming ≡ q
    → WithinCapacity s
    → OnSome WithinCapacity (close_round s c q)
close_round-WithinCapacity s is_open q e h = rest-WithinCapacity s _ h.incoming_fits refl refl h
close_round-WithinCapacity s drains [] e h = rest-WithinCapacity s _ h.incoming_fits refl refl h
close_round-WithinCapacity s drains (b ∷ q) e h = go b.bytes
  where
    go : (o : Option (List ℕ)) → WithinCapacity (drain_from s o b q)
    go none = rest-WithinCapacity s _ (shorter s b q e h) refl refl h
    go (some bs) = rest-WithinCapacity s _ (shorter s b q e h) refl refl h
close_round-WithinCapacity s finished q e h = tt

take_step-WithinCapacity :
    (step : Step) (s : Inbox) → WithinCapacity s → OnSome WithinCapacity (take_step step s)
unfolding take_step
take_step-WithinCapacity (offers b) s h = offer-WithinCapacity b s h
take_step-WithinCapacity (spills i) s h = spill_to-WithinCapacity s s.overflow _ h
take_step-WithinCapacity (abandons i) s h = abandon_of-WithinCapacity s i _ refl h
take_step-WithinCapacity receives s h = worker_receives-WithinCapacity s s.worker _ refl h
take_step-WithinCapacity sends s h = worker_sends-WithinCapacity s s.worker h
take_step-WithinCapacity sees_done s h = worker_done-WithinCapacity s s.worker _ h
take_step-WithinCapacity reads s h = read_incoming-WithinCapacity s _ refl h
take_step-WithinCapacity closes s h = close_round-WithinCapacity s s.closer _ refl h
take_step-WithinCapacity connection_done s h = rest-WithinCapacity s _ h.incoming_fits refl refl h

-- In every history of a new inbox the queues stay within 128 and 2048 buffers, and no call waits for
-- `overflow` while that is nil.
pub history-WithinCapacity : (steps : List Step) → OnSome WithinCapacity (history steps new_inbox)
history-WithinCapacity steps =
    history-OnSome WithinCapacity take_step-WithinCapacity steps new_inbox (record {
      incoming_fits = omega arith;
      overflow_fits = omega arith;
      waits_on_worker = λ n. refl;
    })
