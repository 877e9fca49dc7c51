-- ===== src/Highlevel/Inbox/Left.antt =====
-- What a worker that has returned leaves behind.
use hioload_ws.Prelude.{
  ◌++◌, ◌∙◌, ◌∷◌, ◌≡◌, List, OnSome, Option, [], ap, append-nil, append_assoc, if_lem, length, ltb,
  none, refl, some, subst, sym, true, ℕ,
}
use hioload_ws.Api.Buffer.{Buffer}
use hioload_ws.Highlevel.Inbox.{
  Closer, Inbox, Step, abandon_of, abandons, close_round, closes, connection_done, drain_from,
  drains, finished, history, holding, incoming_capacity, is_open, offer, offers, overflow_capacity,
  pick, read_from, read_incoming, reads, receives, sees_done, sends, spill_to, spills, started,
  stopped, take_step, worker_done, worker_receives, worker_sends,
}
use hioload_ws.Highlevel.Inbox.Histories.{history-OnSome}

-- The worker has returned, and `overflow` starts with some buffers.
pub record IsLeft (left : List Buffer) (s : Inbox) : Type 0 where
  pub stops : s.worker ≡ stopped
  pub keeps : (more : List Buffer) × (s.overflow ≡ some (left ++ more))

module _ (left : List Buffer) where
  same-IsLeft :
      (s s' : Inbox)
      → s'.worker ≡ s.worker
      → s'.overflow ≡ s.overflow
      → IsLeft left s
      → IsLeft left s'
  same-IsLeft s s' e f h =
      let (more, k) = h.keeps in record { stops = e ∙ h.stops; keeps = (more, f ∙ k) }

  offer-IsLeft : (b : Buffer) (s : Inbox) → IsLeft left s → IsLeft left (offer b s)
  unfolding offer
  offer-IsLeft b s h =
      let (more, k) = h.keeps in
      if_lem (IsLeft left) (ltb (length s.incoming) incoming_capacity) (same-IsLeft s _ refl refl h)
        (record { stops = h.stops; keeps = (more, ap started k) })

  spill_to-IsLeft :
      (s : Inbox) (o : Option (Buffer × List Buffer))
      → IsLeft left s
      → OnSome (IsLeft left) (spill_to s s.overflow o)
  spill_to-IsLeft s o h =
      let (more, k) = h.keeps in
      subst (λ q. OnSome (IsLeft left) (spill_to s q o)) (sym k) (grown more o)
    where
      grown :
          (more : List Buffer) (o : Option (Buffer × List Buffer))
          → OnSome (IsLeft left) (spill_to s (some (left ++ more)) o)
      grown more none = tt
      grown more (some (b, rest)) =
          if_lem (OnSome (IsLeft left)) (ltb (length (left ++ more)) overflow_capacity)
            (record {
              stops = h.stops;
              keeps = (more ++ (b ∷ []), ap some (append_assoc left more (b ∷ [])));
            })
            tt

  abandon_of-IsLeft :
      (s : Inbox) (o : Option (Buffer × List Buffer))
      → IsLeft left s
      → OnSome (IsLeft left) (abandon_of s o)
  abandon_of-IsLeft s none h = tt
  abandon_of-IsLeft s (some (b, rest)) h =
      if_lem (OnSome (IsLeft left)) s.done (same-IsLeft s _ refl refl h) tt

  -- The worker itself does nothing more.
  worker-IsLeft :
      (s : Inbox) (q : Option (List Buffer))
      → IsLeft left s
      → (worker_receives s s.worker q ≡ none)
        × (worker_sends s s.worker ≡ none)
        × (worker_done s s.worker q ≡ none)
  worker-IsLeft s q h = rw h.stops (receives_none q, refl, done_none q)
    where
      receives_none : (q : Option (List Buffer)) → worker_receives s stopped q ≡ none
      receives_none none = refl
      receives_none (some q) = refl

      done_none : (q : Option (List Buffer)) → worker_done s stopped q ≡ none
      done_none none = refl
      done_none (some q) = refl

  none-OnSome : {o : Option Inbox} → o ≡ none → OnSome (IsLeft left) o
  none-OnSome e = subst (OnSome (IsLeft left)) (sym e) tt

  read_incoming-IsLeft :
      (s : Inbox) (q : List Buffer) → IsLeft left s → OnSome (IsLeft left) (read_incoming s q)
  read_incoming-IsLeft s [] h = tt
  read_incoming-IsLeft s (b ∷ q) h = go b.bytes
    where
      go : (o : Option (List ℕ)) → IsLeft left (read_from s o b q)
      go none = same-IsLeft s _ refl refl h
      go (some bs) = same-IsLeft s _ refl refl h

  close_round-IsLeft :
      (s : Inbox) (c : Closer) (q : List Buffer)
      → IsLeft left s
      → OnSome (IsLeft left) (close_round s c q)
  close_round-IsLeft s is_open q h = same-IsLeft s _ refl refl h
  close_round-IsLeft s drains [] h = same-IsLeft s _ refl refl h
  close_round-IsLeft s drains (b ∷ q) h = go b.bytes
    where
      go : (o : Option (List ℕ)) → IsLeft left (drain_from s o b q)
      go none = same-IsLeft s _ refl refl h
      go (some bs) = same-IsLeft s _ refl refl h
  close_round-IsLeft s finished q h = tt

  take_step-IsLeft :
      (step : Step) (s : Inbox) → IsLeft left s → OnSome (IsLeft left) (take_step step s)
  unfolding take_step
  take_step-IsLeft (offers b) s h = offer-IsLeft b s h
  take_step-IsLeft (spills i) s h = spill_to-IsLeft s (pick i s.pending) h
  take_step-IsLeft (abandons i) s h = abandon_of-IsLeft s (pick i s.pending) h
  take_step-IsLeft receives s h = none-OnSome (worker-IsLeft s s.overflow h).0
  take_step-IsLeft sends s h = none-OnSome (worker-IsLeft s s.overflow h).1
  take_step-IsLeft sees_done s h = none-OnSome (worker-IsLeft s s.overflow h).2
  take_step-IsLeft reads s h = read_incoming-IsLeft s s.incoming h
  take_step-IsLeft closes s h = close_round-IsLeft s s.closer s.incoming h
  take_step-IsLeft connection_done s h = same-IsLeft s _ refl refl h

-- When the connection is done while the worker waits with a buffer in hand, the worker returns, and
-- whatever happens afterwards the buffers that are in `overflow` then stay there: none of them is ever
-- read or given back to the pool.
pub history-IsLeft :
    (s : Inbox) (b : Buffer) (left : List Buffer) (steps : List Step)
    → s.done ≡ true
    → s.worker ≡ holding b
    → s.overflow ≡ some left
    → (s' : Inbox) × (take_step sees_done s ≡ some s') × OnSome (IsLeft left) (history steps s')
unfolding take_step
history-IsLeft s b left steps d v q =
    let s' : Inbox = record s { worker = stopped; released = s.released ++ (b ∷ []) } in
    (
      s',
      rw (v, q, d) refl,
      history-OnSome (IsLeft left) (take_step-IsLeft left) steps s'
          (record { stops = refl; keeps = ([], q ∙ ap some (sym (append-nil left))) }),
    )
