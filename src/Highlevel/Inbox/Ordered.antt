-- ===== src/Highlevel/Inbox/Ordered.antt =====
-- What each step of an inbound queue does to the order of its buffers.
use hioload_ws.Prelude.{
  ◌++◌, ◌∙◌, ◌∷◌, ◌≡◌, All, All-of_append, List, OnSome, Option, [], ap, append-nil, append_assoc,
  arith, if_lem, length, ltb, none, refl, some, subst, sym, true, ℕ,
}
use hioload_ws.Api.Buffer.{Buffer}
use hioload_ws.Highlevel.Inbox.{
  Closer, Inbox, Step, Worker, abandon_of, abandons, close_round, closes, connection_done,
  drain_from, draining, drains, finished, holding, idle, incoming_capacity, is_open, offer, offers,
  overflow_capacity, pick, read_from, read_incoming, reads, receives, sees_done, sends, spill_to,
  spills, stopped, take_step, worker_done, worker_receives, worker_sends,
}
use hioload_ws.Highlevel.Inbox.Limits.{started-some}
use hioload_ws.Highlevel.Inbox.Weight.{offered}

abbrev pub HasData : Buffer → Type 0
HasData b = (bs : List ℕ) × (b.bytes ≡ some bs)

-- While nothing went through the worker and `Close` is not called, the worker is idle, and what was read
-- and what is in `incoming` are some buffers in their order.
unfoldable pub InOrder : List Buffer → Inbox → Type 0
InOrder bs s =
    s.overflow ≡ none → s.closer ≡ is_open → (s.delivered ++ s.incoming ≡ bs) × (s.worker ≡ idle)

module _ (bs : List Buffer) where
  pub longer : (o : Option Inbox) → OnSome (InOrder bs) o → OnSome (InOrder (bs ++ [])) o
  longer o h = subst (λ cs. OnSome (InOrder cs) o) (sym (append-nil bs)) h

  offer-InOrder : (b : Buffer) (s : Inbox) → InOrder bs s → InOrder (bs ++ (b ∷ [])) (offer b s)
  unfolding offer InOrder
  offer-InOrder b s h =
      if_lem (InOrder (bs ++ (b ∷ []))) (ltb (length s.incoming) incoming_capacity)
        (λ n o. (
          sym (append_assoc s.delivered s.incoming (b ∷ [])) ∙ ap (λ z. z ++ (b ∷ [])) (h n o).0,
          (h n o).1,
        ))
        (λ n o. absurd (started-some s.overflow n))

  -- Steps that leave `overflow` with a queue.
  spilled-InOrder : (s : Inbox) (q : List Buffer) → s.overflow ≡ some q → InOrder bs s
  unfolding InOrder
  spilled-InOrder s q e = λ n o. grind (arith, e, n)

  spill_to-InOrder :
      (s : Inbox) (q : Option (List Buffer)) (o : Option (Buffer × List Buffer))
      → OnSome (InOrder bs) (spill_to s q o)
  spill_to-InOrder s q none = tt
  spill_to-InOrder s none (some (b, rest)) = tt
  spill_to-InOrder s (some q) (some (b, rest)) =
      if_lem (OnSome (InOrder bs)) (ltb (length q) overflow_capacity) (spilled-InOrder _ _ refl) tt

  abandon_of-InOrder :
      (s : Inbox) (o : Option (Buffer × List Buffer))
      → InOrder bs s
      → OnSome (InOrder bs) (abandon_of s o)
  unfolding InOrder
  abandon_of-InOrder s none h = tt
  abandon_of-InOrder s (some (b, rest)) h = if_lem (OnSome (InOrder bs)) s.done h tt

  worker_receives-InOrder :
      (s : Inbox) (v : Worker) (q : Option (List Buffer))
      → s.overflow ≡ q
      → OnSome (InOrder bs) (worker_receives s v q)
  worker_receives-InOrder s v none e = tt
  worker_receives-InOrder s idle (some []) e = tt
  worker_receives-InOrder s idle (some (b ∷ q)) e = spilled-InOrder _ q refl
  worker_receives-InOrder s draining (some []) e = spilled-InOrder _ [] e
  worker_receives-InOrder s draining (some (b ∷ q)) e = spilled-InOrder _ q refl
  worker_receives-InOrder s stopped (some q) e = tt
  worker_receives-InOrder s (holding b) (some q) e = tt

  worker_sends-InOrder :
      (s : Inbox) (v : Worker)
      → s.worker ≡ v
      → InOrder bs s
      → OnSome (InOrder bs) (worker_sends s v)
  unfolding InOrder
  worker_sends-InOrder s idle e h = tt
  worker_sends-InOrder s draining e h = tt
  worker_sends-InOrder s stopped e h = tt
  worker_sends-InOrder s (holding b) e h =
      if_lem (OnSome (InOrder bs)) (ltb (length s.incoming) incoming_capacity)
        (λ n o. grind (arith, sym e ∙ (h n o).1)) tt

  worker_done-InOrder :
      (s : Inbox) (v : Worker) (q : Option (List Buffer))
      → s.overflow ≡ q
      → OnSome (InOrder bs) (worker_done s v q)
  worker_done-InOrder s v none e = tt
  worker_done-InOrder s idle (some q) e =
      if_lem (OnSome (InOrder bs)) s.done (spilled-InOrder _ q e) tt
  worker_done-InOrder s draining (some q) e = tt
  worker_done-InOrder s stopped (some q) e = tt
  worker_done-InOrder s (holding b) (some q) e =
      if_lem (OnSome (InOrder bs)) s.done (spilled-InOrder _ q e) tt

  -- A read takes the first of those in order, which has data if they all have.
  read_incoming-InOrder :
      (s : Inbox) (q : List Buffer)
      → s.incoming ≡ q
      → All HasData bs
      → InOrder bs s
      → OnSome (InOrder bs) (read_incoming s q)
  unfolding InOrder
  read_incoming-InOrder s [] e a h = tt
  read_incoming-InOrder s (b ∷ q) e a h = go b.bytes refl
    where
      moved : s.delivered ++ s.incoming ≡ bs → (s.delivered ++ (b ∷ [])) ++ q ≡ bs
      moved f = append_assoc s.delivered (b ∷ []) q ∙ ap (λ z. s.delivered ++ z) (sym e) ∙ f

      first : s.delivered ++ s.incoming ≡ bs → HasData b
      first f =
          (All-of_append HasData s.delivered (b ∷ q)
            (subst (All HasData) (sym (ap (λ z. s.delivered ++ z) (sym e) ∙ f)) a)).1.0

      no_data : HasData b → b.bytes ≡ none → ⊥
      no_data d f = let (ds, g) = d in grind (arith, sym g ∙ f)

      go : (o : Option (List ℕ)) → b.bytes ≡ o → InOrder bs (read_from s o b q)
      go none f = λ n c. absurd (no_data (first (h n c).0) f)
      go (some ds) f = λ n c. (moved (h n c).0, (h n c).1)

  close_round-InOrder :
      (s : Inbox) (c : Closer) (q : List Buffer)
      → s.closer ≡ c
      → OnSome (InOrder bs) (close_round s c q)
  unfolding InOrder
  close_round-InOrder s is_open q e = λ n o. grind (arith, o)
  close_round-InOrder s drains [] e = λ n o. grind (arith, o)
  close_round-InOrder s drains (b ∷ q) e = go b.bytes
    where
      go : (o : Option (List ℕ)) → InOrder bs (drain_from s o b q)
      go none = λ n o. grind (arith, sym e ∙ o)
      go (some ds) = λ n o. grind (arith, sym e ∙ o)
  close_round-InOrder s finished q e = tt

  done-InOrder : (s : Inbox) → InOrder bs s → InOrder bs (record s { done = true })
  unfolding InOrder
  done-InOrder s h = h

  -- A step that offers nothing keeps the order; an offer adds its buffer at the end.
  pub take_step-InOrder :
      (step : Step) (s : Inbox)
      → All HasData bs
      → InOrder bs s
      → OnSome (InOrder (bs ++ offered (step ∷ []))) (take_step step s)
  unfolding take_step
  take_step-InOrder (offers b) s a h = offer-InOrder b s h
  take_step-InOrder (spills i) s a h = longer _ (spill_to-InOrder s s.overflow (pick i s.pending))
  take_step-InOrder (abandons i) s a h = longer _ (abandon_of-InOrder s (pick i s.pending) h)
  take_step-InOrder receives s a h = longer _ (worker_receives-InOrder s s.worker s.overflow refl)
  take_step-InOrder sends s a h = longer _ (worker_sends-InOrder s s.worker refl h)
  take_step-InOrder sees_done s a h = longer _ (worker_done-InOrder s s.worker s.overflow refl)
  take_step-InOrder reads s a h = longer _ (read_incoming-InOrder s s.incoming refl a h)
  take_step-InOrder closes s a h = longer _ (close_round-InOrder s s.closer s.incoming refl)
  take_step-InOrder connection_done s a h =
      longer (some (record s { done = true })) (done-InOrder s h)
