-- ===== src/Highlevel/Inbox/Weight.antt =====
-- What each step of an inbound queue does to the weight of its buffers.
use hioload_ws.Prelude.{
  ◌++◌, ◌+◌, ◌∷◌, ◌≡◌, List, Option, [], ap, arith, if_lem, length, ltb, none, refl, some, suc,
  zero, ℕ,
}
use hioload_ws.Api.Buffer.{Buffer}
use hioload_ws.Highlevel.Inbox.{
  Closer, Inbox, Step, Worker, abandon_of, abandons, close_round, closes, connection_done,
  drain_from, draining, drains, finished, holding, idle, incoming_capacity, is_open, offer, offers,
  overflow_capacity, pick, pick_then, read_from, read_incoming, reads, receives, sees_done, sends,
  spill_to, spills, started, stopped, take_step, worker_done, worker_receives, worker_sends,
}

-- The total weight of some buffers, so a count of those that a test picks.
abbrev pub total : (Buffer → ℕ) → List Buffer → ℕ
total w [] = 0
total w (b ∷ bs) = w b + total w bs

total-append : (w : Buffer → ℕ) (xs ys : List Buffer) → total w (xs ++ ys) ≡ total w xs + total w ys
total-append w [] ys = omega arith
total-append w (x ∷ xs) ys = omega (arith, total-append w xs ys)

total-snoc :
    (w : Buffer → ℕ) (xs : List Buffer) (b : Buffer) → total w (xs ++ (b ∷ [])) ≡ total w xs + w b
total-snoc w xs b = omega (arith, total-append w xs (b ∷ []))

abbrev pub spilled : Option (List Buffer) → List Buffer
spilled none = []
spilled (some q) = q

abbrev pub held : Worker → List Buffer
held idle = []
held draining = []
held stopped = []
held (holding b) = b ∷ []

-- The weight of all that an inbox has or has had.
abbrev pub weigh : (Buffer → ℕ) → Inbox → ℕ
weigh w s =
    total w s.incoming
    + total w (spilled s.overflow)
    + total w s.pending
    + total w (held s.worker)
    + total w s.released
    + total w s.delivered
    + total w s.dropped

abbrev pub offered : List Step → List Buffer
offered [] = []
offered (offers b ∷ steps) = b ∷ offered steps
offered (spills i ∷ steps) = offered steps
offered (abandons i ∷ steps) = offered steps
offered (receives ∷ steps) = offered steps
offered (sends ∷ steps) = offered steps
offered (sees_done ∷ steps) = offered steps
offered (reads ∷ steps) = offered steps
offered (closes ∷ steps) = offered steps
offered (connection_done ∷ steps) = offered steps

module _ (w : Buffer → ℕ) where
  -- A state that a step leads to weighs as much as the one before.
  abbrev Keeps : Inbox → Option Inbox → Type 0
  Keeps s none = Unit
  Keeps s (some s') = weigh w s' ≡ weigh w s

  started_lem : (q : Option (List Buffer)) → total w (spilled (started q)) ≡ total w (spilled q)
  started_lem none = refl
  started_lem (some q) = refl

  weigh-offer : (b : Buffer) (s : Inbox) → weigh w (offer b s) ≡ w b + weigh w s
  unfolding offer
  weigh-offer b s =
      if_lem (λ s'. weigh w s' ≡ w b + weigh w s) (ltb (length s.incoming) incoming_capacity)
        (omega (arith, total-snoc w s.incoming b))
        (omega (arith, total-snoc w s.pending b, started_lem s.overflow))

  abbrev Picks : List Buffer → Option (Buffer × List Buffer) → Type 0
  Picks bs none = Unit
  Picks bs (some (b, rest)) = total w bs ≡ w b + total w rest

  pick_then-Picks :
      (c : Buffer) (bs : List Buffer) (o : Option (Buffer × List Buffer))
      → Picks bs o
      → Picks (c ∷ bs) (pick_then c o)
  pick_then-Picks c bs none h = tt
  pick_then-Picks c bs (some (b, rest)) h = omega arith

  pick-Picks : (i : ℕ) (bs : List Buffer) → Picks bs (pick i bs)
  pick-Picks i [] = tt
  pick-Picks zero (b ∷ bs) = refl
  pick-Picks (suc i) (b ∷ bs) = pick_then-Picks b bs (pick i bs) (pick-Picks i bs)

  spill_to-Keeps :
      (s : Inbox) (q : Option (List Buffer)) (o : Option (Buffer × List Buffer))
      → s.overflow ≡ q
      → Picks s.pending o
      → Keeps s (spill_to s q o)
  spill_to-Keeps s q none e h = tt
  spill_to-Keeps s none (some (b, rest)) e h = tt
  spill_to-Keeps s (some q) (some (b, rest)) e h =
      if_lem (Keeps s) (ltb (length q) overflow_capacity)
        (omega (arith, ap (λ o. total w (spilled o)) e, total-snoc w q b)) tt

  abandon_of-Keeps :
      (s : Inbox) (o : Option (Buffer × List Buffer)) → Picks s.pending o → Keeps s (abandon_of s o)
  abandon_of-Keeps s none h = tt
  abandon_of-Keeps s (some (b, rest)) h =
      if_lem (Keeps s) s.done (omega (arith, total-snoc w s.released b)) tt

  worker_receives-Keeps :
      (s : Inbox) (v : Worker) (q : Option (List Buffer))
      → s.worker ≡ v
      → s.overflow ≡ q
      → Keeps s (worker_receives s v q)
  worker_receives-Keeps s v none e f = tt
  worker_receives-Keeps s idle (some []) e f = tt
  worker_receives-Keeps s idle (some (b ∷ q)) e f =
      omega (arith, ap (λ v. total w (held v)) e, ap (λ o. total w (spilled o)) f)
  worker_receives-Keeps s draining (some []) e f = omega (arith, ap (λ v. total w (held v)) e)
  worker_receives-Keeps s draining (some (b ∷ q)) e f =
      omega (arith, ap (λ o. total w (spilled o)) f, total-snoc w s.released b)
  worker_receives-Keeps s stopped (some q) e f = tt
  worker_receives-Keeps s (holding b) (some q) e f = tt

  worker_sends-Keeps : (s : Inbox) (v : Worker) → s.worker ≡ v → Keeps s (worker_sends s v)
  worker_sends-Keeps s idle e = tt
  worker_sends-Keeps s draining e = tt
  worker_sends-Keeps s stopped e = tt
  worker_sends-Keeps s (holding b) e =
      if_lem (Keeps s) (ltb (length s.incoming) incoming_capacity)
        (omega (arith, ap (λ v. total w (held v)) e, total-snoc w s.incoming b)) tt

  worker_done-Keeps :
      (s : Inbox) (v : Worker) (q : Option (List Buffer))
      → s.worker ≡ v
      → Keeps s (worker_done s v q)
  worker_done-Keeps s v none e = tt
  worker_done-Keeps s idle (some q) e =
      if_lem (Keeps s) s.done (omega (arith, ap (λ v. total w (held v)) e)) tt
  worker_done-Keeps s draining (some q) e = tt
  worker_done-Keeps s stopped (some q) e = tt
  worker_done-Keeps s (holding b) (some q) e =
      if_lem (Keeps s) s.done
        (omega (arith, ap (λ v. total w (held v)) e, total-snoc w s.released b)) tt

  read_from_lem :
      (s : Inbox) (o : Option (List ℕ)) (b : Buffer) (q : List Buffer)
      → s.incoming ≡ b ∷ q
      → weigh w (read_from s o b q) ≡ weigh w s
  read_from_lem s none b q e = omega (arith, ap (total w) e, total-snoc w s.dropped b)
  read_from_lem s (some bs) b q e = omega (arith, ap (total w) e, total-snoc w s.delivered b)

  drain_from_lem :
      (s : Inbox) (o : Option (List ℕ)) (b : Buffer) (q : List Buffer)
      → s.incoming ≡ b ∷ q
      → weigh w (drain_from s o b q) ≡ weigh w s
  drain_from_lem s none b q e = omega (arith, ap (total w) e, total-snoc w s.dropped b)
  drain_from_lem s (some bs) b q e = omega (arith, ap (total w) e, total-snoc w s.released b)

  read_incoming-Keeps : (s : Inbox) (q : List Buffer) → s.incoming ≡ q → Keeps s (read_incoming s q)
  read_incoming-Keeps s [] e = tt
  read_incoming-Keeps s (b ∷ q) e = read_from_lem s b.bytes b q e

  close_round-Keeps :
      (s : Inbox) (c : Closer) (q : List Buffer) → s.incoming ≡ q → Keeps s (close_round s c q)
  close_round-Keeps s is_open q e = refl
  close_round-Keeps s drains [] e = refl
  close_round-Keeps s drains (b ∷ q) e = drain_from_lem s b.bytes b q e
  close_round-Keeps s finished q e = tt

  abbrev pub Adds : ℕ → Inbox → Option Inbox → Type 0
  Adds n s none = Unit
  Adds n s (some s') = weigh w s' ≡ n + weigh w s

  Keeps-Adds : (s : Inbox) (o : Option Inbox) → Keeps s o → Adds 0 s o
  Keeps-Adds s none h = tt
  Keeps-Adds s (some s') h = omega arith

  pub take_step-Adds :
      (step : Step) (s : Inbox) → Adds (total w (offered (step ∷ []))) s (take_step step s)
  unfolding take_step
  take_step-Adds (offers b) s = omega (arith, weigh-offer b s)
  take_step-Adds (spills i) s = Keeps-Adds s _ (spill_to-Keeps s _ _ refl (pick-Picks i s.pending))
  take_step-Adds (abandons i) s = Keeps-Adds s _ (abandon_of-Keeps s _ (pick-Picks i s.pending))
  take_step-Adds receives s = Keeps-Adds s _ (worker_receives-Keeps s _ _ refl refl)
  take_step-Adds sends s = Keeps-Adds s _ (worker_sends-Keeps s _ refl)
  take_step-Adds sees_done s = Keeps-Adds s _ (worker_done-Keeps s _ _ refl)
  take_step-Adds reads s = Keeps-Adds s _ (read_incoming-Keeps s _ refl)
  take_step-Adds closes s = Keeps-Adds s _ (close_round-Keeps s _ _ refl)
  take_step-Adds connection_done s = omega arith
