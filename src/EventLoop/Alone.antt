-- ===== src/EventLoop/Alone.antt =====
-- The loop of internal/concurrency that no one else disturbs.
use Prim.Native.Nat.{zero}
use hioload_ws.Prelude.{
  ◌++◌, ◌+◌, ◌<◌, ◌∙◌, ◌∷◌, ◌≡◌, ◌≤◌, Bool-cases, List, [], ap, append-nil, append_assoc, ap₂,
  arith, inl, inr, length, ltb, lt→ltb, refl, run_from, run_steps, run_steps-append, some, subst,
  suc, sym, true, ℕ,
}
use hioload_ws.EventLoop.{
  EventLoop, Place, Step, advance, advances, calling, calls_of, clearing, draining, take_step,
  testing, waiting,
}
use hioload_ws.EventLoop.Calls.{calls_of-append}

abbrev pub only_advances : ℕ → List Step
only_advances zero = []
only_advances (suc n) = advances ∷ only_advances n

-- `Run` gets from one state to another on its own.
pub Reaches : EventLoop → EventLoop → Type 0
Reaches s s' = (n : ℕ) × (run_steps take_step (only_advances n) s ≡ some s')

one_more : (s s₁ s' : EventLoop) → advance s s.place ≡ some s₁ → Reaches s₁ s' → Reaches s s'
unfolding run_steps take_step Reaches
one_more s s₁ s' e (n, r) = (suc n, ap (run_from (run_steps take_step (only_advances n))) e ∙ r)

Reaches-refl : (s : EventLoop) → Reaches s s
unfolding run_steps Reaches
Reaches-refl s = (0, refl)

only_advances-add : (m n : ℕ) → only_advances (m + n) ≡ only_advances m ++ only_advances n
only_advances-add zero n = ap only_advances (omega arith)
only_advances-add (suc m) n =
    let e : suc m + n ≡ suc (m + n) = omega arith in
    ap only_advances e ∙ ap (λ z. advances ∷ z) (only_advances-add m n)

Reaches-trans : (s s₁ s' : EventLoop) → Reaches s s₁ → Reaches s₁ s' → Reaches s s'
unfolding Reaches
Reaches-trans s s₁ s' (m, e) (n, r) = (
  m + n,
  ap (λ z. run_steps take_step z s) (only_advances-add m n)
      ∙ run_steps-append take_step (only_advances m) (only_advances n) s
      ∙ ap (run_from (run_steps take_step (only_advances n))) e
      ∙ r,
)

-- A state with its changing parts.
abbrev at_place : EventLoop → Place → List ℕ → List ℕ → ℕ → List ℕ → List (ℕ × ℕ) → EventLoop
at_place s p b q backoff d c = record s {
  place = p;
  batch = b;
  inbox = q;
  backoff_ns = backoff;
  dispatched = d;
  called = c;
}

module _ (s : EventLoop) (d : List ℕ) where
  -- The calls of a dispatch are all made.
  calls_all :
      (cs : List (ℕ × ℕ)) (b q : List ℕ) (k : ℕ) (c : List (ℕ × ℕ))
      → Reaches (at_place s (calling cs) b q k d c) (at_place s clearing b q 1 d (c ++ cs))
  calls_all [] b q k c = one_more _ _ _ refl (
      subst (λ z. Reaches (at_place s clearing b q 1 d c) (at_place s clearing b q 1 d z))
        (sym (append-nil c)) (Reaches-refl _))
  calls_all (x ∷ cs) b q k c = one_more _ _ _ refl (
      subst
        (λ z.
          Reaches (at_place s (calling cs) b q k d (c ++ (x ∷ []))) (at_place s clearing b q 1 d z))
        (append_assoc c (x ∷ []) cs) (calls_all cs b q k (c ++ (x ∷ []))))

  -- The draining loop that has an event goes on to the test of the batch.
  drains :
      (i ev : ℕ) (b q : List ℕ) (k : ℕ) (c : List (ℕ × ℕ))
      → (b' : List ℕ) × (q' : List ℕ) × ((ev ∷ b) ++ q ≡ (ev ∷ b') ++ q')
        × (length q' ≤ length q)
        × Reaches (at_place s (draining i) (ev ∷ b) q k d c) (at_place s testing (ev ∷ b') q' k d c)
  drains i ev b [] k c = (b, [], refl, omega arith, one_more _ _ _ refl (Reaches-refl _))
  drains i ev b (x ∷ q) k c = elim (Bool-cases (ltb i s.batch_size)) [
    | inl y ↦
        let (b', q', e, l, r) = drains (i + 1) ev (b ++ (x ∷ [])) q k c in
        (
          b',
          q',
          sym (append_assoc (ev ∷ b) (x ∷ []) q) ∙ e,
          omega (arith, l),
          one_more _ _ _ (rw y refl) r,
        )
    | inr n ↦ (b, x ∷ q, refl, omega arith, one_more _ _ _ (rw n refl) (Reaches-refl _))
  ]

module _ (s : EventLoop) (room : 0 < s.batch_size) where
  -- One turn of the loop over an inbox that is not empty dispatches a first part of it.
  turns :
      (ev : ℕ) (q b : List ℕ) (k : ℕ) (d : List ℕ) (c : List (ℕ × ℕ))
      → (b' : List ℕ) × (q' : List ℕ) × (ev ∷ q ≡ (ev ∷ b') ++ q')
        × (length q' ≤ length q)
        × Reaches (at_place s clearing b (ev ∷ q) k d c) (
            at_place s clearing
              (ev ∷ b')
              q'
              1
              (d ++ (ev ∷ b'))
              (c ++ calls_of s.handlers (ev ∷ b')))
  turns ev q b k d c =
      let (b', q', e, l, r) = drains s d 1 ev [] q k c in
      let first : ltb 0 s.batch_size ≡ true = lt→ltb 0 s.batch_size room in
      (
        b',
        q',
        e,
        l,
        one_more _ _ _ refl (
            one_more _ (at_place s (draining 1) (ev ∷ []) q k d c) _ (rw first refl) (
              Reaches-trans _ _ _ r (
                one_more _ _ _ refl (
                  calls_all s (d ++ (ev ∷ b')) (calls_of s.handlers (ev ∷ b')) (ev ∷ b') q' k c)))),
      )

  catches_up :
      (n : ℕ) (q b : List ℕ) (k : ℕ) (d : List ℕ) (c : List (ℕ × ℕ))
      → length q ≤ n
      → (k' : ℕ) × Reaches
          (at_place s clearing b q k d c)
          (at_place s waiting [] [] k' (d ++ q) (c ++ calls_of s.handlers q))
  catches_up n [] b k d c l = (
    k,
    one_more _ _ _ refl (
        one_more _ _ _ refl (
          subst
            (λ (z, w). Reaches (at_place s waiting [] [] k d c) (at_place s waiting [] [] k z w))
            (ap₂ (λ z w. (z, w)) (sym (append-nil d)) (sym (append-nil c))) (Reaches-refl _))),
  )
  catches_up zero (ev ∷ q) b k d c l = absurd (omega (arith, l))
  catches_up (suc n) (ev ∷ q) b k d c l =
      let (b', q', e, l', r) = turns ev q b k d c in
      let (k', r') =
        catches_up n q' (ev ∷ b') 1 (d ++ (ev ∷ b')) (c ++ calls_of s.handlers (ev ∷ b'))
          (omega (arith, l, l')) in
      (
        k',
        Reaches-trans _ _ _ r (
            subst
              (λ (z, w).
                Reaches
                  (at_place s clearing (ev ∷ b') q' 1 (d ++ (ev ∷ b'))
                    (c ++ calls_of s.handlers (ev ∷ b')))
                  (at_place s waiting [] [] k' z w))
              (ap₂ (λ z w. (z, w)) (append_assoc d (ev ∷ b') q' ∙ ap (λ z. d ++ z) (sym e))
                (append_assoc c (calls_of s.handlers (ev ∷ b')) (calls_of s.handlers q')
                  ∙ ap (λ z. c ++ z)
                      (sym (calls_of-append s.handlers (ev ∷ b') q')
                        ∙ ap (calls_of s.handlers) (sym e))))
              r'),
      )

-- The loop catches up: with a batch size above 0, `Run` that stands at the top of its loop and is left
-- alone gets in finitely many steps to its waiting select, with the inbox empty, every event that was
-- in it dispatched, and all handlers called for these events in order.
pub run-catches_up :
    (s : EventLoop)
    → 0 < s.batch_size
    → s.place ≡ clearing
    → (n : ℕ) × (s' : EventLoop) × (run_steps take_step (only_advances n) s ≡ some s')
      × (s'.place ≡ waiting)
      × (s'.inbox ≡ [])
      × (s'.dispatched ≡ s.dispatched ++ s.inbox)
      × (s'.called ≡ s.called ++ calls_of s.handlers s.inbox)
unfolding Reaches
run-catches_up s room p =
    let (k', (n, e)) =
      catches_up s room (length s.inbox) s.inbox s.batch s.backoff_ns s.dispatched s.called
        (omega arith) in
    (
      n,
      at_place s waiting [] [] k' (s.dispatched ++ s.inbox)
          (s.called ++ calls_of s.handlers s.inbox),
      ap
            (λ z.
              run_steps take_step (only_advances n)
                (at_place s z s.batch s.inbox s.backoff_ns s.dispatched s.called))
            p
          ∙ e,
      refl,
      refl,
      refl,
      refl,
    )
