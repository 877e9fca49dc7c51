-- ===== src/Server/Readers/Accounted.antt =====
-- Each event that a goroutine read is pushed once or still to be pushed.
use hioload_ws.EventLoop.{time_out}
use hioload_ws.EventLoop.{receive_event}
use hioload_ws.EventLoop.{see_quit}
use hioload_ws.EventLoop.{advance}
use hioload_ws.Prelude.{none, none}
use hioload_ws.EventLoop.{start_run}
use hioload_ws.Prelude.{some}
use hioload_ws.Prelude.{Option, ◌⊎◌, ◌⊎◌}
use hioload_ws.EventLoop.{push_stopped}
use hioload_ws.Prelude.{
  ◌++◌, ◌==◌, ◌∙◌, ◌∷◌, ◌≡◌, Bool, Bool-cases, List, OnSome, [], ap, append-nil, append_assoc,
  arith, false, if_cases, if_lem, if◌then◌else◌, inl, inr, length, ltb, refl, subst, sym, true, ℕ,
}
use hioload_ws.EventLoop.{EventLoop, calls_of, new_event_loop, push, pushes}
use hioload_ws.EventLoop.Calls.{KeepsHandlers}
use hioload_ws.EventLoop.Pushed.{
  advance_same, receive_event_same, see_quit_same, start_run_same, time_out_same,
}
use hioload_ws.Server.Readers.{
  LoopStep, Readers, advanced, is_of, loop_step, pushed_to, put, quit_seen, read_buffers, received,
  run_called, stop_called, timed_out,
}

-- The events of one connection.
abbrev pub of_conn : (ℕ → ℕ) → ℕ → List ℕ → List ℕ
of_conn conn_of c [] = []
of_conn conn_of c (ev ∷ evs) =
    let rest = of_conn conn_of c evs in if conn_of ev == c then ev ∷ rest else rest

-- The events that were handled.
abbrev pub events_of : List (ℕ × ℕ) → List ℕ
events_of [] = []
events_of ((h, ev) ∷ cs) = ev ∷ events_of cs

pub events_of-append : (cs ds : List (ℕ × ℕ)) → events_of (cs ++ ds) ≡ events_of cs ++ events_of ds
events_of-append [] ds = refl
events_of-append ((h, ev) ∷ cs) ds = ap (λ z. ev ∷ z) (events_of-append cs ds)

pub events_of-calls_of : (h : ℕ) (evs : List ℕ) → events_of (calls_of (h ∷ []) evs) ≡ evs
events_of-calls_of h [] = refl
events_of-calls_of h (ev ∷ evs) = ap (λ z. ev ∷ z) (events_of-calls_of h evs)

-- The events for which `Push` returned true, and those that it was called with.
abbrev pub accepted : List (ℕ × Bool) → List ℕ
accepted [] = []
accepted ((ev, true) ∷ xs) = ev ∷ accepted xs
accepted ((ev, false) ∷ xs) = accepted xs

abbrev pub offered : List (ℕ × Bool) → List ℕ
offered [] = []
offered ((ev, b) ∷ xs) = ev ∷ offered xs

accepted-append : (xs bs : List (ℕ × Bool)) → accepted (xs ++ bs) ≡ accepted xs ++ accepted bs
accepted-append [] bs = refl
accepted-append ((ev, true) ∷ xs) bs = ap (λ z. ev ∷ z) (accepted-append xs bs)
accepted-append ((ev, false) ∷ xs) bs = accepted-append xs bs

offered-append : (xs bs : List (ℕ × Bool)) → offered (xs ++ bs) ≡ offered xs ++ offered bs
offered-append [] bs = refl
offered-append ((ev, b) ∷ xs) bs = ap (λ z. ev ∷ z) (offered-append xs bs)

-- The loop after `Push` returned.
abbrev pub AfterPush : ℕ → Bool → EventLoop → EventLoop → Type 0
AfterPush ev sent l l' =
    (l'.pushed ≡ l.pushed ++ accepted ((ev, sent) ∷ []))
    × ((l'.quit ≡ true) ⊎ ((sent ≡ true) × (l'.quit ≡ l.quit)))

module _ (conn_of : ℕ → ℕ) where
  pub of_conn-append :
      (c : ℕ) (xs ys : List ℕ)
      → of_conn conn_of c (xs ++ ys) ≡ of_conn conn_of c xs ++ of_conn conn_of c ys
  of_conn-append c [] ys = refl
  of_conn-append c (x ∷ xs) ys =
      ap (λ z. if conn_of x == c then x ∷ z else z) (of_conn-append c xs ys)
      ∙ split (conn_of x == c) (of_conn conn_of c xs) (of_conn conn_of c ys)
    where
      split :
          (b : Bool) (us vs : List ℕ)
          → (if b then x ∷ (us ++ vs) else us ++ vs) ≡ (if b then x ∷ us else us) ++ vs
      split true us vs = refl
      split false us vs = refl

  -- What the loop accepted from a goroutine are the events for which `Push` said so, the answered ones
  -- and those still to be pushed are what it read, the latter are its own, and unless the loop was
  -- stopped all the answered ones were accepted.
  abbrev AccountedAt : ℕ → EventLoop → List (ℕ × Bool) → List ℕ → List ℕ → Type 0
  AccountedAt c l answered to_push taken =
      (of_conn conn_of c l.pushed ≡ accepted answered)
      × (offered answered ++ to_push ≡ taken)
      × (is_of conn_of c to_push ≡ true)
      × ((l.quit ≡ true) ⊎ (accepted answered ≡ offered answered))

  unfoldable pub Accounted : Readers → Type 0
  Accounted s = (c : ℕ) → AccountedAt c s.loop (s.answers c) (s.to_push c) (s.taken c)

  pub read_buffers-Accounted :
      (c : ℕ) (evs : List ℕ) (s : Readers)
      → Accounted s
      → (w : List ℕ) → s.to_push c ≡ w
      → OnSome Accounted (read_buffers conn_of c evs s w)
  unfolding Accounted
  read_buffers-Accounted c evs s a (w ∷ ws) e = tt
  read_buffers-Accounted c evs s a [] e =
      if_cases (OnSome Accounted) (is_of conn_of c evs) (λ own d. if_both d own) (λ r. tt)
    where
      if_both :
          (d : ℕ)
          → is_of conn_of c evs ≡ true
          → AccountedAt d s.loop
              (s.answers d)
              (put s.to_push c evs d)
              (put s.taken c (s.taken c ++ evs) d)
      if_both d own = elim (Bool-cases (d == c)) [
        | inl y ↦
            let same : d ≡ c = ground (arith, y) in
            rw y (
              subst (λ z. AccountedAt z s.loop (s.answers z) evs (s.taken c ++ evs)) (sym same)
                (
                  (a c).0,
                  ap (λ z. z ++ evs)
                      (sym (append-nil (offered (s.answers c)))
                        ∙ ap (λ z. offered (s.answers c) ++ z) (sym e)
                        ∙ (a c).1),
                  own,
                  (a c).3,
                ))
        | inr n ↦ rw n (a d)
      ]

  pub pushed_to-Accounted :
      (c ev : ℕ) (evs : List ℕ) (sent : Bool) (s : Readers)
      → Accounted s
      → s.to_push c ≡ ev ∷ evs
      → (o : Option EventLoop) → OnSome (AfterPush ev sent s.loop) o
      → OnSome Accounted (pushed_to c ev evs sent s o)
  unfolding Accounted
  pushed_to-Accounted c ev evs sent s a e none p = tt
  pushed_to-Accounted c ev evs sent s a e (some l) p = λ d. elim (Bool-cases (d == c)) [
    | inl y ↦
        let same : d ≡ c = ground (arith, y) in
        rw y (
          subst (λ z. AccountedAt z l (s.answers c ++ ((ev, sent) ∷ [])) evs (s.taken z)) (sym same)
            (
              of_pushed c
                  ∙ ap (λ z. of_conn conn_of c s.loop.pushed ++ z) (one_more sent)
                  ∙ ap (λ z. z ++ accepted ((ev, sent) ∷ [])) (a c).0
                  ∙ sym (accepted-append (s.answers c) ((ev, sent) ∷ [])),
              ap (λ z. z ++ evs) (offered-append (s.answers c) ((ev, sent) ∷ []))
                  ∙ append_assoc (offered (s.answers c)) (ev ∷ []) evs
                  ∙ ap (λ z. offered (s.answers c) ++ z) (sym e)
                  ∙ (a c).1,
              rest_own,
              elim p.1 [
                | inl q ↦ inl q
                | inr (was_sent, q) ↦ elim (a c).3 [
                  | inl r ↦ inl (q ∙ r)
                  | inr r ↦ inr (
                      accepted-append (s.answers c) ((ev, sent) ∷ [])
                      ∙ ap (λ z. z ++ accepted ((ev, sent) ∷ [])) r
                      ∙ ap (λ b. offered (s.answers c) ++ accepted ((ev, b) ∷ [])) was_sent
                      ∙ sym (offered-append (s.answers c) ((ev, sent) ∷ [])))
                ]
              ],
            ))
    | inr n ↦ rw n (
      of_pushed d
          ∙ ap (λ z. of_conn conn_of d s.loop.pushed ++ z) (not_more d n sent)
          ∙ append-nil (of_conn conn_of d s.loop.pushed)
          ∙ (a d).0,
      (a d).1,
      (a d).2,
      elim p.1 [
        | inl q ↦ inl q
        | inr (was_sent, q) ↦ elim (a d).3 [ inl r ↦ inl (q ∙ r) | inr r ↦ inr r ]
      ],
    )
  ]
    where
      owned : is_of conn_of c (ev ∷ evs) ≡ true
      owned = ap (is_of conn_of c) (sym e) ∙ (a c).2

      first_own : (conn_of ev == c) ≡ true
      first_own = ground (arith, owned)

      rest_own : is_of conn_of c evs ≡ true
      rest_own = ground (arith, owned)

      of_pushed :
          (d : ℕ)
          → of_conn conn_of d l.pushed
            ≡ of_conn conn_of d s.loop.pushed ++ of_conn conn_of d (accepted ((ev, sent) ∷ []))
      of_pushed d =
          ap (of_conn conn_of d) p.0 ∙ of_conn-append d s.loop.pushed (accepted ((ev, sent) ∷ []))

      one_more : (b : Bool) → of_conn conn_of c (accepted ((ev, b) ∷ [])) ≡ accepted ((ev, b) ∷ [])
      one_more true = rw first_own refl
      one_more false = refl

      not_more :
          (d : ℕ) → (d == c) ≡ false → (b : Bool) → of_conn conn_of d (accepted ((ev, b) ∷ [])) ≡ []
      not_more d n true =
          let other : (conn_of ev == d) ≡ false = ground (arith, first_own, n) in rw other refl
      not_more d n false = refl

-- The two ways in which `Push` returns.
pub push-AfterPush : (ev : ℕ) (l : EventLoop) → OnSome (AfterPush ev true l) (push ev l)
push-AfterPush ev l =
    if_lem (OnSome (AfterPush ev true l)) (ltb (length l.inbox) l.ring_capacity)
      (refl, inr (refl, refl)) tt

pub push_stopped-AfterPush :
    (ev : ℕ) (l : EventLoop) → OnSome (AfterPush ev false l) (push_stopped l)
push_stopped-AfterPush ev l =
    if_cases (OnSome (AfterPush ev false l)) l.quit (λ q. (sym (append-nil l.pushed), inl q))
      (λ q. tt)

pub keeps_handlers : (step : LoopStep) → KeepsHandlers (loop_step step)
keeps_handlers run_called = tt
keeps_handlers stop_called = tt
keeps_handlers advanced = tt
keeps_handlers quit_seen = tt
keeps_handlers received = tt
keeps_handlers timed_out = tt

or_kept :
    (l : EventLoop) (o : Option EventLoop)
    → OnSome (λ l'. (l'.pushed ≡ l.pushed) × (l'.quit ≡ l.quit)) o
    → OnSome (λ l'. (l'.pushed ≡ l.pushed) × ((l'.quit ≡ true) ⊎ (l'.quit ≡ l.quit))) o
or_kept l none h = tt
or_kept l (some l') h = (h.0, inr h.1)

pub same_pushed :
    (step : LoopStep) (l : EventLoop)
    → OnSome
        (λ l'. (l'.pushed ≡ l.pushed) × ((l'.quit ≡ true) ⊎ (l'.quit ≡ l.quit)))
        (hioload_ws.EventLoop.take_step (loop_step step) l)
unfolding hioload_ws.EventLoop.take_step
same_pushed run_called l = or_kept l (some (start_run l)) (start_run_same l)
same_pushed stop_called l = (refl, inl refl)
same_pushed advanced l = or_kept l (advance l l.place) (advance_same l l.place)
same_pushed quit_seen l = or_kept l (see_quit l l.place) (see_quit_same l l.place)
same_pushed received l =
    or_kept l (receive_event l l.place l.inbox) (receive_event_same l l.place l.inbox)
same_pushed timed_out l = or_kept l (time_out l l.place) (time_out_same l l.place)
