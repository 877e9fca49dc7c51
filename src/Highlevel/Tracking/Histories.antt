-- ===== src/Highlevel/Tracking/Histories.antt =====
-- Histories of the tracked connections.
use hioload_ws.Highlevel.Tracking.{or_new_conn}
use hioload_ws.Highlevel.Tracking.{new_conn}
use hioload_ws.Highlevel.Tracking.Tracked.{put_at_self}
use hioload_ws.Highlevel.Tracking.{Conn}
use hioload_ws.Prelude.{run_from}
use hioload_ws.Highlevel.Tracking.{with_making}
use hioload_ws.Highlevel.Tracking.{track_conn}
use hioload_ws.Highlevel.Tracking.{make_conn, make_on}
use hioload_ws.Prelude.{[]}
use hioload_ws.Prelude.{◌∷◌}
use hioload_ws.Highlevel.Tracking.{get_or_create_conn}
use hioload_ws.Prelude.{none}
use hioload_ws.Highlevel.Tracking.Closes.{close_on-IsTracked}
use hioload_ws.Highlevel.Tracking.Tracked.{is_finished}
use hioload_ws.Prelude.{ap}
use hioload_ws.Highlevel.Tracking.{closes_on}
use hioload_ws.Prelude.{ltb→lt, ◌∙◌, ◌∙◌}
use hioload_ws.Prelude.{inr}
use hioload_ws.Highlevel.Tracking.Closes.{begin_close-IsTracked}
use hioload_ws.Prelude.{inl, ltb}
use hioload_ws.Prelude.{Bool-cases, if_cases}
use hioload_ws.Highlevel.Tracking.{closes}
use hioload_ws.Prelude.{run_steps-always}
use hioload_ws.Prelude.{◌↔◌, ◌↔◌}
use hioload_ws.Highlevel.Tracking.Made.{make_on-IsTracked}
use hioload_ws.Highlevel.Tracking.{go_on}
use hioload_ws.Highlevel.Tracking.Tracked.{untouched}
use hioload_ws.Highlevel.Tracking.{is_tracked}
use hioload_ws.Prelude.{sym}
use hioload_ws.Prelude.{subst, ◌⊎◌, ◌⊎◌}
use hioload_ws.Highlevel.Tracking.Made.{make_conn-IsTracked}
use hioload_ws.Prelude.{false}
use hioload_ws.Highlevel.Tracking.{or_make_conn}
use hioload_ws.Prelude.{◌≢◌, ◌≢◌}
use hioload_ws.Highlevel.Tracking.Tracked.{in_list}
use hioload_ws.Prelude.{◌<◌, ◌<◌}
use hioload_ws.Highlevel.Tracking.{look_up}
use hioload_ws.Highlevel.Tracking.Tracked.{listed}
use hioload_ws.Prelude.{Option, refl, some}
use hioload_ws.Prelude.{run_steps, true}
use hioload_ws.Highlevel.Tracking.Closes.{missing}
use hioload_ws.Highlevel.Tracking.{arrives}
use hioload_ws.Prelude.{OnSome, arith, ℕ, ◌≡◌, ◌≡◌}
use hioload_ws.Highlevel.Tracking.{Tracker, is_stored}
use hioload_ws.Highlevel.Tracking.Closes.{differ}
use hioload_ws.Highlevel.Tracking.{Closing, new_tracker}
use hioload_ws.Highlevel.Tracking.{Step}
use hioload_ws.Highlevel.Tracking.Tracked.{IsTracked}
use hioload_ws.Prelude.{List}
use hioload_ws.Highlevel.Tracking.{Making}
use hioload_ws.Highlevel.Tracking.{take_step}
use hioload_ws.Highlevel.Tracking.{is_open, finished, made, added, has_callback, stored, goes_on}

take_step-IsTracked :
    (step : Step) (s : Tracker) → IsTracked s → OnSome IsTracked (take_step step s)
unfolding take_step
take_step-IsTracked (arrives ws) s h = arriving s.under_way refl (s.conn_store ws) refl
  where
    arriving :
        (u : Option ℕ)
        → s.under_way ≡ u
        → (o : Option ℕ) → s.conn_store ws ≡ o
        → OnSome IsTracked (look_up ws s u)
    arriving (some c) e o n = tt
    arriving none e o n = subst (λ z. IsTracked (or_make_conn ws s z)) (sym n) (looked o e n)
      where
        looked :
            (o : Option ℕ)
            → s.under_way ≡ none
            → s.conn_store ws ≡ o
            → IsTracked (or_make_conn ws s o)
        looked none e n = make_conn-IsTracked s h ws e n
        looked (some c) e n = h
take_step-IsTracked goes_on s h = going s.under_way refl
  where
    going : (u : Option ℕ) → s.under_way ≡ u → OnSome IsTracked (go_on s u)
    going none e = tt
    going (some c) e = make_on-IsTracked s h c e (s.conns c).making refl
take_step-IsTracked (closes c) s h =
    if_cases (OnSome IsTracked) (ltb c s.next)
      (λ l.
        begin_close-IsTracked s h c (ltb→lt c s.next l) (s.conns c).making (s.conns c).closing refl)
      (λ l. tt)
take_step-IsTracked (closes_on c) s h =
    if_cases (OnSome IsTracked) (ltb c s.next)
      (λ l. close_on-IsTracked s h c (ltb→lt c s.next l) (s.conns c).closing refl) (λ l. tt)

new_tracker-IsTracked : IsTracked new_tracker
new_tracker-IsTracked = record {
  below = λ d t. absurd (differ t refl);
  agrees = λ d l. absurd (omega arith);
  in_store = λ ws d e. absurd (missing e);
  fresh = λ e u. absurd (missing u);
}

stored_listed : (m : Making) (p : Closing) → is_stored m ≡ true → listed m p ≡ in_list p
stored_listed stored p e = refl
stored_listed made p e = absurd (differ e refl)
stored_listed added p e = refl
stored_listed has_callback p e = refl

-- The two maps agree: after any interleaving of the parts of `getOrCreateConn`, one call of it at a
-- time, with those of any calls of `Close`, a `Conn` for which neither of the two is under way, and
-- which was not closed before it was stored, is counted as active just if it was not closed, and just
-- then the store gives it for its connection.
pub run_steps-conn_store :
    (steps : List Step) (s : Tracker) (c : ℕ)
    → run_steps take_step steps new_tracker ≡ some s
    → c < s.next
    → s.under_way ≢ some c
    → (s.conns c).cut_short ≡ false
    → ((s.conns c).closing ≡ is_open) ⊎ ((s.conns c).closing ≡ finished)
    → (is_tracked c s.connections ≡ untouched (s.conns c).closing)
      × ((s.conn_store (s.conns c).ws ≡ some c) ↔ ((s.conns c).closing ≡ is_open))
run_steps-conn_store steps s c e l idle whole settled = by_closing settled
  where
    h : IsTracked s
    h =
        run_steps-always take_step IsTracked take_step-IsTracked steps new_tracker
          new_tracker-IsTracked s e

    is_in : is_stored (s.conns c).making ≡ true
    is_in = elim (Bool-cases (is_stored (s.conns c).making)) [
      | inl i ↦ i
      | inr i ↦ absurd (idle ((h.agrees c l).alone i))
    ]

    tracked : is_tracked c s.connections ≡ in_list (s.conns c).closing
    tracked =
        (h.agrees c l).in_connections whole
        ∙ stored_listed (s.conns c).making (s.conns c).closing is_in

    by_closing :
        ((s.conns c).closing ≡ is_open) ⊎ ((s.conns c).closing ≡ finished)
        → (is_tracked c s.connections ≡ untouched (s.conns c).closing)
          × ((s.conn_store (s.conns c).ws ≡ some c) ↔ ((s.conns c).closing ≡ is_open))
    by_closing (inl o) = (
      tracked ∙ ap in_list o ∙ sym (ap untouched o),
      (λ f. o, λ f. (h.agrees c l).in_store is_in (ap is_finished o)),
    )
    by_closing (inr o) = (
      tracked ∙ ap in_list o ∙ sym (ap untouched o),
      (
        λ f. elim (h.in_store (s.conns c).ws c f).3 [
          | inl y ↦ absurd (differ y whole)
          | inr y ↦ absurd (differ (ap is_finished o) y)
        ],
        λ f. absurd (differ (ap untouched f) (ap untouched o)),
      ),
    )

next_part :
    (s : Tracker) (c : ℕ) (m : Making)
    → s.under_way ≡ some c
    → (s.conns c).making ≡ m
    → take_step goes_on s ≡ make_on c s m
unfolding take_step
next_part s c m u e = ap (go_on s) u ∙ ap (make_on c s) e

-- `getOrCreateConn` on a new connection is what its steps do when nothing comes between.
pub get_or_create_conn-steps :
    (ws : ℕ) (s : Tracker)
    → s.under_way ≡ none
    → s.conn_store ws ≡ none
    → run_steps take_step (arrives ws ∷ goes_on ∷ goes_on ∷ goes_on ∷ []) s
      ≡ some (get_or_create_conn ws s).1
unfolding run_steps take_step get_or_create_conn
get_or_create_conn-steps ws s idle new =
    let c = s.next in
    let s₁ : Tracker = make_conn ws s in
    let s₂ : Tracker = track_conn c s₁ in
    let s₃ : Tracker = with_making has_callback c s₂ in
    ap (run_from (run_steps take_step (goes_on ∷ goes_on ∷ goes_on ∷ [])))
      (ap (look_up ws s) idle ∙ ap (λ o. some (or_make_conn ws s o)) new)
    ∙ ap (run_from (run_steps take_step (goes_on ∷ goes_on ∷ []))) (
        next_part s₁ c made refl
          (ap (λ (k : Conn). k.making) (put_at_self s.conns c (new_conn ws))))
    ∙ ap (run_from (run_steps take_step (goes_on ∷ []))) (
        next_part s₂ c added refl (
          ap (λ (k : Conn). k.making)
            (put_at_self s₁.conns c (record (s₁.conns c) { making = added }))))
    ∙ ap (run_from (run_steps take_step [])) (
        next_part s₃ c has_callback refl (
          ap (λ (k : Conn). k.making)
            (put_at_self s₂.conns c (record (s₂.conns c) { making = has_callback }))))
    ∙ ap (λ o. some (or_new_conn ws s o).1) (sym new)
