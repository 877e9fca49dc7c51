-- ===== src/Highlevel/Tracking/Made.antt =====
-- The steps of `getOrCreateConn` keep the maps in agreement.
use hioload_ws.Highlevel.Tracking.Closes.{apart}
use hioload_ws.Prelude.{if◌then◌else◌}
use hioload_ws.Highlevel.Tracking.Tracked.{Fresh, Stored}
use hioload_ws.Prelude.{ap, ◌⊎◌, ◌⊎◌}
use hioload_ws.Highlevel.Tracking.Tracked.{put-Fresh}
use hioload_ws.Highlevel.Tracking.Closes.{Stored-ne}
use hioload_ws.Highlevel.Tracking.Lists.{is_tracked-add_connection}
use hioload_ws.Highlevel.Tracking.{add_connection}
use hioload_ws.Highlevel.Tracking.Tracked.{put-Stored, put_at_self}
use hioload_ws.Prelude.{◌∙◌, ◌∙◌}
use hioload_ws.Highlevel.Tracking.{new_conn}
use hioload_ws.Highlevel.Tracking.Tracked.{put-IsTracked, put_at_ne}
use hioload_ws.Prelude.{◌||◌}
use hioload_ws.Highlevel.Tracking.Closes.{missing}
use hioload_ws.Prelude.{==_iff, Bool, inr, refl, subst}
use hioload_ws.Highlevel.Tracking.{Conn}
use hioload_ws.Highlevel.Tracking.{make_on}
use hioload_ws.Highlevel.Tracking.Tracked.{listed}
use hioload_ws.Prelude.{inl, sym}
use hioload_ws.Prelude.{Bool-cases, List, OnSome, arith, suc}
use hioload_ws.Highlevel.Tracking.Closes.{differ}
use hioload_ws.Highlevel.Tracking.{put_at}
use hioload_ws.Highlevel.Tracking.{Making, is_stored, is_tracked, make_conn, store_conn}
use hioload_ws.Highlevel.Tracking.Tracked.{Agrees, in_list, is_finished}
use hioload_ws.Prelude.{false, ◌<◌, ◌<◌, ◌==◌}
use hioload_ws.Prelude.{none, some, true}
use hioload_ws.Prelude.{ℕ, ◌≡◌}
use hioload_ws.Highlevel.Tracking.Tracked.{IsTracked, untouched}
use hioload_ws.Highlevel.Tracking.{Closing, Tracker}
use mathlib.Core.Option.{some-injective}
use hioload_ws.Highlevel.Tracking.{
  is_open, closing, removing, deleting, finished, made, added, has_callback, stored,
}

untouched-in_list : (p : Closing) → untouched p ≡ true → in_list p ≡ true
untouched-in_list is_open e = refl
untouched-in_list closing e = absurd (differ refl (sym e))
untouched-in_list removing e = absurd (differ refl (sym e))
untouched-in_list deleting e = absurd (differ refl (sym e))
untouched-in_list finished e = absurd (differ refl (sym e))

untouched_open : (p : Closing) → untouched p ≡ true → is_finished p ≡ false
untouched_open is_open e = refl
untouched_open closing e = refl
untouched_open removing e = refl
untouched_open deleting e = refl
untouched_open finished e = absurd (differ refl (sym e))

module _ (s : Tracker) (h : IsTracked s) (ws : ℕ) (idle : s.under_way ≡ none)
    (n : s.conn_store ws ≡ none) where
  before : (d : ℕ) → (d == s.next) ≡ false → d < suc s.next → d < s.next
  before d f l = ground (arith, f, l)

  old_at : (d : ℕ) → d < s.next → (d == s.next) ≡ false
  old_at d l = ground (arith, l)

  untracked : is_tracked s.next s.connections ≡ false
  untracked = elim (Bool-cases (is_tracked s.next s.connections)) [
    | inl t ↦ absurd (below_itself (h.below s.next t))
    | inr f ↦ f
  ]
    where
      below_itself : s.next < s.next → ⊥
      below_itself l = omega (arith, l)

  done_before : (d : ℕ) → d < s.next → (s.conns d).ws ≡ ws → is_finished (s.conns d).closing ≡ true
  done_before d l w = elim (Bool-cases (is_finished (s.conns d).closing)) [
    | inl f ↦ f
    | inr f ↦ elim (Bool-cases (is_stored (s.conns d).making)) [
      | inl i ↦ absurd (missing (sym n ∙ ap s.conn_store (sym w) ∙ (h.agrees d l).in_store i f))
      | inr i ↦ absurd (missing (sym idle ∙ (h.agrees d l).alone i))
    ]
  ]

  pub make_conn-IsTracked : IsTracked (make_conn ws s)
  make_conn-IsTracked = record {
    below = λ d t. let l = h.below d t in omega (arith, l);
    agrees = λ d l. elim (Bool-cases (d == s.next)) [
      | inl y ↦
          subst
            (λ z.
              Agrees z (put_at s.conns s.next (new_conn ws) z) (is_tracked z s.connections)
                (s.conn_store (put_at s.conns s.next (new_conn ws) z).ws) (some s.next))
            (sym ((==_iff d s.next).0 y))
            (subst
              (λ (k : Conn).
                Agrees s.next k (is_tracked s.next s.connections) (s.conn_store k.ws) (some s.next))
              (sym (put_at_self s.conns s.next (new_conn ws)))
              (record {
                in_connections = λ f. untracked;
                in_store = λ i f. absurd (differ refl (sym i));
                alone = λ i. refl;
                whole = λ f u. absurd (differ refl u);
              }))
      | inr f ↦
          let old = h.agrees d (before d f l) in
          subst
            (λ (k : Conn).
              Agrees d k (is_tracked d s.connections) (s.conn_store k.ws) (some s.next))
            (sym (put_at_ne s.conns s.next (new_conn ws) d f))
            (record {
              in_connections = old.in_connections;
              in_store = old.in_store;
              alone = λ i. absurd (missing (sym idle ∙ old.alone i));
              whole = old.whole;
            })
    ];
    in_store = λ w d e.
        let o = h.in_store w d e in
        let kept = Stored-ne s.next s.conns s.next (new_conn ws) w d (old_at d o.0) o in
        (omega (arith, kept.0), kept.1, kept.2, kept.3);
    fresh = λ e u.
        subst (Fresh (suc s.next) (put_at s.conns s.next (new_conn ws))) (some-injective s.next e u)
          (
            omega arith,
            ap (λ (k : Conn). is_stored k.making) (put_at_self s.conns s.next (new_conn ws)),
            λ d l f w.
                let l' = before d f l in
                let here = put_at_ne s.conns s.next (new_conn ws) d f in
                ap (λ (k : Conn). is_finished k.closing) here
                ∙ done_before d l' (
                    ap (λ (k : Conn). k.ws) (sym here)
                    ∙ w
                    ∙ ap (λ (k : Conn). k.ws) (put_at_self s.conns s.next (new_conn ws))),
          );
  }

module _ (s : Tracker) (h : IsTracked s) (c : ℕ) (going : s.under_way ≡ some c) where
  lt : c < s.next
  lt = (h.fresh c going).0

  unstored : is_stored (s.conns c).making ≡ false
  unstored = (h.fresh c going).1

  abbrev own :
      Agrees c (s.conns c) (is_tracked c s.connections) (s.conn_store (s.conns c).ws) s.under_way
  own = h.agrees c lt

  -- A part before the last.
  made_more :
      (m : Making) (cs : List ℕ)
      → is_stored m ≡ false
      → ((d : ℕ) → (d == c) ≡ false → is_tracked d cs ≡ is_tracked d s.connections)
      → ((s.conns c).cut_short ≡ false → is_tracked c cs ≡ listed m (s.conns c).closing)
      → IsTracked (record s {
        conns = put_at s.conns c (record (s.conns c) { making = m });
        connections = cs;
      })
  made_more m cs not_yet same listed_c =
      let k : Conn = record (s.conns c) { making = m } in
      put-IsTracked s h c lt k refl cs s.conn_store s.under_way
        (record {
          in_connections = listed_c;
          in_store = λ i f. absurd (differ i not_yet);
          alone = λ i. going;
          whole = λ f u. absurd (differ (own.whole f u) unstored);
        })
        same (λ d l n i f. (h.agrees d l).in_store i f) (λ d l n i. (h.agrees d l).alone i)
        (put-Stored s h c lt k refl (λ i. absurd (differ i unstored)))
        (put-Fresh s h c lt k refl (λ i. not_yet) (λ f. f))

  -- One that is not cut short is open.
  open_still : (s.conns c).cut_short ≡ false → untouched (s.conns c).closing ≡ true
  open_still f = elim (Bool-cases (untouched (s.conns c).closing)) [
    | inl u ↦ u
    | inr u ↦ absurd (differ (own.whole f u) unstored)
  ]

  store_conn-IsTracked : (s.conns c).making ≡ has_callback → IsTracked (store_conn c s)
  store_conn-IsTracked e =
      let k : Conn = record (s.conns c) { making = stored } in
      put-IsTracked s h c lt k refl s.connections (put_at s.conn_store (s.conns c).ws (some c)) none
        (record {
          in_connections = λ f. own.in_connections f ∙ ap (λ m. listed m (s.conns c).closing) e;
          in_store = λ i f. put_at_self s.conn_store (s.conns c).ws (some c);
          alone = λ i. absurd (differ refl i);
          whole = λ f u. refl;
        })
        (λ d n. refl) keeps
        (λ d l n i. absurd (apart d n (some-injective d c (sym ((h.agrees d l).alone i) ∙ going))))
        stores (λ d u. absurd (missing u))
    where
      keeps :
          (d : ℕ)
          → d < s.next
          → (d == c) ≡ false
          → is_stored (s.conns d).making ≡ true
          → is_finished (s.conns d).closing ≡ false
          → put_at s.conn_store (s.conns c).ws (some c) (s.conns d).ws ≡ some d
      keeps d l n i f = elim (Bool-cases ((s.conns d).ws == (s.conns c).ws)) [
        | inl y ↦
            absurd
              (differ ((h.fresh c going).2 d l n ((==_iff (s.conns d).ws (s.conns c).ws).0 y)) f)
        | inr other ↦
            put_at_ne s.conn_store (s.conns c).ws (some c) (s.conns d).ws other
            ∙ (h.agrees d l).in_store i f
      ]

      whole_or_cut : ((s.conns c).cut_short ≡ true) ⊎ (is_finished (s.conns c).closing ≡ false)
      whole_or_cut = elim (Bool-cases (s.conns c).cut_short) [
        | inl y ↦ inl y
        | inr f ↦ inr (untouched_open (s.conns c).closing (open_still f))
      ]

      stores :
          (ws d : ℕ)
          → put_at s.conn_store (s.conns c).ws (some c) ws ≡ some d
          → Stored s.next (put_at s.conns c (record (s.conns c) { making = stored })) ws d
      stores ws d f =
          let k : Conn = record (s.conns c) { making = stored } in
          elim (Bool-cases (ws == (s.conns c).ws)) [
            | inl y ↦
                subst (Stored s.next (put_at s.conns c k) ws)
                  (some-injective c d (sym (ap (λ b. if b then some c else s.conn_store ws) y) ∙ f))
                  (subst
                    (λ (z : Conn).
                      (c < s.next)
                      × (z.ws ≡ ws)
                      × (is_stored z.making ≡ true)
                      × ((z.cut_short ≡ true) ⊎ (is_finished z.closing ≡ false)))
                    (sym (put_at_self s.conns c k))
                    (lt, sym ((==_iff ws (s.conns c).ws).0 y), refl, whole_or_cut))
            | inr other ↦
                let o =
                  h.in_store ws d
                    (sym (put_at_ne s.conn_store (s.conns c).ws (some c) ws other) ∙ f) in
                elim (Bool-cases (d == c)) [
                  | inl y ↦ absurd (
                      differ (ap (λ z. is_stored (s.conns z).making) (sym ((==_iff d c).0 y)) ∙ o.2)
                        unstored)
                  | inr n ↦ Stored-ne s.next s.conns c k ws d n o
                ]
          ]

  pub make_on-IsTracked : (m : Making) → (s.conns c).making ≡ m → OnSome IsTracked (make_on c s m)
  make_on-IsTracked made e =
      made_more added (add_connection s.connections c) refl
        (λ d n. is_tracked-add_connection c d s.connections ∙ rw n refl)
        (λ f.
          is_tracked-add_connection c c s.connections
          ∙ there c (is_tracked c s.connections)
          ∙ sym (untouched-in_list (s.conns c).closing (open_still f)))
    where
      there : (c : ℕ) (b : Bool) → ((c == c) || b) ≡ true
      there c b = ground arith
  make_on-IsTracked added e =
      made_more has_callback s.connections refl (λ d n. refl)
        (λ f. own.in_connections f ∙ ap (λ m. listed m (s.conns c).closing) e)
  make_on-IsTracked has_callback e = store_conn-IsTracked e
  make_on-IsTracked stored e = tt
