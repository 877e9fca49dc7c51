-- ===== src/Highlevel/Tracking/Closes.antt =====
-- The steps of `Close` keep the maps in agreement.
use hioload_ws.Prelude.{arith}
use hioload_ws.Prelude.{arith}
use hioload_ws.Prelude.{arith}
use hioload_ws.Prelude.{arith}
use hioload_ws.Prelude.{arith}
use hioload_ws.Prelude.{arith}
use hioload_ws.Prelude.{arith}
use hioload_ws.Prelude.{arith}
use hioload_ws.Prelude.{==_iff, arith}
use hioload_ws.Prelude.{arith, inl}
use hioload_ws.Prelude.{Bool-cases, arith}
use hioload_ws.Prelude.{arith, some}
use hioload_ws.Prelude.{arith, none}
use hioload_ws.Highlevel.Tracking.Lists.{is_tracked-remove_connection}
use hioload_ws.Prelude.{arith}
use hioload_ws.Highlevel.Tracking.Tracked.{put-Fresh}
use hioload_ws.Prelude.{arith}
use hioload_ws.Highlevel.Tracking.{remove_connection}
use hioload_ws.Prelude.{arith, inr, ◌&&◌, ◌&&◌}
use hioload_ws.Highlevel.Tracking.Tracked.{put-Stored, put_at_ne}
use hioload_ws.Prelude.{arith, not}
use hioload_ws.Prelude.{arith, sym}
use hioload_ws.Highlevel.Tracking.Tracked.{put-IsTracked}
use hioload_ws.Prelude.{arith, ◌∙◌, ◌∙◌, ◌⊎◌, ◌⊎◌}
use hioload_ws.Highlevel.Tracking.Tracked.{untouched}
use hioload_ws.Prelude.{ap, arith, subst}
use hioload_ws.Highlevel.Tracking.{begin_close, close_on}
use hioload_ws.Highlevel.Tracking.Tracked.{is_finished}
use hioload_ws.Highlevel.Tracking.{is_tracked, put_at}
use hioload_ws.Prelude.{List, OnSome, arith, if◌then◌else◌}
use hioload_ws.Highlevel.Tracking.{Closing, load_callback, set_closed}
use hioload_ws.Highlevel.Tracking.Tracked.{Agrees, Stored}
use hioload_ws.Prelude.{arith}
use hioload_ws.Prelude.{arith, false, refl, true, ◌<◌, ◌<◌, ◌==◌}
use hioload_ws.Highlevel.Tracking.{Conn, is_stored}
use hioload_ws.Prelude.{◌≡◌, ◌≡◌}
use hioload_ws.Highlevel.Tracking.Tracked.{IsTracked, listed}
use hioload_ws.Prelude.{Bool, ℕ}
use hioload_ws.Highlevel.Tracking.{Making, Tracker}
use mathlib.Core.Option.{some-injective}
use hioload_ws.Highlevel.Tracking.{
  is_open, closing, removing, deleting, finished, made, added, has_callback, stored,
}

same_listed : (m : Making) → listed m closing ≡ listed m is_open
same_listed made = refl
same_listed added = refl
same_listed has_callback = refl
same_listed stored = refl

still_listed : (m : Making) → listed m removing ≡ listed m closing
still_listed made = refl
still_listed added = refl
still_listed has_callback = refl
still_listed stored = refl

pub not_listed : (m : Making) → listed m deleting ≡ false
not_listed made = refl
not_listed added = refl
not_listed has_callback = refl
not_listed stored = refl

never_listed : (m : Making) → listed m finished ≡ false
never_listed made = refl
never_listed added = refl
never_listed has_callback = refl
never_listed stored = refl

loaded : (m : Making) → is_stored m ≡ true → load_callback m ≡ removing
loaded stored e = refl
loaded made e = absurd (grind (arith, e))
loaded added e = absurd (grind (arith, e))
loaded has_callback e = absurd (grind (arith, e))

pub differ : {b : Bool} → b ≡ true → b ≡ false → ⊥
differ e f = grind (arith, e, f)

pub missing : {d : ℕ} → none ≡ some d → ⊥
missing g = grind (arith, g)

pub apart : {e : ℕ} (d : ℕ) → (d == e) ≡ false → d ≡ e → ⊥
apart d n g = ground (arith, n, g)

-- A `Conn` other than the one that changes.
pub Stored-ne :
    (next : ℕ) (conns : ℕ → Conn) (c : ℕ) (k : Conn) (ws d : ℕ)
    → (d == c) ≡ false
    → Stored next conns ws d
    → Stored next (put_at conns c k) ws d
Stored-ne next conns c k ws d n o =
    subst
      (λ (z : Conn).
        (d < next)
        × (z.ws ≡ ws)
        × (is_stored z.making ≡ true)
        × ((z.cut_short ≡ true) ⊎ (is_finished z.closing ≡ false)))
      (sym (put_at_ne conns c k d n)) o

module _ (s : Tracker) (h : IsTracked s) (c : ℕ) (lt : c < s.next) where
  abbrev own :
      Agrees c (s.conns c) (is_tracked c s.connections) (s.conn_store (s.conns c).ws) s.under_way
  own = h.agrees c lt

  -- A step of `Close` up to the deletion from the store.
  closed_more :
      (p : Closing) (cut : Bool) (cs : List ℕ)
      → is_finished (s.conns c).closing ≡ false
      → (is_stored (s.conns c).making ≡ true → is_finished p ≡ false)
      → ((d : ℕ) → (d == c) ≡ false → is_tracked d cs ≡ is_tracked d s.connections)
      → (cut ≡ false → is_tracked c cs ≡ listed (s.conns c).making p)
      → (cut ≡ false → untouched p ≡ false → is_stored (s.conns c).making ≡ true)
      → IsTracked (record s {
        conns = put_at s.conns c (record (s.conns c) { closing = p; cut_short = cut });
        connections = cs;
      })
  closed_more p cut cs old new same listed_c whole_c =
      put-IsTracked s h c lt (record (s.conns c) { closing = p; cut_short = cut }) refl cs
        s.conn_store s.under_way
        (record {
          in_connections = listed_c;
          in_store = λ i f. own.in_store i old;
          alone = own.alone;
          whole = whole_c;
        })
        same (λ d l n i f. (h.agrees d l).in_store i f) (λ d l n i. (h.agrees d l).alone i)
        (put-Stored s h c lt (record (s.conns c) { closing = p; cut_short = cut }) refl
          (λ i. (i, λ o. inr (new i))))
        (put-Fresh s h c lt (record (s.conns c) { closing = p; cut_short = cut }) refl (λ i. i)
          (λ f. absurd (differ f old)))

  pub set_closed-IsTracked : (s.conns c).closing ≡ is_open → IsTracked (set_closed c s)
  set_closed-IsTracked e =
      let m = (s.conns c).making in
      closed_more closing (if is_stored m then (s.conns c).cut_short else true) s.connections
        (ap is_finished e) (λ i. refl) (λ d n. refl)
        (λ f.
          own.in_connections (uncut (is_stored m) (s.conns c).cut_short f).1
          ∙ ap (listed m) e
          ∙ sym (same_listed m))
        (λ f u. (uncut (is_stored m) (s.conns c).cut_short f).0)
    where
      uncut : (b d : Bool) → (if b then d else true) ≡ false → (b ≡ true) × (d ≡ false)
      uncut true d f = (refl, f)
      uncut false d f = absurd (differ refl f)

  pub close_on-IsTracked :
      (p : Closing) → (s.conns c).closing ≡ p → OnSome IsTracked (close_on c s p)
  close_on-IsTracked is_open e = tt
  close_on-IsTracked closing e =
      let m = (s.conns c).making in
      closed_more (load_callback m) (s.conns c).cut_short s.connections (ap is_finished e)
        (λ i. ap is_finished (loaded m i)) (λ d n. refl)
        (λ f.
          own.in_connections f
          ∙ ap (listed m) e
          ∙ sym (still_listed m)
          ∙ ap (listed m) (sym (loaded m (own.whole f (ap untouched e)))))
        (λ f u. own.whole f (ap untouched e))
  close_on-IsTracked removing e =
      let m = (s.conns c).making in
      closed_more deleting (s.conns c).cut_short (remove_connection s.connections c)
        (ap is_finished e) (λ i. refl)
        (λ d n. is_tracked-remove_connection c d s.connections ∙ rw n refl)
        (λ f.
          is_tracked-remove_connection c c s.connections
          ∙ gone c (is_tracked c s.connections)
          ∙ sym (not_listed m))
        (λ f u. own.whole f (ap untouched e))
    where
      gone : (c : ℕ) (b : Bool) → (not (c == c) && b) ≡ false
      gone c b = ground arith
  close_on-IsTracked deleting e =
      let k : Conn = record (s.conns c) { closing = finished } in
      put-IsTracked s h c lt k refl s.connections (put_at s.conn_store (s.conns c).ws none)
        s.under_way
        (record {
          in_connections = λ f.
              own.in_connections f
              ∙ ap (listed (s.conns c).making) e
              ∙ not_listed (s.conns c).making
              ∙ sym (never_listed (s.conns c).making);
          in_store = λ i f. absurd (differ refl f);
          alone = own.alone;
          whole = λ f u. own.whole f (ap untouched e);
        })
        (λ d n. refl) keeps (λ d l n i. (h.agrees d l).alone i) stores
        (put-Fresh s h c lt k refl (λ i. i) (λ f. refl))
    where
      keeps :
          (d : ℕ)
          → d < s.next
          → (d == c) ≡ false
          → is_stored (s.conns d).making ≡ true
          → is_finished (s.conns d).closing ≡ false
          → put_at s.conn_store (s.conns c).ws none (s.conns d).ws ≡ some d
      keeps d l n i f = elim (Bool-cases ((s.conns d).ws == (s.conns c).ws)) [
        | inr other ↦
            put_at_ne s.conn_store (s.conns c).ws none (s.conns d).ws other
            ∙ (h.agrees d l).in_store i f
        | inl y ↦
            let at : (s.conns d).ws ≡ (s.conns c).ws = (==_iff (s.conns d).ws (s.conns c).ws).0 y in
            elim (Bool-cases (is_stored (s.conns c).making)) [
              | inl j ↦ absurd (
                  apart d n (
                    some-injective d c (
                      sym ((h.agrees d l).in_store i f)
                      ∙ ap s.conn_store at
                      ∙ own.in_store j (ap is_finished e))))
              | inr j ↦ absurd (differ ((h.fresh c (own.alone j)).2 d l n at) f)
            ]
      ]

      stores :
          (ws d : ℕ)
          → put_at s.conn_store (s.conns c).ws none ws ≡ some d
          → Stored s.next (put_at s.conns c (record (s.conns c) { closing = finished })) ws d
      stores ws d f = elim (Bool-cases (ws == (s.conns c).ws)) [
        | inl y ↦ absurd (missing (sym (ap (λ b. if b then none else s.conn_store ws) y) ∙ f))
        | inr other ↦
            let o =
              h.in_store ws d (sym (put_at_ne s.conn_store (s.conns c).ws none ws other) ∙ f) in
            elim (Bool-cases (d == c)) [
              | inl y ↦
                  absurd (apart ws other (sym o.1 ∙ ap (λ z. (s.conns z).ws) ((==_iff d c).0 y)))
              | inr n ↦
                  Stored-ne s.next s.conns c (record (s.conns c) { closing = finished }) ws d n o
            ]
      ]
  close_on-IsTracked finished e = tt

  pub begin_close-IsTracked :
      (m : Making) (p : Closing) → (s.conns c).closing ≡ p → OnSome IsTracked (begin_close c s m p)
  begin_close-IsTracked made p e = tt
  begin_close-IsTracked added is_open e = set_closed-IsTracked e
  begin_close-IsTracked added closing e = h
  begin_close-IsTracked added removing e = h
  begin_close-IsTracked added deleting e = h
  begin_close-IsTracked added finished e = h
  begin_close-IsTracked has_callback is_open e = set_closed-IsTracked e
  begin_close-IsTracked has_callback closing e = h
  begin_close-IsTracked has_callback removing e = h
  begin_close-IsTracked has_callback deleting e = h
  begin_close-IsTracked has_callback finished e = h
  begin_close-IsTracked stored is_open e = set_closed-IsTracked e
  begin_close-IsTracked stored closing e = h
  begin_close-IsTracked stored removing e = h
  begin_close-IsTracked stored deleting e = h
  begin_close-IsTracked stored finished e = h
