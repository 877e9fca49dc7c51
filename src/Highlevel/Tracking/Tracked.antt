-- ===== src/Highlevel/Tracking/Tracked.antt =====
-- The two maps of connections agree, whatever is under way.
use hioload_ws.Prelude.{arith}
use hioload_ws.Prelude.{inr, refl}
use hioload_ws.Prelude.{==_iff}
use hioload_ws.Prelude.{subst, sym}
use hioload_ws.Prelude.{ap, inl}
use hioload_ws.Prelude.{Bool-cases, if_cases, ◌∙◌, ◌∙◌}
use hioload_ws.Prelude.{List, some, ◌==◌, ◌⊎◌, ◌⊎◌}
use hioload_ws.Highlevel.Tracking.{put_at}
use hioload_ws.Prelude.{Option, false, true, ◌≡◌, ◌≡◌}
use hioload_ws.Highlevel.Tracking.{is_stored}
use hioload_ws.Highlevel.Tracking.{Conn, is_tracked}
use hioload_ws.Prelude.{Bool, ◌<◌, ◌<◌}
use hioload_ws.Highlevel.Tracking.{Closing, Making, Tracker}
use hioload_ws.Prelude.{ℕ}
use hioload_ws.Highlevel.Tracking.{
  is_open, closing, removing, deleting, finished, made, added, has_callback, stored,
}

abbrev pub is_finished : Closing → Bool
is_finished is_open = false
is_finished closing = false
is_finished removing = false
is_finished deleting = false
is_finished finished = true

abbrev pub untouched : Closing → Bool
untouched is_open = true
untouched closing = false
untouched removing = false
untouched deleting = false
untouched finished = false

-- Whether `connections` has a `Conn` that was not cut short.
abbrev pub in_list : Closing → Bool
in_list is_open = true
in_list closing = true
in_list removing = true
in_list deleting = false
in_list finished = false

abbrev pub listed : Making → Closing → Bool
listed made p = false
listed added p = in_list p
listed has_callback p = in_list p
listed stored p = in_list p

-- One `Conn`, by whether it is tracked, what the store has at its connection, and what is under way.
pub record Agrees (d : ℕ) (k : Conn) (tracked : Bool) (found under_way : Option ℕ) : Type 0 where
  pub in_connections : k.cut_short ≡ false → tracked ≡ listed k.making k.closing
  pub in_store : is_stored k.making ≡ true → is_finished k.closing ≡ false → found ≡ some d
  pub alone : is_stored k.making ≡ false → under_way ≡ some d
  pub whole : k.cut_short ≡ false → untouched k.closing ≡ false → is_stored k.making ≡ true

-- What the store gives, and the `Conn` that is under way: all others of its connection are closed.
abbrev pub Stored : ℕ → (ℕ → Conn) → ℕ → ℕ → Type 0
Stored next conns ws d =
    (d < next)
    × ((conns d).ws ≡ ws)
    × (is_stored (conns d).making ≡ true)
    × (((conns d).cut_short ≡ true) ⊎ (is_finished (conns d).closing ≡ false))

abbrev pub Fresh : ℕ → (ℕ → Conn) → ℕ → Type 0
Fresh next conns e =
    (e < next)
    × (is_stored (conns e).making ≡ false)
    × ((d : ℕ)
        → d < next
        → (d == e) ≡ false
        → (conns d).ws ≡ (conns e).ws
        → is_finished (conns d).closing ≡ true)

pub record IsTracked (s : Tracker) : Type 0 where
  pub below : (d : ℕ) → is_tracked d s.connections ≡ true → d < s.next
  pub agrees :
      (d : ℕ)
      → d < s.next
      → Agrees d (s.conns d) (is_tracked d s.connections) (s.conn_store (s.conns d).ws) s.under_way
  pub in_store : (ws d : ℕ) → s.conn_store ws ≡ some d → Stored s.next s.conns ws d
  pub fresh : (e : ℕ) → s.under_way ≡ some e → Fresh s.next s.conns e

pub put_at_self {ℓ} : {V : Type ℓ} (f : ℕ → V) (k : ℕ) (v : V) → put_at f k v k ≡ v
put_at_self f k v = ground arith

pub put_at_ne {ℓ} :
    {V : Type ℓ} (f : ℕ → V) (k : ℕ) (v : V) (j : ℕ) → (j == k) ≡ false → put_at f k v j ≡ f j
put_at_ne f k v j e = rw e refl

-- A `Conn` changes, and keeps its connection.
module _ (s : Tracker) (h : IsTracked s) (c : ℕ) (lt : c < s.next) (k : Conn)
    (same_ws : k.ws ≡ (s.conns c).ws) where
  pub put_ws : (d : ℕ) → (put_at s.conns c k d).ws ≡ (s.conns d).ws
  put_ws d =
      if_cases (λ (z : Conn). z.ws ≡ (s.conns d).ws) (d == c)
        (λ y. same_ws ∙ ap (λ z. (s.conns z).ws) (sym ((==_iff d c).0 y))) (λ n. refl)

  pub put-Fresh :
      (is_stored (s.conns c).making ≡ false → is_stored k.making ≡ false)
      → (is_finished (s.conns c).closing ≡ true → is_finished k.closing ≡ true)
      → (e : ℕ) → s.under_way ≡ some e
      → Fresh s.next (put_at s.conns c k) e
  put-Fresh m f e u =
      let (l, n, o) = h.fresh e u in
      (
        l,
        if_cases (λ (z : Conn). is_stored z.making ≡ false) (e == c)
            (λ y. m (ap (λ z. is_stored (s.conns z).making) (sym ((==_iff e c).0 y)) ∙ n)) (λ y. n),
        λ d ld ne w.
            let done = o d ld ne (sym (put_ws d) ∙ w ∙ put_ws e) in
            if_cases (λ (z : Conn). is_finished z.closing ≡ true) (d == c)
              (λ y. f (ap (λ z. is_finished (s.conns z).closing) (sym ((==_iff d c).0 y)) ∙ done))
              (λ y. done),
      )

  pub put-IsTracked :
      (cs : List ℕ) (st : ℕ → Option ℕ) (u : Option ℕ)
      → Agrees c k (is_tracked c cs) (st (s.conns c).ws) u
      → ((d : ℕ) → (d == c) ≡ false → is_tracked d cs ≡ is_tracked d s.connections)
      → ((d : ℕ)
          → d < s.next
          → (d == c) ≡ false
          → is_stored (s.conns d).making ≡ true
          → is_finished (s.conns d).closing ≡ false
          → st (s.conns d).ws ≡ some d)
      → ((d : ℕ)
          → d < s.next
          → (d == c) ≡ false
          → is_stored (s.conns d).making ≡ false
          → u ≡ some d)
      → ((ws d : ℕ) → st ws ≡ some d → Stored s.next (put_at s.conns c k) ws d)
      → ((e : ℕ) → u ≡ some e → Fresh s.next (put_at s.conns c k) e)
      → IsTracked (record s {
        conns = put_at s.conns c k;
        connections = cs;
        conn_store = st;
        under_way = u;
      })
  put-IsTracked cs st u own cs_same st_others turn st_stored u_fresh = record {
    below = λ d t. elim (Bool-cases (d == c)) [
      | inl y ↦ subst (λ z. z < s.next) (sym ((==_iff d c).0 y)) lt
      | inr n ↦ h.below d (sym (cs_same d n) ∙ t)
    ];
    agrees = λ d l.
        subst (λ w. Agrees d (put_at s.conns c k d) (is_tracked d cs) (st w) u) (sym (put_ws d))
          (if_cases (λ (z : Conn). Agrees d z (is_tracked d cs) (st (s.conns d).ws) u) (d == c)
            (λ y.
              subst (λ z. Agrees z k (is_tracked z cs) (st (s.conns z).ws) u)
                (sym ((==_iff d c).0 y)) own)
            (λ n.
              let old = h.agrees d l in
              record {
                in_connections = λ e. cs_same d n ∙ old.in_connections e;
                in_store = st_others d l n;
                alone = turn d l n;
                whole = old.whole;
              }));
    in_store = st_stored;
    fresh = u_fresh;
  }

  -- The store stays as it is.
  pub put-Stored :
      (is_stored (s.conns c).making ≡ true
        → (is_stored k.making ≡ true)
          × (((s.conns c).cut_short ≡ true) ⊎ (is_finished (s.conns c).closing ≡ false)
              → (k.cut_short ≡ true) ⊎ (is_finished k.closing ≡ false)))
      → (ws d : ℕ) → s.conn_store ws ≡ some d
      → Stored s.next (put_at s.conns c k) ws d
  put-Stored m ws d e =
      let (l, w, i, o) = h.in_store ws d e in
      (
        l,
        put_ws d ∙ w,
        if_cases (λ (z : Conn). is_stored z.making ≡ true) (d == c)
            (λ y. (m (ap (λ z. is_stored (s.conns z).making) (sym ((==_iff d c).0 y)) ∙ i)).0)
            (λ y. i),
        if_cases (λ (z : Conn). (z.cut_short ≡ true) ⊎ (is_finished z.closing ≡ false)) (d == c)
            (λ y.
              let same = (==_iff d c).0 y in
              (m (ap (λ z. is_stored (s.conns z).making) (sym same) ∙ i)).1 (
                subst
                  (λ z. ((s.conns z).cut_short ≡ true) ⊎ (is_finished (s.conns z).closing ≡ false))
                  same o))
            (λ y. o),
      )
