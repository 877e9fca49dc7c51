-- ===== src/Control/Stats.antt =====
-- What the maps of the control plane have under a key.
use hioload_ws.Prelude.{
  ◌++◌, ◌∙◌, ◌∷◌, ◌≡◌, ◌≢◌, Bool, Bool-cases, List, Option, [], ap, ap₂, arith, drop, false, get_or,
  if_cases, if◌then◌else◌, inl, inr, none, refl, some, subst, sym, true, ℕ,
}
use hioload_ws.Control.{
  Plane, copy_into, debug_prefix, dump_state, dump_values, get_snapshot, metrics_prefix, stats,
}
use hioload_ws.Session.Map.{
  Key, find, find-store_at, find-store_at_ne, same_key, same_key_refl, same_key→eq, store_at,
}

-- No key twice.
abbrev pub Unique : List (Key × ℕ) → Type 0
Unique [] = Unit {0}
Unique ((k, v) ∷ m) = (find m k ≡ none) × Unique m

abbrev pub or_else : Option ℕ → Option ℕ → Option ℕ
or_else none o = o
or_else (some v) o = some v

-- A prefix that is the same can be taken away.
append-cancel : (p k j : Key) → p ++ k ≡ p ++ j → k ≡ j
append-cancel [] k j e = e
append-cancel (c ∷ p) k j e = append-cancel p k j (ap (drop 1) e)

find-same : (m : List (Key × ℕ)) (k j : Key) → k ≡ j → find m k ≡ none → find m j ≡ none
find-same m k j e h = subst (λ z. find m z ≡ none) e h

Unique-store_at : (m : List (Key × ℕ)) (k : Key) (v : ℕ) → Unique m → Unique (store_at m k v)
Unique-store_at [] k v u = (refl, tt)
Unique-store_at ((k', v') ∷ m) k v u =
    if_cases Unique (same_key k' k) (λ e. (find-same m k' k (same_key→eq k' k e) u.0, u.1))
      (λ e. (
        find-store_at_ne m k k' v (λ d. absurd (grind (arith, e, same_key_refl k', d))) ∙ u.0,
        Unique-store_at m k v u.1,
      ))

Unique-copy_into : (p : Key) (m out : List (Key × ℕ)) → Unique out → Unique (copy_into p m out)
Unique-copy_into p [] out u = u
Unique-copy_into p ((k, v) ∷ m) out u =
    Unique-copy_into p m (store_at out (p ++ k) v) (Unique-store_at out (p ++ k) v u)

-- A key of the copy, with the prefix.
find-copy_into :
    (p : Key) (m out : List (Key × ℕ)) (k : Key)
    → Unique m
    → find (copy_into p m out) (p ++ k) ≡ or_else (find m k) (find out (p ++ k))
find-copy_into p [] out k u = refl
find-copy_into p ((k', v) ∷ m) out k u =
    find-copy_into p m (store_at out (p ++ k') v) k u.1 ∙ elim (Bool-cases (same_key k' k)) [
      | inl e ↦
          let same = same_key→eq k' k e in
          rw (e, find-same m k' k same u.0)
            (subst (λ z. find (store_at out (p ++ z) v) (p ++ k) ≡ some v) (sym same)
              (find-store_at out (p ++ k) v))
      | inr e ↦ rw e (
          ap (or_else (find m k)) (
            find-store_at_ne out (p ++ k') (p ++ k) v
              (λ d. absurd (clash k' k e (append-cancel p k' k d)))))
    ]
  where
    clash : (k' k : Key) → same_key k' k ≡ false → k' ≡ k → ⊥
    clash k' k e d = grind (arith, e, same_key_refl k, ap (λ z. same_key z k) d)

-- A key that no key of the copy is.
find-copy_into_ne :
    (p : Key) (m out : List (Key × ℕ)) (j : Key)
    → ((k : Key) → p ++ k ≢ j)
    → find (copy_into p m out) j ≡ find out j
find-copy_into_ne p [] out j ne = refl
find-copy_into_ne p ((k, v) ∷ m) out j ne =
    find-copy_into_ne p m (store_at out (p ++ k) v) j ne ∙ find-store_at_ne out (p ++ k) j v (ne k)

or_else-none : (o : Option ℕ) → or_else o none ≡ o
or_else-none none = refl
or_else-none (some v) = refl

find-get_snapshot : (m : List (Key × ℕ)) (k : Key) → Unique m → find (get_snapshot m) k ≡ find m k
find-get_snapshot m k u = find-copy_into [] m [] k u ∙ or_else-none (find m k)

abbrev pub probed : (ℕ → ℕ) → Option ℕ → Option ℕ
probed value_of none = none
probed value_of (some fn) = some (value_of fn)

find-dump_values :
    (value_of : ℕ → ℕ) (m : List (Key × ℕ)) (k : Key)
    → find (dump_values value_of m) k ≡ probed value_of (find m k)
find-dump_values value_of [] k = refl
find-dump_values value_of ((k', fn) ∷ m) k =
    ap (λ o. if same_key k' k then some (value_of fn) else o) (find-dump_values value_of m k)
    ∙ split (same_key k' k)
  where
    split :
        (b : Bool)
        → (if b then some (value_of fn) else probed value_of (find m k))
          ≡ probed value_of (if b then some fn else find m k)
    split true = refl
    split false = refl

Unique-dump_values :
    (value_of : ℕ → ℕ) (m : List (Key × ℕ)) → Unique m → Unique (dump_values value_of m)
Unique-dump_values value_of [] u = tt
Unique-dump_values value_of ((k, fn) ∷ m) u =
    (find-dump_values value_of m k ∙ ap (probed value_of) u.0, Unique-dump_values value_of m u.1)

find-dump_state :
    (value_of : ℕ → ℕ) (m : List (Key × ℕ)) (k : Key)
    → Unique m
    → find (dump_state value_of m) k ≡ probed value_of (find m k)
find-dump_state value_of m k u =
    find-copy_into [] (dump_values value_of m) [] k (Unique-dump_values value_of m u)
    ∙ or_else-none (find (dump_values value_of m) k)
    ∙ find-dump_values value_of m k

-- The two prefixes differ in their first byte.
debug-metrics : (k j : Key) → debug_prefix ++ k ≢ metrics_prefix ++ j
debug-metrics k j e = absurd (first (ap (λ z. get_or z 0 0) e))
  where
    first : ◌≡◌ {A = ℕ} b'd' b'm' → ⊥
    first e = omega (arith, e)

find-config :
    (cfg : List (Key × ℕ)) (k : Key)
    → Unique cfg
    → find (copy_into [] (get_snapshot cfg) []) k ≡ find cfg k
find-config cfg k u =
    find-copy_into [] (get_snapshot cfg) [] k (Unique-copy_into [] cfg [] tt)
    ∙ or_else-none (find (get_snapshot cfg) k)
    ∙ find-get_snapshot cfg k u

-- What `Stats` has, in maps without a key twice: under "debug." and a name what that probe returns, or
-- without such a probe what the configuration has under the whole; under "metrics." and a name the
-- metric or else what the configuration has; and under a key with neither prefix what the
-- configuration has.
pub find-stats :
    (value_of : ℕ → ℕ) (p : Plane) (k j : Key)
    → Unique p.config.config
    → Unique p.metrics
    → Unique p.debug
    → ((i : Key) → debug_prefix ++ i ≢ j)
    → ((i : Key) → metrics_prefix ++ i ≢ j)
    → (find (stats value_of p) (debug_prefix ++ k)
        ≡ or_else (probed value_of (find p.debug k)) (find p.config.config (debug_prefix ++ k)))
      × (find (stats value_of p) (metrics_prefix ++ k)
          ≡ or_else (find p.metrics k) (find p.config.config (metrics_prefix ++ k)))
      × (find (stats value_of p) j ≡ find p.config.config j)
unfolding stats
find-stats value_of p k j uc um ud nd nm =
    let cfg = copy_into [] (get_snapshot p.config.config) [] in
    let both = copy_into metrics_prefix (get_snapshot p.metrics) cfg in
    let dumped = dump_state value_of p.debug in
    let snap = Unique-copy_into [] p.metrics [] tt in
    let dump = Unique-copy_into [] (dump_values value_of p.debug) [] tt in
    (
      find-copy_into debug_prefix dumped both k dump
          ∙ ap₂ or_else (find-dump_state value_of p.debug k ud) (
              find-copy_into_ne metrics_prefix (get_snapshot p.metrics) cfg (debug_prefix ++ k)
                (λ i e. debug-metrics k i (sym e))
              ∙ find-config p.config.config (debug_prefix ++ k) uc),
      find-copy_into_ne debug_prefix dumped both (metrics_prefix ++ k) (λ i e. debug-metrics i k e)
          ∙ find-copy_into metrics_prefix (get_snapshot p.metrics) cfg k snap
          ∙ ap₂ or_else (find-get_snapshot p.metrics k um)
              (find-config p.config.config (metrics_prefix ++ k) uc),
      find-copy_into_ne debug_prefix dumped both j nd
          ∙ find-copy_into_ne metrics_prefix (get_snapshot p.metrics) cfg j nm
          ∙ find-config p.config.config j uc,
    )
