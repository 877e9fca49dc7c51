-- ===== src/Highlevel/Routes/Params.antt =====
-- The params of routes that are registered with parameters.
use hioload_ws.Prelude.{
  ◌&&◌, ◌||◌, ◌∙◌, ◌∷◌, ◌≡◌, ◌≢◌, All, All-append, Bool, List, Option, [], ap, arith, false,
  if_cases, if_lem, length, ltb, none, not, refl, some, subst, sym, true, ℕ,
}
use hioload_ws.Prelude.Text.{starts_with}
use hioload_ws.Highlevel.Routes.{
  Found, RegexpPackage, RouteHandler, RouteTable, add_pattern, anchored, contains_param,
  contains_regex, exact_or, find_handler, found, handle_func_with_methods, is_method_allowed,
  names_by, names_if, new_route_table, not_found, panics, param_names, quote_meta, try_pattern,
  try_patterns, with_params,
}
use hioload_ws.Highlevel.Routes.Patterns.{Unanchored, convert_to_regex-Unanchored}
use hioload_ws.Session.Map.{Key, find, same_key, store_at}

-- What the code relies on in package regexp: `String` gives the source text back, and a quoted and
-- anchored literal compiles, where what was quoted does, and matches no other text.
pub record IsRegexp (pkg : RegexpPackage) : Type 0 where
  pub text_of : (p : Key) (re : pkg.Regexp) → pkg.compile p ≡ some re → pkg.text re ≡ p
  pub literal_compiles :
      (k : Key) (re : pkg.Regexp)
      → pkg.compile (anchored k) ≡ some re
      → (re' : pkg.Regexp) × (pkg.compile (anchored (quote_meta k)) ≡ some re')
  pub literal_alone :
      (k text : Key) (re : pkg.Regexp)
      → pkg.compile (anchored (quote_meta k)) ≡ some re
      → k ≢ text
      → pkg.submatches re text ≡ none

module _ (pkg : RegexpPackage) where
  -- The tables that registrations of plain paths and of paths with parameters make.
  pub data Routes : RouteTable pkg → Type 0 where
    begins : Routes (new_route_table pkg)
    adds :
        {t t' : RouteTable pkg} (pattern : Key) (methods : List Key) (handler : ℕ)
        → (contains_param pattern || not (contains_regex pattern)) ≡ true
        → handle_func_with_methods pkg t pattern methods handler ≡ some t'
        → Routes t
        → Routes t'

  -- A key that `convertToRegex` wrote and that compiled.
  abbrev IsKey : Key → Type 0
  IsKey k = Unanchored k × ((re : pkg.Regexp) × (pkg.compile (anchored k) ≡ some re))

  record IsAnchored (t : RouteTable pkg) : Type 0 where
    texts :
        All (λ (p : pkg.Regexp × RouteHandler). starts_with b'^' (pkg.text p.0) ≡ true) t.patterns
    keys : All (λ (kn : Key × List Key). IsKey kn.0) t.route_patterns

  All-store_at :
      (P : Key → Type 0) (m : List (Key × List Key)) (k : Key) (v : List Key)
      → P k
      → All (λ (kv : Key × List Key). P kv.0) m
      → All (λ (kv : Key × List Key). P kv.0) (store_at m k v)
  All-store_at P [] k v h hs = (h, tt)
  All-store_at P ((k', v') ∷ m) k v h hs =
      if_lem (All (λ (kv : Key × List Key). P kv.0)) (same_key k' k) (h, hs.1)
        (hs.0, All-store_at P m k v h hs.1)

  abbrev IsAnchoredIf : Option (RouteTable pkg) → Type 0
  IsAnchoredIf none = Unit
  IsAnchoredIf (some t) = IsAnchored t

  module _ (known : IsRegexp pkg) where
    add_pattern-IsAnchored :
        (t : RouteTable pkg) (h : RouteHandler) (regex : Key) (params : List Key)
        (o : Option pkg.Regexp)
        → pkg.compile (anchored regex) ≡ o
        → Unanchored regex
        → IsAnchored t
        → IsAnchoredIf (add_pattern pkg t h (store_at t.route_patterns regex params) o)
    add_pattern-IsAnchored t h regex params none e u a = tt
    add_pattern-IsAnchored t h regex params (some re) e u a = record {
      texts =
          All-append (λ (p : pkg.Regexp × RouteHandler). starts_with b'^' (pkg.text p.0) ≡ true)
            t.patterns ((re, h) ∷ []) a.texts
            (ap (starts_with b'^') (known.text_of (anchored regex) re e), tt);
      keys = All-store_at IsKey t.route_patterns regex params (u, (re, e)) a.keys;
    }

    handle_func_with_methods-IsAnchored :
        (t : RouteTable pkg) (pattern : Key) (methods : List Key) (handler : ℕ)
        → (contains_param pattern || not (contains_regex pattern)) ≡ true
        → IsAnchored t
        → IsAnchoredIf (handle_func_with_methods pkg t pattern methods handler)
    unfolding handle_func_with_methods
    handle_func_with_methods-IsAnchored t pattern methods handler e a =
        if_cases IsAnchoredIf (contains_param pattern)
          (λ p. add_pattern-IsAnchored t _ _ _ _ refl (convert_to_regex-Unanchored pattern) a)
          (λ p.
            if_cases IsAnchoredIf (not (contains_regex pattern))
              (λ q. record { texts = a.texts; keys = a.keys }) (λ q. absurd (clash p q e)))
      where
        clash : {b c : Bool} → b ≡ false → c ≡ false → (b || c) ≡ true → ⊥
        clash p q e = grind (arith, p, q, e)

    Routes-IsAnchored : (t : RouteTable pkg) → Routes t → IsAnchored t
    Routes-IsAnchored t begins = record { texts = tt; keys = tt }
    Routes-IsAnchored t (adds {t = t₀} pattern methods handler e f r) =
        subst IsAnchoredIf f (
          handle_func_with_methods-IsAnchored t₀ pattern methods handler e (Routes-IsAnchored t₀ r))

    -- No key of the table is the text of one of its patterns.
    param_names-nil :
        (text : Key) (rs : List (Key × List Key))
        → starts_with b'^' text ≡ true
        → All (λ (kn : Key × List Key). IsKey kn.0) rs
        → param_names pkg text rs ≡ some []
    unfolding param_names
    param_names-nil text [] h hs = refl
    param_names-nil text ((k, names) ∷ rs) h hs =
        let (re, compiled) = known.literal_compiles k (hs.0).1.0 (hs.0).1.1 in
        ap (names_if pkg text k names (param_names pkg text rs)) compiled
        ∙ ap (names_by k names (param_names pkg text rs))
            (known.literal_alone k text re compiled (λ e. differ (hs.0).0 h e))
        ∙ param_names-nil text rs h hs.1
      where
        differ : Unanchored k → starts_with b'^' text ≡ true → k ≢ text
        differ u v e = grind (arith, ap (starts_with b'^') e)

    -- A handler comes without params.
    abbrev pub NoParams : Found → Type 0
    NoParams panics = ⊥
    NoParams not_found = Unit
    NoParams (found h params) = params ≡ []

    try_pattern-NoParams :
        (t : RouteTable pkg) (method : Key) (re : pkg.Regexp) (h : RouteHandler) (rest : Found)
        (o : Option (List Key))
        → param_names pkg (pkg.text re) t.route_patterns ≡ some []
        → NoParams rest
        → NoParams (try_pattern pkg t method re h rest o)
    try_pattern-NoParams t method re h rest none e r = r
    try_pattern-NoParams t method re h rest (some ms) e r =
        if_lem NoParams (ltb 1 (length ms) && is_method_allowed method h.methods)
          (subst NoParams (ap (with_params h ms) (sym e)) refl) r

    try_patterns-NoParams :
        (t : RouteTable pkg) (path method : Key) (patterns : List (pkg.Regexp × RouteHandler))
        → All (λ (kn : Key × List Key). IsKey kn.0) t.route_patterns
        → All (λ (p : pkg.Regexp × RouteHandler). starts_with b'^' (pkg.text p.0) ≡ true) patterns
        → NoParams (try_patterns pkg t path method patterns)
    unfolding try_patterns
    try_patterns-NoParams t path method [] ks hs = tt
    try_patterns-NoParams t path method ((re, h) ∷ patterns) ks hs =
        try_pattern-NoParams t method re h _ (pkg.submatches re path)
          (param_names-nil (pkg.text re) t.route_patterns hs.0 ks)
          (try_patterns-NoParams t path method patterns ks hs.1)

    exact_or-NoParams :
        (method : Key) (rest : Found) (o : Option RouteHandler)
        → NoParams rest
        → NoParams (exact_or method rest o)
    exact_or-NoParams method rest none r = r
    exact_or-NoParams method rest (some h) r =
        if_lem NoParams (is_method_allowed method h.methods) refl r

    -- After registrations of plain paths and of paths with parameters, under what package regexp
    -- documents, a lookup does not panic, and a handler that it finds comes with no params, also where
    -- its path has some.
    pub find_handler-NoParams :
        (t : RouteTable pkg) (path method : Key)
        → Routes t
        → NoParams (find_handler pkg t path method)
    unfolding find_handler
    find_handler-NoParams t path method r =
        let a = Routes-IsAnchored t r in
        exact_or-NoParams method _ (find t.handlers path)
          (try_patterns-NoParams t path method t.patterns a.keys a.texts)
