-- ===== src/Highlevel/Routes/Lookup.antt =====
-- What `findHandler` finds.
use hioload_ws.Prelude.{
  ◌&&◌, ◌∙◌, ◌∷◌, ◌≡◌, List, Option, [], ap, arith, false, if_cases, length, ltb, none, refl, some,
  true, ℕ,
}
use hioload_ws.Highlevel.Routes.{
  Found, RegexpPackage, RouteHandler, RouteTable, contains_param, contains_regex, exact_or,
  find_handler, found, handle_func_with_methods, is_method_allowed, not_found, panics, try_pattern,
  try_patterns, with_params,
}
use hioload_ws.Session.Map.{Key, find, find-store_at, store_at}

module _ (pkg : RegexpPackage) where
  exact_or-found :
      (t : RouteTable pkg) (path method : Key) (h : RouteHandler)
      → find t.handlers path ≡ some h
      → is_method_allowed method h.methods ≡ true
      → find_handler pkg t path method ≡ found h []
  unfolding find_handler
  exact_or-found t path method h e allowed =
      ap (exact_or method (try_patterns pkg t path method t.patterns)) e ∙ rw allowed refl

  -- A pattern without parameters and special characters is registered for its path alone: each of its
  -- methods then finds its handler there, whatever was registered before.
  pub find_handler-handle_func :
      (t : RouteTable pkg) (pattern method : Key) (methods : List Key) (handler : ℕ)
      → contains_param pattern ≡ false
      → contains_regex pattern ≡ false
      → is_method_allowed method methods ≡ true
      → (t' : RouteTable pkg) × (handle_func_with_methods pkg t pattern methods handler ≡ some t')
        × (find_handler pkg t' pattern method
            ≡ found (record { handler = handler; methods = methods }) [])
  unfolding handle_func_with_methods
  find_handler-handle_func t pattern method methods handler plain literal allowed =
      let h : RouteHandler = record { handler = handler; methods = methods } in
      let t' : RouteTable pkg = record t { handlers = store_at t.handlers pattern h } in
      (
        t',
        rw (plain, literal) refl,
        exact_or-found t' pattern method h (find-store_at t.handlers pattern h) allowed,
      )

  -- A handler that is found allows the method.
  abbrev pub Allows : Key → Found → Type 0
  Allows method panics = Unit
  Allows method not_found = Unit
  Allows method (found h params) = is_method_allowed method h.methods ≡ true

  with_params-Allows :
      (method : Key) (h : RouteHandler) (ms : List Key) (o : Option (List Key))
      → is_method_allowed method h.methods ≡ true
      → Allows method (with_params h ms o)
  with_params-Allows method h ms none e = tt
  with_params-Allows method h ms (some names) e = e

  try_pattern-Allows :
      (t : RouteTable pkg) (method : Key) (re : pkg.Regexp) (h : RouteHandler) (rest : Found)
      (o : Option (List Key))
      → Allows method rest
      → Allows method (try_pattern pkg t method re h rest o)
  try_pattern-Allows t method re h rest none r = r
  try_pattern-Allows t method re h rest (some ms) r =
      if_cases (Allows method) (ltb 1 (length ms) && is_method_allowed method h.methods)
        (λ e. with_params-Allows method h ms _ (ground arith)) (λ e. r)

  try_patterns-Allows :
      (t : RouteTable pkg) (path method : Key) (patterns : List (pkg.Regexp × RouteHandler))
      → Allows method (try_patterns pkg t path method patterns)
  unfolding try_patterns
  try_patterns-Allows t path method [] = tt
  try_patterns-Allows t path method ((re, h) ∷ patterns) =
      try_pattern-Allows t method re h _ (pkg.submatches re path)
        (try_patterns-Allows t path method patterns)

  exact_or-Allows :
      (method : Key) (rest : Found) (o : Option RouteHandler)
      → Allows method rest
      → Allows method (exact_or method rest o)
  exact_or-Allows method rest none r = r
  exact_or-Allows method rest (some h) r =
      if_cases (Allows method) (is_method_allowed method h.methods) (λ e. e) (λ e. r)

  -- In every table, a handler that is found for a method allows it.
  pub find_handler-Allows :
      (t : RouteTable pkg) (path method : Key) → Allows method (find_handler pkg t path method)
  unfolding find_handler
  find_handler-Allows t path method =
      exact_or-Allows method _ (find t.handlers path) (try_patterns-Allows t path method t.patterns)
