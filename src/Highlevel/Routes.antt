-- ===== src/Highlevel/Routes.antt =====
-- The route table of `Server` in highlevel/server.go: registration, groups, lookup and middleware. A
-- string is the list of its bytes. Package regexp is a parameter. Go maps are association lists; the
-- order of `patterns` and `route_patterns` is that in which a `range` visits them, which Go leaves
-- open.
pub mod Patterns
pub mod Groups
pub mod Lookup
pub mod Params
use hioload_ws.Prelude.{
  ◌&&◌, ◌++◌, ◌==◌, ◌||◌, ◌∷◌, Bool, List, Option, [], drop, false, get_elem?, if◌then◌else◌,
  length, ltb, none, not, some, suc, true, zero, ℕ,
}
use hioload_ws.Prelude.Text.{contains, ends_with, is_empty, join, split, starts_with}
use hioload_ws.Session.Map.{Key, find, same_key, store_at}

-- `Compile`, `FindStringSubmatch` and `String`
pub record RegexpPackage : Type 1 where
  pub Regexp : Type 0
  pub compile : Key → Option Regexp
  pub submatches : Regexp → Key → Option (List Key)
  pub text : Regexp → Key

-- `GET`, the only constant that the code itself compares with
abbrev pub method_get : Key
method_get = b'G' ∷ b'E' ∷ b'T' ∷ []

-- A handler function is a number.
pub record RouteHandler : Type 0 where
  pub handler : ℕ
  pub methods : List Key

-- `isMethodAllowed`
unfoldable pub is_method_allowed : Key → List Key → Bool
is_method_allowed method [] = same_key method method_get
is_method_allowed method (m ∷ ms) = is_listed_method method (m ∷ ms)
  where
    is_listed_method : Key → List Key → Bool
    is_listed_method method [] = false
    is_listed_method method (m ∷ ms) = same_key m method || is_listed_method method ms

-- `containsParam`
abbrev pub contains_param : Key → Bool
contains_param pattern = contains b':' pattern

-- The class of `containsRegex`.
abbrev pub meta_bytes : List ℕ
meta_bytes = b'*' ∷ b'+' ∷ b'?' ∷ b'[' ∷ b']' ∷ b'^' ∷ b'$' ∷ b'.' ∷ b'|' ∷ b'\\' ∷ b'(' ∷ b')' ∷ []

-- `containsRegex`
unfoldable pub contains_regex : Key → Bool
contains_regex [] = false
contains_regex (b ∷ bs) = contains b meta_bytes || contains_regex bs

-- `regexp.QuoteMeta`
unfoldable pub quote_meta : Key → Key
quote_meta [] = []
quote_meta (b ∷ bs) =
    let rest = quote_meta bs in
    if contains b meta_bytes || (b == b'{') || (b == b'}') then b'\\' ∷ b ∷ rest else b ∷ rest

-- `([^/]+)`
abbrev pub any_part : Key
any_part = b'(' ∷ b'[' ∷ b'^' ∷ b'/' ∷ b']' ∷ b'+' ∷ b')' ∷ []

-- The loop of `convertToRegex`; `many` tells that there are several parts.
abbrev pub convert_parts : Bool → List Key → List Key × List Key
convert_parts many [] = ([], [])
convert_parts many (part ∷ parts) =
    let (regex_parts, params) = convert_parts many parts in
    if starts_with b':' part
    then (any_part ∷ regex_parts, drop 1 part ∷ params)
    else if is_empty part && many
    then (regex_parts, params)
    else (quote_meta part ∷ regex_parts, params)

-- `convertToRegex`
unfoldable pub convert_to_regex : Key → Key × List Key
convert_to_regex pattern =
    let parts = split b'/' pattern in
    let (regex_parts, params) = convert_parts (ltb 1 (length parts)) parts in
    (join b'/' regex_parts, params)

-- `joinPrefix`
unfoldable pub join_prefix : Key → Key → Key
join_prefix prefix pattern =
    if is_empty prefix
    then pattern
    else if not (ends_with b'/' prefix) && not (starts_with b'/' pattern)
    then prefix ++ (b'/' ∷ pattern)
    else if ends_with b'/' prefix && starts_with b'/' pattern
    then prefix ++ drop 1 pattern
    else prefix ++ pattern

abbrev pub wrap_at : {H : Type 0} → H → Option (H → H) → H
wrap_at handler none = handler
wrap_at handler (some m) = m handler

-- `applyMiddleware`, the loop from index `i` - 1 down to 0.
abbrev pub wrap_from : {H : Type 0} → List (H → H) → ℕ → H → H
wrap_from ms zero handler = handler
wrap_from ms (suc i) handler = wrap_from ms i (wrap_at handler (get_elem? ms i))

unfoldable pub apply_middleware : {H : Type 0} → List (H → H) → H → H
apply_middleware ms handler = wrap_from ms (length ms) handler

abbrev pub anchored : Key → Key
anchored regex = b'^' ∷ (regex ++ (b'$' ∷ []))

abbrev pub names_by : Key → List Key → Option (List Key) → Option (List Key) → Option (List Key)
names_by k names rest none = rest
names_by k names rest (some ms) = some names

-- The params of the names, each with the submatch of its place.
abbrev pub zip_params : List Key → List Key → List (Key × Key)
zip_params [] ms = []
zip_params (name ∷ names) [] = []
zip_params (name ∷ names) (m ∷ ms) = (name, m) ∷ zip_params names ms

-- What `findHandler` returns: a panic, `(nil, nil)`, or a handler with params.
pub data Found : Type 0 where
  panics : Found
  not_found : Found
  found : RouteHandler → List (Key × Key) → Found

abbrev pub with_params : RouteHandler → List Key → Option (List Key) → Found
with_params h ms none = panics
with_params h ms (some names) = found h (zip_params names (drop 1 ms))

abbrev pub exact_or : Key → Found → Option RouteHandler → Found
exact_or method rest none = rest
exact_or method rest (some h) = if is_method_allowed method h.methods then found h [] else rest

module _ (pkg : RegexpPackage) where
  -- The fields of `Server` that routing uses; `patternMethods` is written and never read.
  pub record RouteTable : Type 0 where
    pub handlers : List (Key × RouteHandler)
    pub patterns : List (pkg.Regexp × RouteHandler)
    pub route_patterns : List (Key × List Key)

  abbrev pub new_route_table : RouteTable
  new_route_table = record { handlers = []; patterns = []; route_patterns = [] }

  -- The registration of a compiled pattern; `MustCompile` panics (`none`) on an error.
  abbrev pub add_pattern :
      RouteTable → RouteHandler → List (Key × List Key) → Option pkg.Regexp → Option RouteTable
  add_pattern t h names none = none
  add_pattern t h names (some re) =
      some (record t { patterns = t.patterns ++ ((re, h) ∷ []); route_patterns = names })

  -- `HandleFuncWithMethods`
  unfoldable pub handle_func_with_methods : RouteTable → Key → List Key → ℕ → Option RouteTable
  handle_func_with_methods t pattern methods handler =
      let h : RouteHandler = record { handler = handler; methods = methods } in
      let (regex, params) = convert_to_regex pattern in
      if contains_param pattern
      then add_pattern t h (store_at t.route_patterns regex params) (pkg.compile (anchored regex))
      else if not (contains_regex pattern)
      then some (record t { handlers = store_at t.handlers pattern h })
      else add_pattern t h t.route_patterns (pkg.compile pattern)

  -- The same on a group with a prefix.
  unfoldable pub group_handle_func : Key → RouteTable → Key → List Key → ℕ → Option RouteTable
  group_handle_func prefix t pattern methods handler =
      handle_func_with_methods t (join_prefix prefix pattern) methods handler

  abbrev pub names_if :
      Key → Key → List Key → Option (List Key) → Option pkg.Regexp → Option (List Key)
  names_if text k names rest none = none
  names_if text k names rest (some re) = names_by k names rest (pkg.submatches re text)

  -- The loop over `routePatterns`: the names under the first key that, quoted and anchored, matches
  -- the text of the pattern, and no names where none does. `none` is a panic of `MustCompile`.
  unfoldable pub param_names : Key → List (Key × List Key) → Option (List Key)
  param_names text [] = some []
  param_names text ((k, names) ∷ rest) =
      names_if text k names (param_names text rest) (pkg.compile (anchored (quote_meta k)))

  -- A pattern whose submatches are known; `rest` is the rest of the loop.
  abbrev pub try_pattern :
      RouteTable → Key → pkg.Regexp → RouteHandler → Found → Option (List Key) → Found
  try_pattern t method re h rest none = rest
  try_pattern t method re h rest (some ms) =
      if ltb 1 (length ms) && is_method_allowed method h.methods
      then with_params h ms (param_names (pkg.text re) t.route_patterns)
      else rest

  unfoldable pub try_patterns : RouteTable → Key → Key → List (pkg.Regexp × RouteHandler) → Found
  try_patterns t path method [] = not_found
  try_patterns t path method ((re, h) ∷ patterns) =
      try_pattern t method re h (try_patterns t path method patterns) (pkg.submatches re path)

  -- `findHandler`
  unfoldable pub find_handler : RouteTable → Key → Key → Found
  find_handler t path method =
      exact_or method (try_patterns t path method t.patterns) (find t.handlers path)
