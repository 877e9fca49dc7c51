-- ===== src/Highlevel/Methods.antt =====
-- Registration by method name, on the server and on a group, and the middleware list: GET to TRACE,
-- `HandleFunc`, `Group` and `Use` of highlevel/server.go. A group is its prefix, the server's table
-- is passed beside it.
use hioload_ws.Prelude.{◌++◌, ◌∙◌, ◌∷◌, ◌≡◌, ◌≢◌, List, Option, [], ap, false, refl, some, ℕ}
use hioload_ws.Highlevel.Routes.{
  RegexpPackage, RouteHandler, RouteTable, contains_param, contains_regex, exact_or, find_handler,
  handle_func_with_methods, is_method_allowed, join_prefix, method_get, not_found, try_patterns,
}
use hioload_ws.Highlevel.Routes.Groups.{join_prefix_assoc}
use hioload_ws.Session.Map.{Key, find-store_at, same_key, store_at}

pub data HttpMethod : Type 0 where
  get post put patch delete head options trace : HttpMethod

-- The values of the constants.
abbrev pub method_name : HttpMethod → Key
method_name get = method_get
method_name post = b'P' ∷ b'O' ∷ b'S' ∷ b'T' ∷ []
method_name put = b'P' ∷ b'U' ∷ b'T' ∷ []
method_name patch = b'P' ∷ b'A' ∷ b'T' ∷ b'C' ∷ b'H' ∷ []
method_name delete = b'D' ∷ b'E' ∷ b'L' ∷ b'E' ∷ b'T' ∷ b'E' ∷ []
method_name head = b'H' ∷ b'E' ∷ b'A' ∷ b'D' ∷ []
method_name options = b'O' ∷ b'P' ∷ b'T' ∷ b'I' ∷ b'O' ∷ b'N' ∷ b'S' ∷ []
method_name trace = b'T' ∷ b'R' ∷ b'A' ∷ b'C' ∷ b'E' ∷ []

-- `Group` of a server, and of a group.
abbrev pub server_group : Key → Key
server_group prefix = prefix

unfoldable pub nested_group : Key → Key → Key
nested_group g prefix = join_prefix g prefix

-- `Use` of a server, and of a group.
abbrev pub add_middleware : {H : Type 0} → List (H → H) → List (H → H) → List (H → H)
add_middleware chain more = chain ++ more

module _ (pkg : RegexpPackage) where
  -- `GET` to `TRACE`, by the method that each names.
  unfoldable pub handle_method : HttpMethod → RouteTable pkg → Key → ℕ → Option (RouteTable pkg)
  handle_method m t pattern handler =
      handle_func_with_methods pkg t pattern (method_name m ∷ []) handler

  -- `HandleFunc`
  abbrev pub handle_func : RouteTable pkg → Key → ℕ → Option (RouteTable pkg)
  handle_func t pattern handler = handle_func_with_methods pkg t pattern (method_get ∷ []) handler

  -- `GET` to `TRACE` of a group.
  unfoldable pub group_handle_method :
      HttpMethod → Key → RouteTable pkg → Key → ℕ → Option (RouteTable pkg)
  group_handle_method m g t pattern handler =
      handle_func_with_methods pkg t (join_prefix g pattern) (method_name m ∷ []) handler

  -- A route of a nested group is the route of the outer group under the path that the inner prefix
  -- gives the pattern, for every method.
  pub group_handle_method-nested_group :
      (m : HttpMethod) (outer inner : Key) (t : RouteTable pkg) (pattern : Key) (handler : ℕ)
      → group_handle_method m (nested_group outer inner) t pattern handler
        ≡ group_handle_method m outer t (join_prefix inner pattern) handler
  unfolding group_handle_method nested_group
  group_handle_method-nested_group m outer inner t pattern handler =
      ap (λ p. handle_func_with_methods pkg t p (method_name m ∷ []) handler)
        (join_prefix_assoc outer inner pattern)

  not_get : (m : HttpMethod) → m ≢ get → same_key (method_name m) method_get ≡ false
  not_get get ne = absurd (ne refl)
  not_get post ne = refl
  not_get put ne = refl
  not_get patch ne = refl
  not_get delete ne = refl
  not_get head ne = refl
  not_get options ne = refl
  not_get trace ne = refl

  -- In a table of plain paths, a plain path that is registered by POST, PUT, PATCH, DELETE, HEAD,
  -- OPTIONS or TRACE has no handler for GET, the one method that the server looks up.
  pub find_handler-handle_method :
      (m : HttpMethod) (t : RouteTable pkg) (pattern : Key) (handler : ℕ)
      → m ≢ get
      → t.patterns ≡ []
      → contains_param pattern ≡ false
      → contains_regex pattern ≡ false
      → (t' : RouteTable pkg) × (handle_method m t pattern handler ≡ some t')
        × (find_handler pkg t' pattern method_get ≡ not_found)
  unfolding handle_method handle_func_with_methods find_handler is_method_allowed try_patterns
  find_handler-handle_method m t pattern handler ne no_patterns plain literal =
      let h : RouteHandler = record { handler = handler; methods = method_name m ∷ [] } in
      let t' : RouteTable pkg = record t { handlers = store_at t.handlers pattern h } in
      (
        t',
        rw (plain, literal) refl,
        ap (exact_or method_get (try_patterns pkg t' pattern method_get t.patterns))
              (find-store_at t.handlers pattern h)
            ∙ rw (not_get m ne) (ap (try_patterns pkg t' pattern method_get) no_patterns),
      )
