-- ===== src/Highlevel/Examples.antt =====
-- Runs of the high-level server and its connections.
use mathlib.Core.Option.{some-injective}
use hioload_ws.Prelude.{
  ◌&&◌, ◌++◌, ◌∙◌, ◌∷◌, ◌≡◌, List, Option, [], ap, arith, drop, false, if◌then◌else◌, none, not,
  refl, some, sym, true,
}
use hioload_ws.Prelude.Int.{pos}
use hioload_ws.Prelude.Text.{contains, starts_with}
use hioload_ws.Api.Buffer.{Buffer}
use hioload_ws.Highlevel.Routes.{
  RegexpPackage, RouteHandler, RouteTable, anchored, any_part, contains_regex, convert_to_regex,
  find_handler, found, handle_func_with_methods, is_method_allowed, method_get, new_route_table,
  param_names, quote_meta, try_patterns,
}
use hioload_ws.Highlevel.Routes.Params.{IsRegexp, Routes, adds, begins}
use hioload_ws.Highlevel.Serve.{Message}
use hioload_ws.Session.Map.{Key, ne→same_key, same_key}

-- A package regexp that knows one regular expression, that of one path part.
abbrev one_part : Key
one_part = anchored any_part

abbrev submatches_one : Key → Key → Option (List Key)
submatches_one re text =
    if same_key re one_part && not (contains b'/' text) then some (text ∷ text ∷ []) else none

abbrev one_regexp : RegexpPackage
one_regexp = record { Regexp = Key; compile = some; submatches = submatches_one; text = λ re. re }

starts-quote_meta : (k : Key) → starts_with b'(' (quote_meta k) ≡ false
unfolding quote_meta
starts-quote_meta [] = refl
starts-quote_meta (b ∷ bs) = ground arith

not-one_part : (k : Key) → same_key (anchored (quote_meta k)) one_part ≡ false
not-one_part k = ne→same_key (anchored (quote_meta k)) one_part (λ e. differ k (ap (drop 1) e))
  where
    differ : (k : Key) → quote_meta k ++ (b'$' ∷ []) ≡ any_part ++ (b'$' ∷ []) → ⊥
    differ k e = clash (quote_meta k) (starts-quote_meta k) (ap (starts_with b'(') e)
      where
        clash :
            (q : Key) → starts_with b'(' q ≡ false → starts_with b'(' (q ++ (b'$' ∷ [])) ≡ true → ⊥
        clash [] u v = grind (arith, v)
        clash (c ∷ q) u v = grind (arith, u, v)

one_regexp-IsRegexp : IsRegexp one_regexp
one_regexp-IsRegexp = record {
  text_of = λ p re e. sym (some-injective _ _ e);
  literal_compiles = λ k re e. (anchored (quote_meta k), refl);
  literal_alone = λ k text re e ne. unmatched k text re (some-injective _ _ e);
}
  where
    unmatched : (k text re : Key) → anchored (quote_meta k) ≡ re → submatches_one re text ≡ none
    unmatched k text re e = ap (λ r. submatches_one r text) (sym e) ∙ rw (not-one_part k) refl

abbrev empty : RouteTable one_regexp
empty = new_route_table one_regexp

-- One route with a parameter.
abbrev id_route : RouteHandler
id_route = record { handler = 7; methods = method_get ∷ [] }

abbrev id_table : RouteTable one_regexp
id_table = record {
  handlers = [];
  patterns = (one_part, id_route) ∷ [];
  route_patterns = (any_part, (b'i' ∷ b'd' ∷ []) ∷ []) ∷ [];
}

id_table-Routes : Routes one_regexp id_table
unfolding handle_func_with_methods contains_regex convert_to_regex
id_table-Routes = adds (b':' ∷ b'i' ∷ b'd' ∷ []) (method_get ∷ []) 7 refl refl begins

id_found : find_handler one_regexp id_table (b'5' ∷ []) method_get ≡ found id_route []
unfolding find_handler try_patterns is_method_allowed param_names quote_meta
id_found = refl

-- "/chat"
abbrev chat : Key
chat = b'/' ∷ b'c' ∷ b'h' ∷ b'a' ∷ b't' ∷ []

abbrev ping : Buffer
ping = record { bytes = some (1 ∷ []); numa = pos 0; pool = true; class_size = pos 2048 }

abbrev id_message : Message
id_message = record { buffer = ping; connection = some (5, b'5' ∷ []) }

abbrev chat_table : RouteTable one_regexp
chat_table = record id_table { handlers = (chat, record { handler = 3; methods = [] }) ∷ [] }
