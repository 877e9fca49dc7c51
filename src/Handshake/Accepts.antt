-- ===== src/Handshake/Accepts.antt =====
-- Which requests a server accepts.
use hioload_ws.Prelude.{
  ◌+◌, ◌||◌, ◌↔◌, ◌∙◌, ◌∷◌, ◌≡◌, ◌≢◌, ◌≤◌, All, Bool, Bool-cases, List, [], ap, arith, false,
  if◌then◌else◌, inl, inr, ltb, none, not, refl, some, sym, true, ℕ,
}
use hioload_ws.Prelude.Text.{is_empty}
use hioload_ws.Handshake.{
  HandshakeError, Header, Packages, Request, accepted, add_headers, check_request, check_size,
  do_handshake_core_buffered, get_header, header_connection, header_contains_token,
  header_sec_websocket_key, header_sec_websocket_ver, header_upgrade, max_handshake_headers_size,
  refused, required_websocket_version, response_header, websocket,
}
use hioload_ws.Handshake.Size.{HasValues, add_headers-header_size, header_size}
use hioload_ws.Session.Map.{Key, same_key, same_key→eq}

-- The conditions of RFC 6455 that the server checks, and the size.
pub record IsUpgrade (pkg : Packages) (req : Request) : Type 0 where
  pub small : header_size req.header ≤ max_handshake_headers_size
  pub connection_upgrade :
      header_contains_token pkg req.header header_connection header_upgrade ≡ true
  pub upgrade_websocket : header_contains_token pkg req.header header_upgrade websocket ≡ true
  pub version : get_header req.header header_sec_websocket_ver ≡ required_websocket_version
  pub has_key : get_header req.header header_sec_websocket_key ≢ []

is_empty-nil : (bs : Key) → is_empty bs ≡ false → bs ≢ []
is_empty-nil [] e = grind (arith, e)
is_empty-nil (b ∷ bs) e = λ f. grind (arith, f)

nil-is_empty : (bs : Key) → bs ≢ [] → is_empty bs ≡ false
nil-is_empty [] n = absurd (n refl)
nil-is_empty (b ∷ bs) n = refl

module _ (pkg : Packages) where
  abbrev pub Answer : Type 0
  Answer = Header × Key × List ℕ

  abbrev pub answer_of : Request → List ℕ → Answer
  answer_of req rest =
      (response_header pkg (get_header req.header header_sec_websocket_key), req.path, rest)

  refused-accepted : {e : HandshakeError} {x : Answer} → refused e ≡ accepted x → ⊥
  refused-accepted f = grind (arith, f)

  -- The checks in their order, as one condition.
  chain :
      (a b c d : Bool) (e₁ e₂ e₃ : HandshakeError) (x y : Answer)
      → (if not a || not b
          then refused e₁
          else if not c
          then refused e₂
          else if d
          then refused e₃
          else accepted x)
        ≡ accepted y
      → (a ≡ true) × (b ≡ true) × (c ≡ true) × (d ≡ false)
  chain true true true false e₁ e₂ e₃ x y f = (refl, refl, refl, refl)
  chain true true true true e₁ e₂ e₃ x y f = absurd (refused-accepted f)
  chain true true false d e₁ e₂ e₃ x y f = absurd (refused-accepted f)
  chain true false c d e₁ e₂ e₃ x y f = absurd (refused-accepted f)
  chain false b c d e₁ e₂ e₃ x y f = absurd (refused-accepted f)

  accepts :
      (req : Request) (rest : List ℕ) (x : Answer)
      → All HasValues req.header
      → check_request pkg (some (req, rest)) ≡ accepted x
      → IsUpgrade pkg req
  accepts req rest x a f =
      let sum = add_headers-header_size 0 req.header a (omega arith) in
      elim (Bool-cases (ltb max_handshake_headers_size (0 + header_size req.header))) [
        | inl big ↦
            let none_left : add_headers 0 req.header ≡ none = sum ∙ rw big refl in
            absurd (refused-accepted (sym (ap (check_size pkg req rest) none_left) ∙ f))
        | inr fits ↦
            let total : add_headers 0 req.header ≡ some (0 + header_size req.header) =
              sum ∙ rw fits refl in
            let (c, u, v, k) =
              chain (header_contains_token pkg req.header header_connection header_upgrade)
                (header_contains_token pkg req.header header_upgrade websocket)
                (same_key (get_header req.header header_sec_websocket_ver)
                  required_websocket_version)
                (is_empty (get_header req.header header_sec_websocket_key)) _ _ _ _ _
                (sym (ap (check_size pkg req rest) total) ∙ f) in
            record {
              small = ground (arith, fits);
              connection_upgrade = c;
              upgrade_websocket = u;
              version = same_key→eq _ _ v;
              has_key = is_empty-nil _ k;
            }
      ]

  is_accepted :
      (req : Request) (rest : List ℕ)
      → All HasValues req.header
      → IsUpgrade pkg req
      → check_request pkg (some (req, rest)) ≡ accepted (answer_of req rest)
  is_accepted req rest a h =
      let sum = add_headers-header_size 0 req.header a (omega arith) in
      let fits : ltb max_handshake_headers_size (0 + header_size req.header) ≡ false =
        ground (arith, h.small) in
      let version : same_key (get_header req.header header_sec_websocket_ver)
            required_websocket_version
          ≡ true =
        ap (λ v. same_key v required_websocket_version) h.version in
      let total : add_headers 0 req.header ≡ some (0 + header_size req.header) =
        sum ∙ rw fits refl in
      ap (check_size pkg req rest) total
      ∙ rw (h.connection_upgrade, h.upgrade_websocket, version, nil-is_empty _ h.has_key) refl

  -- A request that is read, with a value for each of its keys, is accepted just if its headers are
  -- within 8192 bytes, name the upgrade to websocket among their tokens, and carry version 13 and a key;
  -- the answer then has the key's accept value, the path, and all bytes that were read after it.
  pub do_handshake_core_buffered_iff :
      (r : pkg.Reader) (req : Request) (rest : List ℕ)
      → pkg.read_request r ≡ some (req, rest)
      → All HasValues req.header
      → (do_handshake_core_buffered pkg r ≡ accepted (answer_of req rest)) ↔ IsUpgrade pkg req
  unfolding do_handshake_core_buffered
  do_handshake_core_buffered_iff r req rest e a = (
    λ f. accepts req rest (answer_of req rest) a (sym (ap (check_request pkg) e) ∙ f),
    λ h. ap (check_request pkg) e ∙ is_accepted req rest a h,
  )
