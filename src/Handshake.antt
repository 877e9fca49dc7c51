-- ===== src/Handshake.antt =====
-- protocol/handshake.go: the checks of an upgrade request, the headers of the answer, and the answer
-- as bytes. Strings are byte strings. Package net/http's parsing, sha1 and base64 are parameters; a
-- header is a list of its keys, in their canonical spelling, with their values.
pub mod Size
pub mod Tokens
pub mod Accepts
mod Examples
use hioload_ws.Prelude.{
  ◌&&◌, ◌++◌, ◌+◌, ◌-◌, ◌==◌, ◌||◌, ◌∷◌, Bool, List, Option, [], false, if◌then◌else◌, leb, length,
  ltb, none, not, refl, some, suc, true, zero, ℕ,
}
use hioload_ws.Prelude.Text.{is_empty, lower, split, to_lower, trim_space}
use hioload_ws.Session.Map.{Key, find, same_key}

abbrev pub Header : Type 0
Header = List (Key × List Key)

-- "Upgrade", "Connection", "Sec-WebSocket-Version", "Sec-WebSocket-Key", "Sec-WebSocket-Accept"
abbrev pub header_upgrade : Key
header_upgrade = b'U' ∷ b'p' ∷ b'g' ∷ b'r' ∷ b'a' ∷ b'd' ∷ b'e' ∷ []

abbrev pub header_connection : Key
header_connection = b'C' ∷ b'o' ∷ b'n' ∷ b'n' ∷ b'e' ∷ b'c' ∷ b't' ∷ b'i' ∷ b'o' ∷ b'n' ∷ []

abbrev sec_websocket : Key
sec_websocket =
    b'S' ∷ b'e' ∷ b'c' ∷ b'-' ∷ b'W' ∷ b'e' ∷ b'b' ∷ b'S' ∷ b'o' ∷ b'c' ∷ b'k' ∷ b'e' ∷ b't' ∷ b'-'
    ∷ []

abbrev pub header_sec_websocket_ver : Key
header_sec_websocket_ver = sec_websocket ++ (b'V' ∷ b'e' ∷ b'r' ∷ b's' ∷ b'i' ∷ b'o' ∷ b'n' ∷ [])

abbrev pub header_sec_websocket_key : Key
header_sec_websocket_key = sec_websocket ++ (b'K' ∷ b'e' ∷ b'y' ∷ [])

abbrev pub header_sec_websocket_accept : Key
header_sec_websocket_accept = sec_websocket ++ (b'A' ∷ b'c' ∷ b'c' ∷ b'e' ∷ b'p' ∷ b't' ∷ [])

-- "websocket", "13", and "258EAFA5-E914-47DA-95CA-C5AB0DC85B11"
abbrev pub websocket : Key
websocket = b'w' ∷ b'e' ∷ b'b' ∷ b's' ∷ b'o' ∷ b'c' ∷ b'k' ∷ b'e' ∷ b't' ∷ []

abbrev pub required_websocket_version : Key
required_websocket_version = b'1' ∷ b'3' ∷ []

abbrev pub websocket_guid : Key
websocket_guid =
    b'2' ∷ b'5' ∷ b'8' ∷ b'E' ∷ b'A' ∷ b'F' ∷ b'A' ∷ b'5' ∷ b'-' ∷ b'E' ∷ b'9' ∷ b'1' ∷ b'4' ∷ b'-'
    ∷ b'4' ∷ b'7' ∷ b'D' ∷ b'A' ∷ b'-' ∷ b'9' ∷ b'5' ∷ b'C' ∷ b'A' ∷ b'-' ∷ b'C' ∷ b'5' ∷ b'A'
    ∷ b'B' ∷ b'0' ∷ b'D' ∷ b'C' ∷ b'8' ∷ b'5' ∷ b'B' ∷ b'1' ∷ b'1' ∷ []

abbrev pub max_handshake_headers_size : ℕ
max_handshake_headers_size = 8192

pub data HandshakeError : Type 0 where
  unreadable too_large invalid_upgrade_headers bad_websocket_version missing_websocket_key :
      HandshakeError

pub data Handshake (A : Type 0) : Type 0 where
  accepted : A → Handshake A
  refused : HandshakeError → Handshake A

-- `http.Request`: its header and the path of its URL.
pub record Request : Type 0 where
  pub header : Header
  pub path : Key

-- `http.ReadRequest` on what a reader gives, with what it left in the buffer; sha1 and base64; and
-- `strings.ToLower` and `strings.TrimSpace` on strings with a byte that is not ASCII.
pub record Packages : Type 1 where
  pub Reader : Type 0
  pub read_request : Reader → Option (Request × List ℕ)
  pub read_response : Reader → Option ℕ
  pub sha1 : List ℕ → List ℕ
  pub base64 : List ℕ → Key
  pub unicode_lower : Key → Key
  pub unicode_trim : Key → Key

-- The loop over the values of a key, from a total: `none` is the return when that is over the limit.
abbrev pub add_values : ℕ → List Key → Option ℕ
add_values total [] = some total
add_values total (v ∷ vs) =
    let rest = add_values (total + length v) vs in
    if ltb max_handshake_headers_size (total + length v) then none else rest

abbrev pub after_values : (ℕ → Option ℕ) → Option ℕ → Option ℕ
after_values rest none = none
after_values rest (some total) = rest total

-- The loop over the keys.
unfoldable pub add_headers : ℕ → Header → Option ℕ
add_headers total [] = some total
add_headers total ((k, vs) ∷ h) =
    after_values (λ total'. add_headers total' h) (add_values (total + length k) vs)

-- `http.CanonicalHeaderKey`: a capital at the start and after each dash, the rest in lower case.
abbrev pub upper : ℕ → ℕ
upper b = if leb b'a' b && leb b b'z' then b - 32 else b

abbrev pub canonical_from : Bool → Key → Key
canonical_from starts [] = []
canonical_from starts (b ∷ bs) =
    (if starts then upper b else lower b) ∷ canonical_from (b == b'-') bs

abbrev pub canonical_header_key : Key → Key
canonical_header_key name = canonical_from true name

-- `Header.Get`: the first value, or the empty string.
abbrev pub first_value : Option (List Key) → Key
first_value none = []
first_value (some []) = []
first_value (some (v ∷ vs)) = v

abbrev pub get_header : Header → Key → Key
get_header h name = first_value (find h (canonical_header_key name))

abbrev pub values_of : Option (List Key) → List Key
values_of none = []
values_of (some vs) = vs

module _ (pkg : Packages) where
  -- The loops of `headerContainsToken`; the token is in lower case.
  unfoldable pub part_is_token : Key → List Key → Bool
  part_is_token token [] = false
  part_is_token token (part ∷ parts) =
      same_key (to_lower pkg.unicode_lower (trim_space pkg.unicode_trim part)) token
      || part_is_token token parts

  unfoldable pub value_has_token : Key → List Key → Bool
  value_has_token token [] = false
  value_has_token token (v ∷ vs) = part_is_token token (split b',' v) || value_has_token token vs

  -- `headerContainsToken`
  unfoldable pub header_contains_token : Header → Key → Key → Bool
  header_contains_token h name token =
      value_has_token (to_lower pkg.unicode_lower token)
        (values_of (find h (canonical_header_key name)))

  -- `Sec-WebSocket-Accept`
  abbrev pub accept_of : Key → Key
  accept_of key = pkg.base64 (pkg.sha1 (key ++ websocket_guid))

  abbrev pub response_header : Key → Header
  response_header key =
      (header_upgrade, websocket ∷ [])
      ∷ (header_connection, header_upgrade ∷ [])
      ∷ (canonical_header_key header_sec_websocket_accept, accept_of key ∷ [])
      ∷ []

  -- The checks after the size, in their order.
  abbrev pub check_header : Request → List ℕ → Handshake (Header × Key × List ℕ)
  check_header req rest =
      let key = get_header req.header header_sec_websocket_key in
      if not (header_contains_token req.header header_connection header_upgrade)
        || not (header_contains_token req.header header_upgrade websocket)
      then refused invalid_upgrade_headers
      else if not
          (same_key (get_header req.header header_sec_websocket_ver) required_websocket_version)
      then refused bad_websocket_version
      else if is_empty key
      then refused missing_websocket_key
      else accepted (response_header key, req.path, rest)

  abbrev pub check_size : Request → List ℕ → Option ℕ → Handshake (Header × Key × List ℕ)
  check_size req rest none = refused too_large
  check_size req rest (some total) = check_header req rest

  abbrev pub check_request : Option (Request × List ℕ) → Handshake (Header × Key × List ℕ)
  check_request none = refused unreadable
  check_request (some (req, rest)) = check_size req rest (add_headers 0 req.header)

  -- `DoHandshakeCoreBuffered`, `DoHandshakeCoreWithPath`, which loses the buffer, and
  -- `DoHandshakeCore`.
  unfoldable pub do_handshake_core_buffered : pkg.Reader → Handshake (Header × Key × List ℕ)
  do_handshake_core_buffered r = check_request (pkg.read_request r)

  abbrev pub without_buffer : Handshake (Header × Key × List ℕ) → Handshake (Header × Key)
  without_buffer (refused e) = refused e
  without_buffer (accepted (h, path, rest)) = accepted (h, path)

  unfoldable pub do_handshake_core_with_path : pkg.Reader → Handshake (Header × Key)
  do_handshake_core_with_path r = without_buffer (check_request (pkg.read_request r))

  abbrev pub without_path : Handshake (Header × Key) → Handshake Header
  without_path (refused e) = refused e
  without_path (accepted (h, path)) = accepted h

  abbrev pub do_handshake_core : pkg.Reader → Handshake Header
  do_handshake_core r = without_path (do_handshake_core_with_path r)

  -- `DoClientHandshake`: the status, where it is not 101, is part of the error.
  abbrev pub client_result : Option ℕ → Option (Option ℕ)
  client_result none = some none
  client_result (some status) = if status == 101 then none else some (some status)

  abbrev pub do_client_handshake : pkg.Reader → Option (Option ℕ)
  do_client_handshake r = client_result (pkg.read_response r)

-- `WriteHandshakeResponse`, to a writer that takes everything.
abbrev pub crlf : Key
crlf = 13 ∷ 10 ∷ []

abbrev pub status_line : Key
status_line =
    b'H' ∷ b'T' ∷ b'T' ∷ b'P' ∷ b'/' ∷ b'1' ∷ b'.' ∷ b'1' ∷ 32 ∷ b'1' ∷ b'0' ∷ b'1' ∷ 32 ∷ b'S'
    ∷ b'w' ∷ b'i' ∷ b't' ∷ b'c' ∷ b'h' ∷ b'i' ∷ b'n' ∷ b'g' ∷ 32 ∷ b'P' ∷ b'r' ∷ b'o' ∷ b't' ∷ b'o'
    ∷ b'c' ∷ b'o' ∷ b'l' ∷ b's' ∷ 13 ∷ 10 ∷ []

abbrev pub write_values : Key → List Key → Key
write_values k [] = []
write_values k (v ∷ vs) = k ++ (b':' ∷ 32 ∷ (v ++ (crlf ++ write_values k vs)))

unfoldable pub write_headers : Header → Key
write_headers [] = []
write_headers ((k, vs) ∷ h) = write_values k vs ++ write_headers h

unfoldable pub write_handshake_response : Header → Key
write_handshake_response h = status_line ++ (write_headers h ++ crlf)
