-- ===== src/Handshake/Examples.antt =====
-- A handshake.
use hioload_ws.Prelude.{◌++◌, ◌↔◌, ◌∷◌, ◌≡◌, All, [], arith, refl, some}
use hioload_ws.Handshake.{
  Header, Packages, Request, accepted, canonical_header_key, do_handshake_core_buffered,
  header_connection, header_contains_token, header_sec_websocket_key, header_sec_websocket_ver,
  header_upgrade, part_is_token, required_websocket_version, value_has_token,
}
use hioload_ws.Handshake.Accepts.{IsUpgrade, answer_of, do_handshake_core_buffered_iff}
use hioload_ws.Handshake.Size.{HasValues}
use hioload_ws.Session.Map.{Key}

-- "keep-alive, Upgrade"
abbrev keep_alive : Key
keep_alive = b'k' ∷ b'e' ∷ b'e' ∷ b'p' ∷ b'-' ∷ b'a' ∷ b'l' ∷ b'i' ∷ b'v' ∷ b'e' ∷ []

abbrev upgrade_header : Header
upgrade_header =
    (canonical_header_key header_connection, (keep_alive ++ (b',' ∷ 32 ∷ header_upgrade)) ∷ [])
    ∷ (
      canonical_header_key header_upgrade,
      (b'W' ∷ b'e' ∷ b'b' ∷ b'S' ∷ b'o' ∷ b'c' ∷ b'k' ∷ b'e' ∷ b't' ∷ []) ∷ [],
    )
    ∷ (canonical_header_key header_sec_websocket_ver, required_websocket_version ∷ [])
    ∷ (canonical_header_key header_sec_websocket_key, (b'a' ∷ b'b' ∷ []) ∷ [])
    ∷ []

abbrev request : Request
request = record { header = upgrade_header; path = b'/' ∷ b'5' ∷ [] }

-- Packages that read the one request, with two bytes after it.
abbrev packages : Packages
packages = record {
  Reader = Unit;
  read_request = λ r. some (request, 129 ∷ 0 ∷ []);
  read_response = λ r. some 101;
  sha1 = λ bs. bs;
  base64 = λ bs. bs;
  unicode_lower = λ bs. bs;
  unicode_trim = λ bs. bs;
}

request-IsUpgrade : IsUpgrade packages request
unfolding header_contains_token value_has_token part_is_token
request-IsUpgrade = record {
  small = omega arith;
  connection_upgrade = refl;
  upgrade_websocket = refl;
  version = refl;
  has_key = λ e. grind (arith, e);
}

upgrade_header-HasValues : All HasValues upgrade_header
upgrade_header-HasValues = (
  λ e. grind (arith, e),
  ((λ e. grind (arith, e)), ((λ e. grind (arith, e)), ((λ e. grind (arith, e)), tt))),
)

do_handshake_core_buffered_iff_example :
    (do_handshake_core_buffered packages tt ≡ accepted (answer_of packages request (129 ∷ 0 ∷ [])))
    ↔ IsUpgrade packages request
do_handshake_core_buffered_iff_example =
    do_handshake_core_buffered_iff packages tt request (129 ∷ 0 ∷ []) refl upgrade_header-HasValues
