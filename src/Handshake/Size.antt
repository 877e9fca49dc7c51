-- ===== src/Handshake/Size.antt =====
-- The limit on the size of the headers.
use hioload_ws.Prelude.{
  ◌+◌, ◌∙◌, ◌∷◌, ◌≡◌, ◌≢◌, ◌≤◌, All, List, Option, [], ap, arith, if_cases, if◌then◌else◌, length,
  ltb, none, refl, some, ℕ,
}
use hioload_ws.Handshake.{Header, add_headers, add_values, after_values, max_handshake_headers_size}
use hioload_ws.Session.Map.{Key}

-- The bytes of a header: those of its keys and of all its values.
abbrev pub values_size : List Key → ℕ
values_size [] = 0
values_size (v ∷ vs) = length v + values_size vs

abbrev pub header_size : Header → ℕ
header_size [] = 0
header_size ((k, vs) ∷ h) = length k + values_size vs + header_size h

-- Every key has a value, as in each header that is parsed.
abbrev pub HasValues : Key × List Key → Type 0
HasValues (k, vs) = vs ≢ []

-- The sum, if it is within the limit.
abbrev pub within : ℕ → Option ℕ
within total = if ltb max_handshake_headers_size total then none else some total

add_values_lem :
    (total : ℕ) (v : Key) (vs : List Key)
    → add_values total (v ∷ vs) ≡ within (total + values_size (v ∷ vs))
add_values_lem total v [] =
    if_cases (λ o. o ≡ within (total + values_size (v ∷ [])))
      (ltb max_handshake_headers_size (total + length v)) (λ e. ground (arith, e))
      (λ e. ground (arith, e))
add_values_lem total v (w ∷ vs) =
    let rest = add_values_lem (total + length v) w vs in
    if_cases (λ o. o ≡ within (total + values_size (v ∷ w ∷ vs)))
      (ltb max_handshake_headers_size (total + length v)) (λ e. ground (arith, e))
      (λ e. rest ∙ ap within (omega arith))

-- Whichever the order of the keys, the loops stop early just if the sum of all lengths is over the
-- limit, and otherwise give the sum, from a total that is within the limit.
pub add_headers-header_size :
    (total : ℕ) (h : Header)
    → All HasValues h
    → total ≤ max_handshake_headers_size
    → add_headers total h ≡ within (total + header_size h)
unfolding add_headers
add_headers-header_size total [] a l = ground arith
add_headers-header_size total ((k, []) ∷ h) a l = absurd (a.0 refl)
add_headers-header_size total ((k, v ∷ vs) ∷ h) a l =
    let sum = total + length k + values_size (v ∷ vs) in
    ap (after_values (λ t. add_headers t h)) (add_values_lem (total + length k) v vs)
    ∙ if_cases
        (λ o.
          after_values (λ t. add_headers t h) o ≡ within (total + header_size ((k, v ∷ vs) ∷ h)))
        (ltb max_handshake_headers_size sum) (λ e. ground (arith, e))
        (λ e. add_headers-header_size sum h a.1 (ground (arith, e)) ∙ ap within (omega arith))
