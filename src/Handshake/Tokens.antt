-- ===== src/Handshake/Tokens.antt =====
-- Lists of tokens in a header.
use hioload_ws.Handshake.{Packages}
use hioload_ws.Prelude.{
  ◌++◌, ◌==◌, ◌||◌, ◌∙◌, ◌∷◌, ◌≡◌, ◌≤◌, Bool, Bool-cases, List, [], ap, arith, false, if◌then◌else◌,
  inl, inr, length, refl, true, ℕ,
}
use hioload_ws.Prelude.Text.{add_first, length-split, split}
use hioload_ws.Handshake.{
  Header, canonical_header_key, header_contains_token, part_is_token, to_lower, value_has_token,
}
use hioload_ws.Session.Map.{Key, same_key_refl}

add_first-append :
    (b : ℕ) (xs : List Key) (ys : List Key)
    → 1 ≤ length xs
    → add_first b (xs ++ ys) ≡ add_first b xs ++ ys
add_first-append b [] ys h = absurd (omega arith)
add_first-append b (x ∷ xs) ys h = refl

-- Splitting at the separator between two strings.
split-append : (sep : ℕ) (bs cs : Key) → split sep (bs ++ (sep ∷ cs)) ≡ split sep bs ++ split sep cs
split-append sep [] cs =
    ap (λ b. if b then [] ∷ split sep cs else add_first sep (split sep cs)) (sep_same sep)
  where
    sep_same : (sep : ℕ) → (sep == sep) ≡ true
    sep_same sep = ground arith
split-append sep (b ∷ bs) cs = elim (Bool-cases (b == sep)) [
  | inl e ↦ rw e (ap (λ ps. [] ∷ ps) (split-append sep bs cs))
  | inr e ↦ rw e (
      ap (add_first b) (split-append sep bs cs)
      ∙ add_first-append b (split sep bs) (split sep cs) (length-split sep bs))
]

module _ (pkg : Packages) where
  part_is_token-append :
      (token : Key) (xs ys : List Key)
      → part_is_token pkg token (xs ++ ys)
        ≡ (part_is_token pkg token xs || part_is_token pkg token ys)
  unfolding part_is_token
  part_is_token-append token [] ys = refl
  part_is_token-append token (x ∷ xs) ys = ground (arith, part_is_token-append token xs ys)

  -- One value with a list of tokens says the same as two values with the parts of the list: a token is
  -- found in one just if it is found in the other.
  pub header_contains_token-split :
      (h : Header) (name token before after : Key)
      → header_contains_token pkg
          ((canonical_header_key name, (before ++ (b',' ∷ after)) ∷ []) ∷ h)
          name
          token
        ≡ header_contains_token pkg
            ((canonical_header_key name, before ∷ after ∷ []) ∷ h)
            name
            token
  unfolding header_contains_token value_has_token
  header_contains_token-split h name token before after =
      rw (same_key_refl (canonical_header_key name)) (
        ap (λ ps. part_is_token pkg (to_lower pkg.unicode_lower token) ps || false)
          (split-append b',' before after)
        ∙ ap (λ b. b || false)
            (part_is_token-append (to_lower pkg.unicode_lower token) (split b',' before)
              (split b',' after))
        ∙ or_assoc (part_is_token pkg (to_lower pkg.unicode_lower token) (split b',' before))
            (part_is_token pkg (to_lower pkg.unicode_lower token) (split b',' after)))
    where
      or_assoc : (x y : Bool) → ((x || y) || false) ≡ (x || (y || false))
      or_assoc true y = refl
      or_assoc false y = refl
