-- ===== src/Highlevel/Routes/Patterns.antt =====
-- The regular expressions that `convertToRegex` writes.
use hioload_ws.Prelude.{
  ◌&&◌, ◌==◌, ◌∙◌, ◌∷◌, ◌≡◌, ◌⊎◌, All, Bool, Bool-cases, List, [], ap, arith, false, if_lem, inl,
  inr, length, ltb, refl, sym, true, ℕ,
}
use hioload_ws.Prelude.Text.{add_first, is_empty, join, length-split, split, starts_with}
use hioload_ws.Highlevel.Routes.{convert_parts, convert_to_regex, quote_meta}
use hioload_ws.Session.Map.{Key}

-- Several parts, or one that is not empty.
abbrev IsSolid : List Key → Type 0
IsSolid parts = (ltb 1 (length parts) ≡ true) ⊎ ((c : ℕ) × (cs : Key) × (parts ≡ (c ∷ cs) ∷ []))

add_first-IsSolid : (b : ℕ) (parts : List Key) → IsSolid (add_first b parts)
add_first-IsSolid b [] = inr (b, [], refl)
add_first-IsSolid b (p ∷ []) = inr (b, p, refl)
add_first-IsSolid b (p ∷ q ∷ ps) = inl (ground arith)

split-IsSolid : (sep b : ℕ) (bs : Key) → IsSolid (split sep (b ∷ bs))
split-IsSolid sep b bs = elim (Bool-cases (b == sep)) [
  | inl e ↦ rw e (inl (ground (arith, length-split sep bs)))
  | inr e ↦ rw e (add_first-IsSolid b (split sep bs))
]

convert_parts-IsSolid :
    (parts : List Key)
    → IsSolid parts
    → convert_parts true parts ≡ convert_parts (ltb 1 (length parts)) parts
convert_parts-IsSolid parts (inl many) = ap (λ b. convert_parts b parts) (sym many)
convert_parts-IsSolid parts (inr (c, cs, e)) = rw e refl

-- A slash at the start of a pattern that does not end there makes no difference: the regular
-- expression, which is then anchored, and the names are those of the pattern without it.
pub convert_to_regex-slash :
    (b : ℕ) (bs : Key) → convert_to_regex (b'/' ∷ b ∷ bs) ≡ convert_to_regex (b ∷ bs)
unfolding convert_to_regex
convert_to_regex-slash b bs =
    let many : ltb 1 (length (split b'/' (b'/' ∷ b ∷ bs))) ≡ true =
      ground (arith, length-split b'/' (b ∷ bs)) in
    ap (λ (p : List Key × List Key). (join b'/' p.0, p.1))
      (ap (λ m. convert_parts m (split b'/' (b'/' ∷ b ∷ bs))) many
        ∙ convert_parts-IsSolid (split b'/' (b ∷ bs)) (split-IsSolid b'/' b bs))

abbrev pub Unanchored : Key → Type 0
Unanchored regex = starts_with b'^' regex ≡ false

quote_meta-Unanchored : (part : Key) → Unanchored (quote_meta part)
unfolding quote_meta
quote_meta-Unanchored [] = refl
quote_meta-Unanchored (b ∷ bs) = ground arith

convert_parts-Unanchored :
    (many : Bool) (parts : List Key) → All Unanchored (convert_parts many parts).0
convert_parts-Unanchored many [] = tt
convert_parts-Unanchored many (part ∷ parts) =
    let rest = convert_parts-Unanchored many parts in
    if_lem (λ (p : List Key × List Key). All Unanchored p.0) (starts_with b':' part) (refl, rest)
      (if_lem (λ (p : List Key × List Key). All Unanchored p.0) (is_empty part && many) rest
        (quote_meta-Unanchored part, rest))

join-Unanchored : (parts : List Key) → All Unanchored parts → Unanchored (join b'/' parts)
join-Unanchored [] h = refl
join-Unanchored (part ∷ []) h = h.0
join-Unanchored ([] ∷ next ∷ parts) h = refl
join-Unanchored ((c ∷ cs) ∷ next ∷ parts) h = h.0

-- No regular expression of `convertToRegex` starts with the anchor that registration puts before it.
pub convert_to_regex-Unanchored : (pattern : Key) → Unanchored (convert_to_regex pattern).0
unfolding convert_to_regex
convert_to_regex-Unanchored pattern =
    join-Unanchored _
      (convert_parts-Unanchored (ltb 1 (length (split b'/' pattern))) (split b'/' pattern))
