-- ===== src/Prelude/Text.antt =====
-- Package strings on byte strings.
use hioload_ws.Prelude.{
  ◌&&◌, ◌++◌, ◌+◌, ◌==◌, ◌||◌, ◌∷◌, ◌≤◌, Bool, Bool-cases, List, [], arith, false, if◌then◌else◌,
  inl, inr, leb, length, true, ℕ,
}
use hioload_ws.Session.Map.{Key}

-- `HasPrefix` and `HasSuffix` of one byte
abbrev pub starts_with : ℕ → List ℕ → Bool
starts_with b [] = false
starts_with b (c ∷ cs) = c == b

abbrev pub ends_with : ℕ → List ℕ → Bool
ends_with b [] = false
ends_with b (c ∷ []) = c == b
ends_with b (c ∷ d ∷ cs) = ends_with b (d ∷ cs)

-- `Contains` of one byte
abbrev pub contains : ℕ → List ℕ → Bool
contains b [] = false
contains b (c ∷ cs) = (c == b) || contains b cs

abbrev pub is_empty : List ℕ → Bool
is_empty [] = true
is_empty (c ∷ cs) = false

abbrev pub add_first : ℕ → List (List ℕ) → List (List ℕ)
add_first b [] = (b ∷ []) ∷ []
add_first b (part ∷ parts) = (b ∷ part) ∷ parts

-- `Split` at each of one byte
abbrev pub split : ℕ → List ℕ → List (List ℕ)
split sep [] = [] ∷ []
split sep (b ∷ bs) = let parts = split sep bs in if b == sep then [] ∷ parts else add_first b parts

-- `Join` with one byte
abbrev pub join : ℕ → List (List ℕ) → List ℕ
join sep [] = []
join sep (part ∷ []) = part
join sep (part ∷ next ∷ parts) = part ++ (sep ∷ join sep (next ∷ parts))

pub length-split : (sep : ℕ) (bs : Key) → 1 ≤ length (split sep bs)
length-split sep [] = omega arith
length-split sep (b ∷ bs) = elim (Bool-cases (b == sep)) [
  | inl e ↦ rw e (omega arith)
  | inr e ↦ rw e (length-add_first b (split sep bs))
]
  where
    length-add_first : (b : ℕ) (parts : List Key) → 1 ≤ length (add_first b parts)
    length-add_first b [] = omega arith
    length-add_first b (p ∷ ps) = omega arith

-- `strings.ToLower` and `strings.TrimSpace`: on a string of ASCII bytes, and otherwise by the tables of
-- Unicode, which are the argument `unicode`.
abbrev pub is_ascii : Key → Bool
is_ascii [] = true
is_ascii (b ∷ bs) = leb b 127 && is_ascii bs

abbrev pub lower : ℕ → ℕ
lower b = if leb b'A' b && leb b b'Z' then b + 32 else b

abbrev pub lower_all : Key → Key
lower_all [] = []
lower_all (b ∷ bs) = lower b ∷ lower_all bs

abbrev pub to_lower : (Key → Key) → Key → Key
to_lower unicode bs = if is_ascii bs then lower_all bs else unicode bs

abbrev pub is_space : ℕ → Bool
is_space b = (b == 32) || (leb 9 b && leb b 13)

abbrev pub trim_left : Key → Key
trim_left [] = []
trim_left (b ∷ bs) = let rest = trim_left bs in if is_space b then rest else b ∷ bs

abbrev pub add_unless_blank : ℕ → Key → Key
add_unless_blank b [] = if is_space b then [] else b ∷ []
add_unless_blank b (c ∷ cs) = b ∷ c ∷ cs

abbrev pub trim_right : Key → Key
trim_right [] = []
trim_right (b ∷ bs) = add_unless_blank b (trim_right bs)

abbrev pub trim_space : (Key → Key) → Key → Key
trim_space unicode bs = if is_ascii bs then trim_right (trim_left bs) else unicode bs
