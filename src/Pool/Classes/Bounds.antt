-- ===== src/Pool/Classes/Bounds.antt =====
-- The class that `sizeClassUpperBound` chooses.
use hioload_ws.Prelude.{
  ◌&&◌, ◌*◌, ◌∷◌, ◌≡◌, ◌≤◌, ◌⊎◌, All, Bool, Bool-cases, List, [], ap, arith, if◌then◌else◌, inl,
  inr, leb, not, refl, subst, sym, true, ℕ,
}
use hioload_ws.Prelude.Int.{◌≤ℤ◌, ltb_ℤ, pos, ℤ}
use hioload_ws.Pool.Classes.{first_class, size_class_upper_bound, size_classes}

first_class-holds :
    (size : ℤ) (cs : List ℕ) (biggest : ℕ)
    → size ≤ℤ pos biggest
    → size ≤ℤ pos (first_class size cs biggest)
first_class-holds size [] biggest h = h
first_class-holds size (c ∷ cs) biggest h = elim (Bool-cases (ltb_ℤ (pos c) size)) [
  | inl above ↦ ground (arith, first_class-holds size cs biggest h)
  | inr fits ↦ ground arith
]

at_least : ℕ → List ℕ → Bool
at_least c [] = true
at_least c (c' ∷ cs) = leb c c' && at_least c cs

-- Each class is at most those behind it.
ascending : List ℕ → Bool
ascending [] = true
ascending (c ∷ cs) = at_least c cs && ascending cs

-- A class that holds the size is at least the one chosen.
abbrev pub IsLeast : ℤ → ℕ → ℕ → Type 0
IsLeast size chosen c = (ltb_ℤ (pos c) size ≡ true) ⊎ (chosen ≤ c)

at_least-IsLeast : (size : ℤ) (c : ℕ) (cs : List ℕ) → at_least c cs ≡ true → All (IsLeast size c) cs
unfolding at_least
at_least-IsLeast size c [] h = tt
at_least-IsLeast size c (c' ∷ cs) h =
    (inr (ground arith), at_least-IsLeast size c cs (ground arith))

first_class-IsLeast :
    (size : ℤ) (cs : List ℕ) (biggest : ℕ)
    → ascending cs ≡ true
    → All (IsLeast size (first_class size cs biggest)) cs
unfolding ascending
first_class-IsLeast size [] biggest h = tt
first_class-IsLeast size (c ∷ cs) biggest h = elim (Bool-cases (ltb_ℤ (pos c) size)) [
  | inl above ↦
      subst (λ (n : ℕ). All (IsLeast size n) (c ∷ cs))
        (ap (λ (b : Bool). if not b then c else first_class size cs biggest) (sym above))
        (inl above, first_class-IsLeast size cs biggest (ground arith))
  | inr fits ↦
      subst (λ (n : ℕ). All (IsLeast size n) (c ∷ cs))
        (ap (λ (b : Bool). if not b then c else first_class size cs biggest) (sym fits))
        (inr (omega arith), at_least-IsLeast size c cs (ground arith))
]

-- Up to the biggest class, `sizeClassUpperBound` gives a class that holds the size, and no class that
-- holds it is smaller.
pub size_class_upper_bound_lem :
    (size : ℤ)
    → size ≤ℤ pos (1024 * 1024)
    → (size ≤ℤ pos (size_class_upper_bound size))
      × All (IsLeast size (size_class_upper_bound size)) size_classes
unfolding size_class_upper_bound ascending at_least
size_class_upper_bound_lem size h = (
  first_class-holds size size_classes (1024 * 1024) h,
  first_class-IsLeast size size_classes (1024 * 1024) refl,
)
