-- ===== src/Session/Map.antt =====
-- Go maps with string keys.
use hioload_ws.Prelude.{
  ◌&&◌, ◌==◌, ◌∷◌, ◌≡◌, ◌≢◌, Bool, Bool-cases, List, Option, [], ap, ap₂, arith, false,
  if◌then◌else◌, inl, inr, none, refl, some, true, ℕ,
}

abbrev pub Key : Type 0
Key = List ℕ

abbrev pub same_key : Key → Key → Bool
same_key [] [] = true
same_key [] (y ∷ ys) = false
same_key (x ∷ xs) [] = false
same_key (x ∷ xs) (y ∷ ys) = (x == y) && same_key xs ys

pub same_key_refl : (k : Key) → same_key k k ≡ true
same_key_refl [] = refl
same_key_refl (x ∷ xs) = ground (arith, same_key_refl xs)

pub same_key→eq : (a b : Key) → same_key a b ≡ true → a ≡ b
same_key→eq [] [] h = refl
same_key→eq [] (y ∷ ys) h = grind (arith, h)
same_key→eq (x ∷ xs) [] h = grind (arith, h)
same_key→eq (x ∷ xs) (y ∷ ys) h = ap₂ ◌∷◌ (ground arith) (same_key→eq xs ys (ground arith))

pub ne→same_key : (a b : Key) → a ≢ b → same_key a b ≡ false
ne→same_key a b ne = elim (Bool-cases (same_key a b)) [
  | inl e ↦ absurd (ne (same_key→eq a b e))
  | inr e ↦ e
]

module _ {V : Type 0} where
  -- `m[key]`, with its second result.
  abbrev pub find : List (Key × V) → Key → Option V
  find [] k = none
  find ((k', v) ∷ m) k = if same_key k' k then some v else find m k

  -- `m[key] = v`
  abbrev pub store_at : List (Key × V) → Key → V → List (Key × V)
  store_at [] k v = (k, v) ∷ []
  store_at ((k', v') ∷ m) k v = if same_key k' k then (k, v) ∷ m else (k', v') ∷ store_at m k v

  -- `delete(m, key)`
  abbrev pub remove : List (Key × V) → Key → List (Key × V)
  remove [] k = []
  remove ((k', v) ∷ m) k = let rest = remove m k in if same_key k' k then rest else (k', v) ∷ rest

  pub find-store_at : (m : List (Key × V)) (k : Key) (v : V) → find (store_at m k v) k ≡ some v
  find-store_at [] k v = rw (same_key_refl k) refl
  find-store_at ((k', v') ∷ m) k v = elim (Bool-cases (same_key k' k)) [
    | inl e ↦ rw (e, same_key_refl k) refl
    | inr e ↦ rw (e, e) (find-store_at m k v)
  ]

  pub find-store_at_ne :
      (m : List (Key × V)) (k j : Key) (v : V) → k ≢ j → find (store_at m k v) j ≡ find m j
  find-store_at_ne [] k j v ne = rw (ne→same_key k j ne) refl
  find-store_at_ne ((k', v') ∷ m) k j v ne = elim (Bool-cases (same_key k' k)) [
    | inl e ↦
        rw (e, ne→same_key k j ne, ap (λ x. same_key x j) (same_key→eq k' k e), ne→same_key k j ne)
          refl
    | inr e ↦ rw (e, find-store_at_ne m k j v ne) refl
  ]

  pub find-remove : (m : List (Key × V)) (k : Key) → find (remove m k) k ≡ none
  find-remove [] k = refl
  find-remove ((k', v') ∷ m) k = elim (Bool-cases (same_key k' k)) [
    | inl e ↦ rw e (find-remove m k)
    | inr e ↦ rw (e, e) (find-remove m k)
  ]

  pub find-remove_ne : (m : List (Key × V)) (k j : Key) → k ≢ j → find (remove m k) j ≡ find m j
  find-remove_ne [] k j ne = refl
  find-remove_ne ((k', v') ∷ m) k j ne = elim (Bool-cases (same_key k' k)) [
    | inl e ↦
        rw (e, ap (λ x. same_key x j) (same_key→eq k' k e), ne→same_key k j ne)
          (find-remove_ne m k j ne)
    | inr e ↦ rw (e, find-remove_ne m k j ne) refl
  ]
