-- ===== src/Highlevel/Routes/Groups.antt =====
-- Nested groups and chains of middleware.
use hioload_ws.Prelude.{
  ◌++◌, ◌==◌, ◌∙◌, ◌∷◌, ◌≡◌, Bool-cases, List, [], ap, append_assoc, arith, drop, false, get_elem?,
  if◌then◌else◌, inl, inr, length, refl, suc, sym, true, zero, ℕ,
}
use hioload_ws.Prelude.Text.{ends_with, starts_with}
use hioload_ws.Highlevel.Routes.{apply_middleware, join_prefix, wrap_at, wrap_from}
use hioload_ws.Session.Map.{Key}

-- A prefix without one slash at its end, and a pattern without one at its start.
trim : Key → Key
trim [] = []
trim (c ∷ []) = if c == b'/' then [] else c ∷ []
trim (c ∷ d ∷ cs) = c ∷ trim (d ∷ cs)

unslash : Key → Key
unslash [] = []
unslash (c ∷ cs) = if c == b'/' then cs else c ∷ cs

trim-append : (xs : Key) (y : ℕ) (ys : Key) → trim (xs ++ (y ∷ ys)) ≡ xs ++ trim (y ∷ ys)
unfolding trim
trim-append [] y ys = refl
trim-append (x ∷ []) y ys = refl
trim-append (x ∷ x' ∷ xs) y ys = ap (λ zs. x ∷ zs) (trim-append (x' ∷ xs) y ys)

trim-ends : (cs : Key) → ends_with b'/' cs ≡ true → cs ≡ trim cs ++ (b'/' ∷ [])
unfolding trim
trim-ends [] e = grind (arith, e)
trim-ends (c ∷ []) e = ground arith
trim-ends (c ∷ d ∷ cs) e = ap (λ zs. c ∷ zs) (trim-ends (d ∷ cs) e)

trim-same : (cs : Key) → ends_with b'/' cs ≡ false → trim cs ≡ cs
unfolding trim
trim-same [] e = refl
trim-same (c ∷ []) e = ground arith
trim-same (c ∷ d ∷ cs) e = ap (λ zs. c ∷ zs) (trim-same (d ∷ cs) e)

unslash-starts : (cs : Key) → starts_with b'/' cs ≡ true → cs ≡ b'/' ∷ unslash cs
unfolding unslash
unslash-starts [] e = grind (arith, e)
unslash-starts (c ∷ cs) e = ground arith

unslash-same : (cs : Key) → starts_with b'/' cs ≡ false → unslash cs ≡ cs
unfolding unslash
unslash-same [] e = refl
unslash-same (c ∷ cs) e = ground arith

unslash-drop : (cs : Key) → starts_with b'/' cs ≡ true → drop 1 cs ≡ unslash cs
unfolding unslash
unslash-drop [] e = refl
unslash-drop (c ∷ cs) e = ground arith

-- There is exactly one slash at the joint.
join_prefix_lem :
    (c : ℕ) (cs pattern : Key)
    → join_prefix (c ∷ cs) pattern ≡ trim (c ∷ cs) ++ (b'/' ∷ unslash pattern)
unfolding join_prefix
join_prefix_lem c cs pattern = elim (Bool-cases (ends_with b'/' (c ∷ cs))) [
  | inl ends ↦ elim (Bool-cases (starts_with b'/' pattern)) [
    | inl starts ↦
        rw (ends, starts)
          (ap (λ u. c ∷ (cs ++ u)) (unslash-drop pattern starts)
            ∙ ap (λ z. z ++ unslash pattern) (trim-ends (c ∷ cs) ends)
            ∙ append_assoc (trim (c ∷ cs)) (b'/' ∷ []) (unslash pattern))
    | inr no_slash ↦
        rw (ends, no_slash)
          (ap (λ u. c ∷ (cs ++ u)) (sym (unslash-same pattern no_slash))
            ∙ ap (λ z. z ++ unslash pattern) (trim-ends (c ∷ cs) ends)
            ∙ append_assoc (trim (c ∷ cs)) (b'/' ∷ []) (unslash pattern))
  ]
  | inr no_end ↦ elim (Bool-cases (starts_with b'/' pattern)) [
    | inl starts ↦
        rw (no_end, starts)
          (ap (λ u. c ∷ (cs ++ u)) (unslash-starts pattern starts)
            ∙ ap (λ z. z ++ (b'/' ∷ unslash pattern)) (sym (trim-same (c ∷ cs) no_end)))
    | inr no_slash ↦
        rw (no_end, no_slash)
          (ap (λ u. c ∷ (cs ++ (b'/' ∷ u))) (sym (unslash-same pattern no_slash))
            ∙ ap (λ z. z ++ (b'/' ∷ unslash pattern)) (sym (trim-same (c ∷ cs) no_end)))
  ]
]

join_prefix_append :
    (xs : Key) (y : ℕ) (ys pattern : Key)
    → join_prefix (xs ++ (y ∷ ys)) pattern ≡ trim (xs ++ (y ∷ ys)) ++ (b'/' ∷ unslash pattern)
join_prefix_append [] y ys pattern = join_prefix_lem y ys pattern
join_prefix_append (x ∷ xs) y ys pattern = join_prefix_lem x (xs ++ (y ∷ ys)) pattern

-- The slashes around a pattern in the middle.
middle_lem :
    (x : ℕ) (xs rest : Key)
    → trim (b'/' ∷ unslash (x ∷ xs)) ++ (b'/' ∷ rest)
      ≡ b'/' ∷ unslash (trim (x ∷ xs) ++ (b'/' ∷ rest))
unfolding trim unslash
middle_lem x [] rest = ground arith
middle_lem x (y ∷ zs) rest = ground arith

join_prefix_twice :
    (o : ℕ) (os inner pattern : Key)
    → join_prefix (join_prefix (o ∷ os) inner) pattern
      ≡ trim (o ∷ os) ++ (trim (b'/' ∷ unslash inner) ++ (b'/' ∷ unslash pattern))
join_prefix_twice o os inner pattern =
    ap (λ z. join_prefix z pattern) (join_prefix_lem o os inner)
    ∙ join_prefix_append (trim (o ∷ os)) b'/' (unslash inner) pattern
    ∙ ap (λ z. z ++ (b'/' ∷ unslash pattern)) (trim-append (trim (o ∷ os)) b'/' (unslash inner))
    ∙ append_assoc (trim (o ∷ os)) (trim (b'/' ∷ unslash inner)) (b'/' ∷ unslash pattern)

-- Joining prefixes is associative: a route of a nested group is registered under the path that the
-- outer prefix gives the inner group's path.
pub join_prefix_assoc :
    (outer inner pattern : Key)
    → join_prefix (join_prefix outer inner) pattern ≡ join_prefix outer (join_prefix inner pattern)
join_prefix_assoc [] inner pattern = unfold join_prefix in refl
join_prefix_assoc (o ∷ os) [] pattern =
    join_prefix_twice o os [] pattern
    ∙ unfold trim in
      unfold unslash in sym (join_prefix_lem o os pattern) ∙ unfold join_prefix in refl
join_prefix_assoc (o ∷ os) (x ∷ xs) pattern =
    join_prefix_twice o os (x ∷ xs) pattern
    ∙ ap (λ z. trim (o ∷ os) ++ z) (middle_lem x xs (unslash pattern))
    ∙ sym (join_prefix_lem o os (trim (x ∷ xs) ++ (b'/' ∷ unslash pattern)))
    ∙ ap (join_prefix (o ∷ os)) (sym (join_prefix_lem x xs pattern))

-- One step of the chain.
pub wrap_from-cons :
    {H : Type 0} (m : H → H) (ms : List (H → H)) (n : ℕ) (h : H)
    → wrap_from (m ∷ ms) (suc n) h ≡ m (wrap_from ms n h)
wrap_from-cons m ms zero h = refl
wrap_from-cons m ms (suc n) h = wrap_from-cons m ms n (wrap_at h (get_elem? ms n))

-- Middleware added first is outermost: a chain of some middleware and then more is the first part
-- around the second part around the handler.
pub apply_middleware-append :
    {H : Type 0} (ms more : List (H → H)) (h : H)
    → apply_middleware (ms ++ more) h ≡ apply_middleware ms (apply_middleware more h)
unfolding apply_middleware
apply_middleware-append [] more h = refl
apply_middleware-append (m ∷ ms) more h =
    wrap_from-cons m (ms ++ more) (length (ms ++ more)) h
    ∙ ap m (apply_middleware-append ms more h)
    ∙ sym (wrap_from-cons m ms (length ms) _)
