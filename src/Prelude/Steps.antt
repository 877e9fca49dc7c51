-- ===== src/Prelude/Steps.antt =====
-- Sequences of steps of a machine; a step that cannot be taken in a state is `none`.
use mathlib.Core.List.{◌++◌, ◌∷◌, List, []}
use mathlib.Core.Option.{Option, none, some}
use mathlib.Core.Path.{◌≡◌, refl, subst}
use hioload_ws.Prelude.Lists.{All}
use hioload_ws.Prelude.Tests.{OnSome}

abbrev pub run_from {ℓ} : {S : Type ℓ} → (S → Option S) → Option S → Option S
run_from rest none = none
run_from rest (some s) = rest s

module _ {ℓ κ} {S : Type ℓ} {T : Type κ} where
  -- `none` if one of the steps cannot be taken.
  unfoldable pub run_steps : (T → S → Option S) → List T → S → Option S
  run_steps take [] s = some s
  run_steps take (step ∷ steps) s = run_from (run_steps take steps) (take step s)

module _ {ℓ κ μ ν} {S : Type ℓ} {T : Type κ} (take : T → S → Option S) (Q : T → Type μ)
    (P : S → Type ν) (keeps : (step : T) → Q step → (s : S) → P s → OnSome P (take step s)) where
  run_steps-OnSome :
      (steps : List T) → All Q steps → (s : S) → P s → OnSome P (run_steps take steps s)
  unfolding run_steps
  run_steps-OnSome [] a s h = h
  run_steps-OnSome (step ∷ steps) (q, a) s h =
      go (take step s) (run_steps-OnSome steps a) (keeps step q s h)
    where
      go :
          (o : Option S)
          → ((s₁ : S) → P s₁ → OnSome P (run_steps take steps s₁))
          → OnSome P o
          → OnSome P (run_from (run_steps take steps) o)
      go none rest h = tt
      go (some s₁) rest h = rest s₁ h

  -- What every allowed step keeps, every sequence of them keeps.
  pub run_steps-keeps :
      (steps : List T)
      → All Q steps
      → (s : S) → P s
      → (s' : S) → run_steps take steps s ≡ some s'
      → P s'
  run_steps-keeps steps a s h s' e = subst (OnSome P) e (run_steps-OnSome steps a s h)

-- The same without a condition on the steps.
module _ {ℓ κ ν} {S : Type ℓ} {T : Type κ} (take : T → S → Option S) (P : S → Type ν)
    (keeps : (step : T) (s : S) → P s → OnSome P (take step s)) where
  pub run_steps-always :
      (steps : List T) (s : S) → P s → (s' : S) → run_steps take steps s ≡ some s' → P s'
  unfolding run_steps
  run_steps-always [] s h s' e = subst (OnSome P) e h
  run_steps-always (step ∷ steps) s h s' e =
      go (take step s) (λ s₁ h₁ e₁. run_steps-always steps s₁ h₁ s' e₁) (keeps step s h) e
    where
      go :
          (o : Option S)
          → ((s₁ : S) → P s₁ → run_steps take steps s₁ ≡ some s' → P s')
          → OnSome P o
          → run_from (run_steps take steps) o ≡ some s'
          → P s'
      go none rest h e = subst (OnSome P) e h
      go (some s₁) rest h e = rest s₁ h e

module _ {ℓ κ} {S : Type ℓ} {T : Type κ} (take : T → S → Option S) where
  pub run_steps-append :
      (xs ys : List T) (s : S)
      → run_steps take (xs ++ ys) s ≡ run_from (run_steps take ys) (run_steps take xs s)
  unfolding run_steps
  run_steps-append [] ys s = refl
  run_steps-append (x ∷ xs) ys s = go (take x s) (run_steps-append xs ys)
    where
      go :
          (o : Option S)
          → ((s₁ : S)
              → run_steps take (xs ++ ys) s₁ ≡ run_from (run_steps take ys) (run_steps take xs s₁))
          → run_from (run_steps take (xs ++ ys)) o
            ≡ run_from (run_steps take ys) (run_from (run_steps take xs) o)
      go none h = refl
      go (some s₁) h = h s₁

-- What holds of every state of a run.
abbrev pub Along {ℓ κ ν} :
    {S : Type ℓ} {T : Type κ} → (S → Type ν) → (T → S → Option S) → List T → S → Type ν
Along P take [] s = P s
Along P take (step ∷ steps) s = P s × OnSome (Along P take steps) (take step s)

-- What every step keeps between two states of a kind, a run through such states keeps.
module _ {ℓ κ ν μ} {S : Type ℓ} {T : Type κ} (take : T → S → Option S) (P : S → Type ν)
    (I : S → Type μ)
    (keeps : (step : T) (s : S) → P s → I s → OnSome (λ s'. P s' → I s') (take step s)) where
  now : (steps : List T) (s : S) → Along P take steps s → P s
  now [] s a = a
  now (step ∷ steps) s a = a.0

  pub run_steps-along :
      (steps : List T) (s : S)
      → Along P take steps s
      → I s
      → (s' : S) → run_steps take steps s ≡ some s'
      → I s'
  unfolding run_steps
  run_steps-along [] s a h s' e = subst (OnSome I) e h
  run_steps-along (step ∷ steps) s a h s' e =
      go (take step s) (λ s₁ a₁ h₁ e₁. run_steps-along steps s₁ a₁ h₁ s' e₁) (keeps step s a.0 h)
        a.1 e
    where
      go :
          (o : Option S)
          → ((s₁ : S) → Along P take steps s₁ → I s₁ → run_steps take steps s₁ ≡ some s' → I s')
          → OnSome (λ s₁. P s₁ → I s₁) o
          → OnSome (Along P take steps) o
          → run_from (run_steps take steps) o ≡ some s'
          → I s'
      go none rest h a e = subst (OnSome I) e tt
      go (some s₁) rest h a e = rest s₁ a (h (now steps s₁ a)) e
