-- ===== src/Executor/Sums.antt =====
-- What a weight counts in the queues of an executor.
use mathlib.Core.Option.{some-injective}
use hioload_ws.Prelude.{ap, refl}
use Prim.Native.Nat.{zero}
use hioload_ws.Prelude.{set}
use hioload_ws.Prelude.{arith, some, suc}
use hioload_ws.Prelude.{◌+◌, ◌+◌, ◌≡◌, ◌≡◌}
use hioload_ws.Prelude.{[], get_elem?, ◌++◌, ◌++◌, ◌∷◌}
use hioload_ws.Prelude.{List, replicate}
use hioload_ws.Prelude.{ℕ}

abbrev pub total : (ℕ → ℕ) → List ℕ → ℕ
total w [] = 0
total w (t ∷ ts) = w t + total w ts

abbrev pub queued : (ℕ → ℕ) → List (List ℕ) → ℕ
queued w [] = 0
queued w (q ∷ qs) = total w q + queued w qs

module _ (w : ℕ → ℕ) where
  pub total-append : (xs ys : List ℕ) → total w (xs ++ ys) ≡ total w xs + total w ys
  total-append [] ys = omega arith
  total-append (x ∷ xs) ys = omega (arith, total-append xs ys)

  pub queued-append : (xs ys : List (List ℕ)) → queued w (xs ++ ys) ≡ queued w xs + queued w ys
  queued-append [] ys = omega arith
  queued-append (x ∷ xs) ys = omega (arith, queued-append xs ys)

  pub queued-replicate : (n : ℕ) → queued w (replicate n []) ≡ 0
  queued-replicate zero = refl
  queued-replicate (suc n) = omega (arith, queued-replicate n)

  -- One queue changes.
  pub queued-set :
      (qs : List (List ℕ)) (a : ℕ) (p q : List ℕ)
      → get_elem? qs a ≡ some p
      → queued w (set qs a q) + total w p ≡ queued w qs + total w q
  queued-set [] a p q e = grind (arith, e)
  queued-set (z ∷ qs) zero p q e =
      let same : total w z ≡ total w p = ap (total w) (some-injective z p e) in omega (arith, same)
  queued-set (z ∷ qs) (suc a) p q e = omega (arith, queued-set qs a p q e)
