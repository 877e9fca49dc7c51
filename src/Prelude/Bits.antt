-- ===== src/Prelude/Bits.antt =====
-- Masks on one byte as arithmetic, and xor of bytes; each is a table checked by evaluation.
use Prim.Native.Nat.{◌%◌, ◌*◌, ◌+◌, ◌/◌, ◌<◌, bit_and, bit_or, suc, zero, ℕ}
use mathlib.Core.Bool.{Bool, false, true}
use mathlib.Core.Logic.{ite}
use mathlib.Core.Path.{◌≡◌, refl}
use native.Mathlib.Decide.{ℕ_discrete}
use native.Mathlib.Omega.{arith}

module _ (f g : ℕ → ℕ) where
  unfoldable pub agree_below : ℕ → Bool
  unfolding ℕ_discrete
  agree_below zero = true
  agree_below (suc n) = ite (ℕ_discrete (f n) (g n)) (agree_below n) false

  pub agree_below→eq : (n : ℕ) → agree_below n ≡ true → (i : ℕ) → i < n → f i ≡ g i
  unfolding agree_below
  agree_below→eq zero e i h = absurd (omega arith)
  agree_below→eq (suc n) e i h = ground (arith, agree_below→eq n (ground arith) i)

pub bit_and-0x7f : (b : ℕ) → b < 256 → bit_and b 0x7f ≡ b % 128
unfolding agree_below
bit_and-0x7f = agree_below→eq _ _ 256 refl

pub bit_and-0x80 : (b : ℕ) → b < 256 → bit_and b 0x80 ≡ b / 128 * 128
unfolding agree_below
bit_and-0x80 = agree_below→eq _ _ 256 refl

pub bit_and-0x0f : (b : ℕ) → b < 256 → bit_and b 0x0f ≡ b % 16
unfolding agree_below
bit_and-0x0f = agree_below→eq _ _ 256 refl

pub bit_or-0x80 : (b : ℕ) → b < 128 → bit_or b 0x80 ≡ b + 128
unfolding agree_below
bit_or-0x80 = agree_below→eq _ _ 128 refl

pub set_top_bit_lem : (b : ℕ) → b < 128 → bit_or 0x80 b ≡ b + 128
unfolding agree_below
set_top_bit_lem = agree_below→eq _ _ 128 refl

pub zero-bit_or : (b : ℕ) → b < 256 → bit_or 0 b ≡ b
unfolding agree_below
zero-bit_or = agree_below→eq _ _ 256 refl
