-- ===== src/Prelude/Mod.antt =====
-- Indices into an array whose size is a power of two: a mask as a remainder, and windows of indices.
use Prim.Native.Nat.{
  ◌%◌, ◌*◌, ◌+◌, ◌-◌, ◌/◌, ◌<◌, ◌^◌, ◌≤◌, bit_and, bit_and-bitwise, digits, min, suc, zero, ℕ,
}
use mathlib.Core.Logic.{◌≢◌, ◌⊎◌, inl, inr}
use mathlib.Core.Path.{◌∙◌, ◌≡◌, ap, subst, sym}
use native.Mathlib.Nat.{
  div-add-mod, dvd-mul_right, mod-eq_of_lt, mod-lt, mod-mod_of_dvd, mul-add-mod_self_left,
  mul-le-mul_left, mul_assoc, one-le-pow, pow-suc, pow-succ',
}
use native.Mathlib.Omega.{arith}

-- One binary digit more.
double_mod_lem : (p a : ℕ) → 0 < p → a / 2 % p * 2 + a % 2 ≡ a % (2 * p)
double_mod_lem p a h =
    sym (
      mod-eq_of_lt {n = a / 2 % p * 2 + a % 2} {m = 2 * p}
        (omega (arith, mod-lt (a / 2) {m = p} h)))
    ∙ sym (mul-add-mod_self_left (2 * p) (a / 2 / p) (a / 2 % p * 2 + a % 2))
    ∙ ap (λ x. x % (2 * p)) whole
  where
    whole : 2 * p * (a / 2 / p) + (a / 2 % p * 2 + a % 2) ≡ a
    whole = omega (arith, div-add-mod (a / 2) p)

-- `bit_and` recurs on the binary digits of its first argument.
low_digits : (k n a : ℕ) → a ≤ n → digits (λ b. 0) min n a (2 ^ k - 1) ≡ a % 2 ^ k
low_digits k zero zero h = sym (mod-eq_of_lt {n = 0} {m = 2 ^ k} (one-le-pow k 2 (omega arith)))
low_digits k zero (suc a) h = absurd (omega arith)
low_digits k (suc n) zero h = sym (mod-eq_of_lt {n = 0} {m = 2 ^ k} (one-le-pow k 2 (omega arith)))
low_digits zero (suc n) (suc a) h = omega (arith, low_digits zero n (suc a / 2) (omega arith))
low_digits (suc k) (suc n) (suc a) h = omega (
  arith,
  ap (λ (x : ℕ). digits (λ b. 0) min n (suc a / 2) x) half
      ∙ low_digits k n (suc a / 2) (omega arith),
  half,
  pow-suc 2 k,
  one-le-pow k 2,
  ap (λ (x : ℕ). suc a % x) (pow-succ' 2 k),
  double_mod_lem (2 ^ k) (suc a) (one-le-pow k 2 (omega arith)),
)
  where
    half : (2 ^ suc k - 1) / 2 ≡ 2 ^ k - 1
    half = omega (arith, pow-suc 2 k)

pub bit_and-mask : (k a : ℕ) → bit_and a (2 ^ k - 1) ≡ a % 2 ^ k
bit_and-mask k a = bit_and-bitwise a (2 ^ k - 1) ∙ low_digits k a a (omega arith)

pub le_or_lt : (a b : ℕ) → (a ≤ b) ⊎ (suc b ≤ a)
le_or_lt a b = ground arith

-- Two indices less than the size apart lie in different places.
pub mod-ne : (n a d : ℕ) → 0 < d → d < n → a % n ≢ (a + d) % n
mod-ne n a d hd hn e = elim (le_or_lt ((a + d) / n) (a / n)) [
  | inl h ↦ omega (arith, div-add-mod a n, div-add-mod (a + d) n, mul-le-mul_left n h)
  | inr h ↦ omega (arith, div-add-mod a n, div-add-mod (a + d) n, mul-le-mul_left n h)
]

pow_split : (k j : ℕ) → 2 ^ (k + j) ≡ 2 ^ k * 2 ^ j
pow_split k zero = omega (arith, grow)
  where
    grow : 2 ^ (k + 0) ≡ 2 ^ k
    grow = ap (λ (x : ℕ). 2 ^ x) (omega arith)
pow_split k (suc j) =
    ap (λ (x : ℕ). 2 ^ x) (omega arith)
    ∙ pow-suc 2 (k + j)
    ∙ ap (λ (x : ℕ). x * 2) (pow_split k j)
    ∙ mul_assoc (2 ^ k) (2 ^ j) 2
    ∙ ap (λ (x : ℕ). 2 ^ k * x) (sym (pow-suc 2 j))

pub mod_pow_le : (k m a : ℕ) → k ≤ m → a % 2 ^ m % 2 ^ k ≡ a % 2 ^ k
mod_pow_le k m a h =
    subst (λ (x : ℕ). a % x % 2 ^ k ≡ a % 2 ^ k)
      (sym (pow_split k (m - k)) ∙ ap (λ (x : ℕ). 2 ^ x) (omega arith))
      (mod-mod_of_dvd (2 ^ k) a (dvd-mul_right (2 ^ k) (2 ^ (m - k))))

pub window-ne : (n a i j : ℕ) → i < n → j < n → i ≢ j → (a + i) % n ≢ (a + j) % n
window-ne n a i j hi hj ne e = elim (le_or_lt (suc i) j) [
  | inl h ↦
      mod-ne n (a + i) (j - i) (omega arith) (omega arith) (e ∙ ap (λ (x : ℕ). x % n) (omega arith))
  | inr h ↦
      mod-ne n (a + j) (i - j) (omega arith) (omega arith)
        (sym e ∙ ap (λ (x : ℕ). x % n) (omega arith))
]

digits-le : (n a b : ℕ) → digits (λ b. 0) min n a b ≤ b
digits-le zero a b = omega arith
digits-le (suc n) zero b = omega arith
digits-le (suc n) (suc a) b = omega (arith, digits-le n (suc a / 2) (b / 2))

pub bit_and-le : (a b : ℕ) → bit_and a b ≤ b
bit_and-le a b = subst (λ (x : ℕ). x ≤ b) (sym (bit_and-bitwise a b)) (digits-le a a b)
