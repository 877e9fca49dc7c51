-- ===== src/Concurrency/Queue/New.antt =====
-- The sizes that `NewLockFreeQueue` chooses, and what the new queue holds.
use native.Mathlib.Nat.{mod-eq_of_lt, pow-le-pow_right, pow-suc}
use hioload_ws.Prelude.{
  ◌%◌, ◌*◌, ◌+◌, ◌-◌, ◌<◌, ◌^◌, ◌∙◌, ◌≡◌, ◌≤◌, [], ap, arith, get_elem?, if◌then◌else◌, inl, inr,
  length, refl, some, suc, zero, ℕ,
}
use hioload_ws.Prelude.Int.{ltb_ℤ, negsuc, pos, pos_part, ℤ}
use hioload_ws.Prelude.Mod.{le_or_lt}
use hioload_ws.Concurrency.Queue.{
  LockFreeQueue, cells_from, done, new_lock_free_queue, round_up, with_size,
}
use hioload_ws.Concurrency.Queue.Contents.{Holds, Queues}

pow_small : (j : ℕ) → 2 ^ j < 2 ^ 63 → j ≤ 62
pow_small j h = elim (le_or_lt j 62) [
  | inl small ↦ small
  | inr big ↦ absurd (omega (arith, pow-le-pow_right {n = 2} (omega arith) {i = 63} {j = j} big))
]

round_up-double :
    (fuel j capacity : ℕ)
    → 2 ^ j < capacity
    → capacity ≤ 2 ^ 62
    → round_up (suc fuel) (2 ^ j) capacity ≡ round_up fuel (2 ^ suc j) capacity
unfolding round_up
round_up-double fuel j capacity less hc =
    the_rest ∙ ap (λ (s : ℕ). round_up fuel s capacity) (omega (arith, pow-suc 2 j))
  where
    the_rest : round_up (suc fuel) (2 ^ j) capacity ≡ round_up fuel (2 ^ j * 2 % 2 ^ 64) capacity
    the_rest = ground arith

-- The size is the first power of two that reaches the capacity, from `2 ^ j` on.
round_up-pow :
    (fuel j capacity : ℕ)
    → 62 < j + fuel
    → 2 ^ j < 2 * capacity
    → capacity ≤ 2 ^ 62
    → (k : ℕ) × (round_up fuel (2 ^ j) capacity ≡ done (2 ^ k))
      × (k ≤ 62)
      × (capacity ≤ 2 ^ k)
      × (2 ^ k < 2 * capacity)
unfolding round_up
round_up-pow zero j capacity hf hj hc =
    absurd (omega (arith, pow-le-pow_right {n = 2} (omega arith) {i = 63} {j = j} (omega arith)))
round_up-pow (suc fuel) j capacity hf hj hc = elim (le_or_lt capacity (2 ^ j)) [
  | inl reached ↦ (j, ground arith, pow_small j (omega arith), reached, hj)
  | inr less ↦
      let small = pow_small (suc j) (omega (arith, pow-suc 2 j)) in
      let (k, e, a, b, c) =
        round_up-pow fuel (suc j) capacity (omega arith) (omega (arith, pow-suc 2 j)) hc in
      (k, round_up-double fuel j capacity less hc ∙ e, a, b, c)
]

get_elem?-cells_from :
    {A : Type 0} (z : A) (i n j : ℕ)
    → j < n
    → get_elem? (cells_from z i n) j ≡ some (record { sequence = i + j; data_of = z })
get_elem?-cells_from z i zero j h = absurd (omega arith)
get_elem?-cells_from z i (suc n) zero h =
    ap (λ (s : ℕ). some (record { sequence = s; data_of = z })) (omega arith)
get_elem?-cells_from z i (suc n) (suc j) h =
    get_elem?-cells_from z (i + 1) n j (omega arith)
    ∙ ap (λ (s : ℕ). some (record { sequence = s; data_of = z })) (omega arith)

length-cells_from : {A : Type 0} (z : A) (i n : ℕ) → length (cells_from z i n) ≡ n
length-cells_from z i zero = refl
length-cells_from z i (suc n) = ap suc (length-cells_from z (i + 1) n)

pub cells_from-Holds :
    {A : Type 0} (z : A) (k : ℕ)
    → 1 ≤ k
    → k ≤ 62
    → Holds (record { head = 0; tail = 0; mask = 2 ^ k - 1; cells = cells_from z 0 (2 ^ k) }) [] k 0
cells_from-Holds z k lo hi = record {
  small = hi;
  two_cells = lo;
  mask_value = refl;
  cell_count = length-cells_from z 0 (2 ^ k);
  fits = omega arith;
  head_value = refl;
  tail_value = refl;
  full = λ j x e. grind (arith, e);
  free = λ j h h'. (
    z,
    ap (get_elem? (cells_from z 0 (2 ^ k)))
          (ap (λ (i : ℕ). i % 2 ^ k) (omega arith) ∙ mod-eq_of_lt {n = j} {m = 2 ^ k} h')
        ∙ get_elem?-cells_from z 0 (2 ^ k) j h'
        ∙ ap (λ (s : ℕ). some (record { sequence = s; data_of = z }))
            (omega (arith, pow-le-pow_right {n = 2} (omega arith) {i = k} {j = 62} hi)),
  );
}

-- The capacity that `NewLockFreeQueue` works with.
abbrev pub at_least_two : ℤ → ℕ
at_least_two capacity = if ltb_ℤ capacity (pos 2) then 2 else pos_part capacity

pub at_least_two_le : (capacity : ℤ) → 2 ≤ at_least_two capacity
at_least_two_le (pos n) = ground arith
at_least_two_le (negsuc n) = ground arith

at_least_one_bit : (capacity : ℤ) (k : ℕ) → at_least_two capacity ≤ 2 ^ k → 1 ≤ k
at_least_one_bit capacity zero h = absurd (omega (arith, at_least_two_le capacity))
at_least_one_bit capacity (suc k) h = omega arith

-- For a capacity up to 2 ^ 62, `NewLockFreeQueue` returns an empty queue. Its size is a power of two,
-- reaches the capacity (2 where that is less), and is less than twice that.
pub new_lock_free_queue_lem :
    {A : Type 0} (z : A) (capacity : ℤ)
    → at_least_two capacity ≤ 2 ^ 62
    → (q : LockFreeQueue A) × (k : ℕ) × (new_lock_free_queue z capacity ≡ done q)
      × Queues q [] k
      × (at_least_two capacity ≤ 2 ^ k)
      × (2 ^ k < 2 * at_least_two capacity)
unfolding new_lock_free_queue
new_lock_free_queue_lem z capacity h =
    let (k, e, small, reaches, close) =
      round_up-pow 64 0 (at_least_two capacity) (omega arith)
        (omega (arith, at_least_two_le capacity)) h in
    (
      record { head = 0; tail = 0; mask = 2 ^ k - 1; cells = cells_from z 0 (2 ^ k) },
      k,
      ap (with_size z) e,
      (0, cells_from-Holds z k (at_least_one_bit capacity k reaches) small),
      reaches,
      close,
    )
