-- ===== src/Concurrency/Queue/Contents.antt =====
-- What a `LockFreeQueue` holds: a first-in first-out list of at most as many items as it has cells.
use native.Mathlib.Nat.{add-mod_right, mod-lt, one-le-pow, pow-le-pow_right}
use hioload_ws.Prelude.{
  ◌%◌, ◌++◌, ◌+◌, ◌-◌, ◌<◌, ◌^◌, ◌∙◌, ◌∷◌, ◌≡◌, ◌≤◌, List, [], ap, ap₂, arith, bit_and, get_elem?,
  get_elem?-lt, get_elem?-set_ne, get_elem?-set_self, get_elem?-snoc, get_elem?-some, inl, inr,
  length, length-append, length-set, refl, some, suc, ℕ,
}
use hioload_ws.Prelude.Mod.{bit_and-mask, le_or_lt, mod-ne, mod_pow_le, window-ne}
use hioload_ws.Concurrency.Queue.{Cell, LockFreeQueue, add_uint64, dif, free_cell, write_cell}

-- `h` items were taken before, uint64 counters not wrapped. The cells from `h` on hold the items,
-- each under the sequence number its reader waits for; the others wait for their writer.
pub record Holds {A : Type 0} (q : LockFreeQueue A) (xs : List A) (k h : ℕ) : Type 0 where
  pub small : k ≤ 62
  pub two_cells : 1 ≤ k
  pub mask_value : q.mask ≡ 2 ^ k - 1
  pub cell_count : length q.cells ≡ 2 ^ k
  pub fits : length xs ≤ 2 ^ k
  pub head_value : q.head ≡ h % 2 ^ 64
  pub tail_value : q.tail ≡ (h + length xs) % 2 ^ 64
  pub full :
      (j : ℕ) (x : A)
      → get_elem? xs j ≡ some x
      → get_elem? q.cells ((h + j) % 2 ^ k)
        ≡ some (record { sequence = (h + j + 1) % 2 ^ 64; data_of = x })
  pub free :
      (j : ℕ)
      → length xs ≤ j
      → j < 2 ^ k
      → (x : A) × (get_elem? q.cells ((h + j) % 2 ^ k)
          ≡ some (record { sequence = (h + j) % 2 ^ 64; data_of = x }))

-- The queue holds `xs`, in `2 ^ k` cells.
abbrev pub Queues : {A : Type 0} → LockFreeQueue A → List A → ℕ → Type 0
Queues q xs k = (h : ℕ) × Holds q xs k h

module _ {A : Type 0} where
  -- Where `tail` and `head` point to.
  pub tail_index :
      (q : LockFreeQueue A) (xs : List A) (k h : ℕ)
      → Holds q xs k h
      → bit_and q.tail q.mask ≡ (h + length xs) % 2 ^ k
  tail_index q xs k h r =
      ap₂ bit_and r.tail_value r.mask_value
      ∙ bit_and-mask k _
      ∙ mod_pow_le k 64 _ (omega (arith, r.small))

  pub head_index :
      (q : LockFreeQueue A) (xs : List A) (k h : ℕ)
      → Holds q xs k h
      → bit_and q.head q.mask ≡ h % 2 ^ k
  head_index q xs k h r =
      ap₂ bit_and r.head_value r.mask_value
      ∙ bit_and-mask k _
      ∙ mod_pow_le k 64 _ (omega (arith, r.small))

  pub write_cell-Holds :
      (q : LockFreeQueue A) (xs : List A) (k h : ℕ) (val : A)
      → Holds q xs k h
      → length xs < 2 ^ k
      → Holds (write_cell q ((h + length xs) % 2 ^ k) val) (xs ++ (val ∷ [])) k h
  write_cell-Holds q xs k h val r room = record {
    small = r.small;
    two_cells = r.two_cells;
    mask_value = r.mask_value;
    cell_count = length-set q.cells ((h + length xs) % 2 ^ k) _ ∙ r.cell_count;
    fits = omega (arith, length-append xs (val ∷ []));
    head_value = r.head_value;
    tail_value =
        ap (λ (x : ℕ). add_uint64 x 1) r.tail_value ∙ omega (arith, length-append xs (val ∷ []));
    full = λ j x e. elim (get_elem?-snoc xs val j x e) [
      | inl e' ↦
          get_elem?-set_ne q.cells _ (
            window-ne (2 ^ k) h (length xs) j room (omega (arith, get_elem?-lt xs j x e'))
              (omega (arith, get_elem?-lt xs j x e')))
          ∙ r.full j x e'
      | inr (e', v) ↦
          ap
            (λ (i : ℕ).
              get_elem? (write_cell q ((h + length xs) % 2 ^ k) val).cells ((h + i) % 2 ^ k))
            e'
          ∙ get_elem?-set_self q.cells ((h + length xs) % 2 ^ k) _ (
              omega (
                arith,
                r.cell_count,
                mod-lt (h + length xs) {m = 2 ^ k} (one-le-pow k 2 (omega arith)),
              ))
          ∙ ap₂ (λ (s : ℕ) (y : A). some (record { sequence = s; data_of = y }))
              (ap (λ (x : ℕ). add_uint64 x 1) r.tail_value ∙ omega (arith, e')) v
    ];
    free = λ j lo hi.
        let (x, e) = r.free j (omega (arith, length-append xs (val ∷ []))) hi in
        (
          x,
          get_elem?-set_ne q.cells _ (
                window-ne (2 ^ k) h (length xs) j room hi
                  (omega (arith, length-append xs (val ∷ []))))
              ∙ e,
        );
  }

  pub tail_cell :
      (q : LockFreeQueue A) (xs : List A) (k h : ℕ)
      → Holds q xs k h
      → length xs < 2 ^ k
      → (c : Cell A) × (get_elem? q.cells (bit_and q.tail q.mask) ≡ some c)
        × (dif c.sequence q.tail ≡ 0)
  tail_cell q xs k h r room =
      let (x, e) = r.free (length xs) (omega arith) room in
      (
        record { sequence = (h + length xs) % 2 ^ 64; data_of = x },
        ap (get_elem? q.cells) (tail_index q xs k h r) ∙ e,
        omega (arith, r.tail_value),
      )

  pub full_cell :
      (q : LockFreeQueue A) (xs : List A) (k h : ℕ)
      → Holds q xs k h
      → length xs ≡ 2 ^ k
      → (c : Cell A) × (get_elem? q.cells (bit_and q.tail q.mask) ≡ some c)
        × (2 ^ 63 ≤ dif c.sequence q.tail)
  full_cell q xs k h r all =
      let (x, e) = get_elem?-some xs 0 (omega (arith, one-le-pow k 2)) in
      (
        record { sequence = (h + 0 + 1) % 2 ^ 64; data_of = x },
        ap (get_elem? q.cells) (
              tail_index q xs k h r
              ∙ ap (λ (i : ℕ). (h + i) % 2 ^ k) all
              ∙ add-mod_right h (2 ^ k)
              ∙ ap (λ (i : ℕ). i % 2 ^ k) (omega arith))
            ∙ r.full 0 x e,
        omega (
          arith,
          r.tail_value,
          pow-le-pow_right {n = 2} (omega arith) {i = 1} {j = k} r.two_cells,
          pow-le-pow_right {n = 2} (omega arith) {i = k} {j = 62} r.small,
        ),
      )

  pub head_cell :
      (q : LockFreeQueue A) (x : A) (xs : List A) (k h : ℕ)
      → Holds q (x ∷ xs) k h
      → (get_elem? q.cells (bit_and q.head q.mask)
          ≡ some (record { sequence = (h + 0 + 1) % 2 ^ 64; data_of = x }))
        × (dif ((h + 0 + 1) % 2 ^ 64) (add_uint64 q.head 1) ≡ 0)
  head_cell q x xs k h r = (
    ap (get_elem? q.cells) (head_index q (x ∷ xs) k h r ∙ ap (λ (i : ℕ). i % 2 ^ k) (omega arith))
        ∙ r.full 0 x refl,
    omega (arith, r.head_value),
  )

  pub empty_cell :
      (q : LockFreeQueue A) (k h : ℕ)
      → Holds q [] k h
      → (c : Cell A) × (get_elem? q.cells (bit_and q.head q.mask) ≡ some c)
        × (2 ^ 63 ≤ dif c.sequence (add_uint64 q.head 1))
  empty_cell q k h r =
      let (x, e) = r.free 0 (omega arith) (omega (arith, one-le-pow k 2)) in
      (
        record { sequence = (h + 0) % 2 ^ 64; data_of = x },
        ap (get_elem? q.cells) (head_index q [] k h r ∙ ap (λ (i : ℕ). i % 2 ^ k) (omega arith))
            ∙ e,
        omega (arith, r.head_value),
      )

  free_cell-others :
      (q : LockFreeQueue A) (x : A) (k h j : ℕ) {i : ℕ}
      → i ≡ h + j
      → 0 < j
      → j < 2 ^ k
      → get_elem? (free_cell q (h % 2 ^ k) x).cells (i % 2 ^ k)
        ≡ get_elem? q.cells ((h + j) % 2 ^ k)
  free_cell-others q x k h j e lo hi =
      ap (λ (i : ℕ). get_elem? (free_cell q (h % 2 ^ k) x).cells (i % 2 ^ k)) e
      ∙ get_elem?-set_ne q.cells _ (mod-ne (2 ^ k) h j lo hi)

  freed_cell :
      (q : LockFreeQueue A) (x : A) (xs : List A) (k h j : ℕ)
      → Holds q (x ∷ xs) k h
      → suc j ≡ 2 ^ k
      → get_elem? (free_cell q (h % 2 ^ k) x).cells ((h + 1 + j) % 2 ^ k)
        ≡ some (record { sequence = (h + 1 + j) % 2 ^ 64; data_of = x })
  freed_cell q x xs k h j r e =
      ap (get_elem? (free_cell q (h % 2 ^ k) x).cells)
        (ap (λ (i : ℕ). i % 2 ^ k) (omega (arith, e)) ∙ add-mod_right h (2 ^ k))
      ∙ get_elem?-set_self q.cells (h % 2 ^ k) _
          (omega (arith, r.cell_count, mod-lt h {m = 2 ^ k} (one-le-pow k 2 (omega arith))))
      ∙ ap (λ (s : ℕ). some (record { sequence = s; data_of = x }))
          (omega (arith, e, r.head_value, r.mask_value))

  pub free_cell-Holds :
      (q : LockFreeQueue A) (x : A) (xs : List A) (k h : ℕ)
      → Holds q (x ∷ xs) k h
      → Holds (free_cell q (h % 2 ^ k) x) xs k (h + 1)
  free_cell-Holds q x xs k h r = record {
    small = r.small;
    two_cells = r.two_cells;
    mask_value = r.mask_value;
    cell_count = length-set q.cells (h % 2 ^ k) _ ∙ r.cell_count;
    fits = omega (arith, r.fits);
    head_value = omega (arith, r.head_value);
    tail_value = r.tail_value ∙ omega arith;
    full = λ j y e.
        free_cell-others q x k h (suc j) (omega arith) (omega arith)
          (omega (arith, r.fits, get_elem?-lt xs j y e))
        ∙ r.full (suc j) y e
        ∙ ap (λ (s : ℕ). some (record { sequence = s; data_of = y })) (omega arith);
    free = λ j lo hi. elim (le_or_lt (2 ^ k) (suc j)) [
      | inl last ↦ (x, freed_cell q x xs k h j r (omega arith))
      | inr before ↦
          let (y, e) = r.free (suc j) (omega arith) before in
          (
            y,
            free_cell-others q x k h (suc j) (omega arith) (omega arith) before
                ∙ e
                ∙ ap (λ (s : ℕ). some (record { sequence = s; data_of = y })) (omega arith),
          )
    ];
  }
