-- ===== src/Session/Context/Laws.antt =====
-- What `Get` finds after the other operations.
use hioload_ws.Prelude.{
  ◌∙◌, ◌≡◌, ◌≢◌, Bool, Option-cases, ap, if◌then◌else◌, inl, inr, none, refl, some,
}
use hioload_ws.Prelude.Int.{◌+ℤ◌, ltb_ℤ, ℤ}
use hioload_ws.Session.Context.{
  ContextStore, Entry, delete_key, expire_at, get_value, is_marked, is_propagated, live_value,
  set_value, with_expiration,
}
use hioload_ws.Session.Map.{Key, find, find-remove, find-remove_ne, find-store_at, find-store_at_ne}

module _ {V : Type 0} where
  -- After `Set`, `Get` finds the value at any time, also where the key had expired before, and
  -- `IsPropagated` tells the flag.
  pub get_value-set_value :
      (now : ℤ) (c : ContextStore V) (key : Key) (v : V) (flag : Bool)
      → (get_value now (set_value c key v flag) key ≡ some v)
        × (is_propagated (set_value c key v flag) key ≡ flag)
  unfolding get_value is_propagated
  get_value-set_value now c key v flag =
      (ap (live_value now) (find-store_at c key _), ap is_marked (find-store_at c key _))

  -- A key that the three writing operations do not name is found as before.
  pub get_value_others :
      (now later ttl : ℤ) (c : ContextStore V) (key other : Key) (v : V) (flag : Bool)
      → key ≢ other
      → (get_value later (set_value c key v flag) other ≡ get_value later c other)
        × (get_value later (delete_key c key) other ≡ get_value later c other)
        × (get_value later (with_expiration now c key ttl) other ≡ get_value later c other)
  unfolding get_value with_expiration
  get_value_others now later ttl c key other v flag ne = (
    ap (live_value later) (find-store_at_ne c key other _ ne),
    ap (live_value later) (find-remove_ne c key other ne),
    ap (live_value later) (elim (Option-cases (find c key)) [
      | inl missing ↦ rw missing refl
      | inr (e, found) ↦ rw found (find-store_at_ne c key other _ ne)
    ]),
  )

  pub get_value-delete_key :
      (now : ℤ) (c : ContextStore V) (key : Key) → get_value now (delete_key c key) key ≡ none
  unfolding get_value
  get_value-delete_key now c key = ap (live_value now) (find-remove c key)

  -- A key that has a value keeps it until the time to live has passed, and not after: `Get` at the
  -- time `later` finds it exactly where `later` is not after the end.
  pub get_value-with_expiration :
      (now later ttl : ℤ) (c : ContextStore V) (key : Key) (e : Entry V)
      → find c key ≡ some e
      → get_value later (with_expiration now c key ttl) key
        ≡ (if ltb_ℤ (now +ℤ ttl) later then none else some e.value)
  unfolding get_value with_expiration
  get_value-with_expiration now later ttl c key e found =
      ap (λ o. live_value later (find (expire_at c key (now +ℤ ttl) o) key)) found
      ∙ ap (live_value later) (find-store_at c key _)
