-- ===== src/Session/Context.antt =====
-- `contextStore` of internal/session/context_store.go. A time is a number of nanoseconds, and the
-- zero `time.Time` is `none`; `time.Now()` is an argument.
pub mod Laws
use hioload_ws.Prelude.{
  ◌∷◌, Bool, List, Option, [], false, if◌then◌else◌, none, refl, some, suc, true, zero, ℕ,
}
use hioload_ws.Prelude.Int.{◌+ℤ◌, ltb_ℤ, ℤ}
use hioload_ws.Session.Map.{Key, find, remove, store_at}

pub record Entry (V : Type 0) : Type 0 where
  pub value : V
  pub propagated : Bool
  pub expiry : Option ℤ

abbrev pub ContextStore : Type 0 → Type 0
ContextStore V = List (Key × Entry V)

-- `!e.expiry.IsZero() && now.After(e.expiry)`
abbrev pub has_expired : ℤ → Option ℤ → Bool
has_expired now none = false
has_expired now (some t) = ltb_ℤ t now

-- `v.expiry.IsZero() || v.expiry.After(now)`
abbrev pub is_listed : ℤ → Option ℤ → Bool
is_listed now none = true
is_listed now (some t) = ltb_ℤ now t

module _ {V : Type 0} where
  -- `NewContextStore`
  abbrev pub new_context_store : ContextStore V
  new_context_store = []

  -- `Set`
  abbrev pub set_value : ContextStore V → Key → V → Bool → ContextStore V
  set_value c key v propagated =
      store_at c key (record { value = v; propagated = propagated; expiry = none })

  abbrev pub live_value : ℤ → Option (Entry V) → Option V
  live_value now none = none
  live_value now (some e) = if has_expired now e.expiry then none else some e.value

  -- `Get`
  unfoldable pub get_value : ℤ → ContextStore V → Key → Option V
  get_value now c key = live_value now (find c key)

  -- `Delete`
  abbrev pub delete_key : ContextStore V → Key → ContextStore V
  delete_key c key = remove c key

  -- `Clone`
  abbrev pub clone : ContextStore V → ContextStore V
  clone [] = []
  clone ((key, e) ∷ c) = (key, e) ∷ clone c

  abbrev pub expire_at : ContextStore V → Key → ℤ → Option (Entry V) → ContextStore V
  expire_at c key t none = c
  expire_at c key t (some e) = store_at c key (record e { expiry = some t })

  -- `WithExpiration`, at the time `now`.
  unfoldable pub with_expiration : ℤ → ContextStore V → Key → ℤ → ContextStore V
  with_expiration now c key ttl = expire_at c key (now +ℤ ttl) (find c key)

  abbrev pub is_marked : Option (Entry V) → Bool
  is_marked none = false
  is_marked (some e) = e.propagated

  -- `IsPropagated`
  unfoldable pub is_propagated : ContextStore V → Key → Bool
  is_propagated c key = is_marked (find c key)

  -- `Keys`
  unfoldable pub keys : ℤ → ContextStore V → List Key
  keys now [] = []
  keys now ((key, e) ∷ c) =
      let rest = keys now c in if is_listed now e.expiry then key ∷ rest else rest
