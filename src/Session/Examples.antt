-- ===== src/Session/Examples.antt =====
-- A store of one key and a manager of four shards, and the theorems at them.
use hioload_ws.Prelude.{◌∷◌, ◌≡◌, ◌≢◌, [], arith, refl, replicate, some, true, ℕ}
use hioload_ws.Prelude.Int.{pos}
use hioload_ws.Session.Context.{ContextStore}
use hioload_ws.Session.Manager.{
  SessionManager, get, new_session, new_session_manager, next_power_of_two,
}
use hioload_ws.Session.Map.{Key}

abbrev user : Key
user = 117 ∷ []

abbrev room : Key
room = 114 ∷ []

abbrev one_entry : ContextStore ℕ
one_entry = (user, record { value = 7; propagated = true; expiry = some (pos 10) }) ∷ []

user-ne-room : user ≢ room
user-ne-room e = grind (arith, e)

-- A hash for the examples.
abbrev first_byte_of : Key → ℕ
first_byte_of [] = 0
first_byte_of (b ∷ bs) = b

abbrev four_shards : SessionManager
four_shards = record { shards = replicate 4 []; mask = 3; heap = [] }

four_shards_new : new_session_manager (pos 3) ≡ four_shards
unfolding new_session_manager next_power_of_two
four_shards_new = refl

abbrev with_user : SessionManager
with_user = record {
  shards = [] ∷ ((user, 0) ∷ []) ∷ [] ∷ [] ∷ [];
  mask = 3;
  heap = new_session user ∷ [];
}

with_user_found : get first_byte_of with_user user ≡ some (some 0)
unfolding get
with_user_found = refl
