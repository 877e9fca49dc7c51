-- ===== src/Session/Manager.antt =====
-- `sessionImpl` of internal/session/session.go and the sharded `sessionManager` of
-- internal/session/store.go. Sessions are shared by pointer: they stand in `heap`, and a pointer is a
-- place in it. `hash` is FNV-1a of package hash/fnv on 32 bits, of which nothing is used.
pub mod Shards
pub mod Lifecycle
use hioload_ws.Prelude.{
  ◌%◌, ◌++◌, ◌+◌, ◌-◌, ◌/◌, ◌^◌, ◌∷◌, Bool, List, Option, [], bit_and, bit_or, false, get_elem?,
  if◌then◌else◌, length, map, none, not, refl, replicate, set, some, suc, true, zero, ℕ,
}
use hioload_ws.Prelude.Int.{ltb_ℤ, pos, pos_part, ℤ}
use hioload_ws.Session.Map.{Key, find, remove, store_at}

pub record Session : Type 0 where
  pub id : Key
  pub cancelled : Bool
  pub deadline : Option ℤ

-- `newSession`; the context store is empty.
abbrev pub new_session : Key → Session
new_session id = record { id = id; cancelled = false; deadline = none }

-- `Cancel`: `done` is closed once.
abbrev pub cancel : Session → Session
cancel s = record s { cancelled = true }

-- `WithDeadline` and `Deadline`
abbrev pub with_deadline : Session → Option ℤ → Session
with_deadline s t = record s { deadline = t }

abbrev pub deadline_of : Session → Option ℤ
deadline_of s = s.deadline

abbrev pub Shard : Type 0
Shard = List (Key × ℕ)

pub record SessionManager : Type 0 where
  pub shards : List Shard
  pub mask : ℕ
  pub heap : List Session

-- `nextPowerOfTwo` on uint32
unfoldable pub next_power_of_two : ℕ → ℕ
next_power_of_two v =
    let a = (v + 2 ^ 32 - 1) % 2 ^ 32 in
    let b = bit_or a (a / 2 ^ 1) in
    let c = bit_or b (b / 2 ^ 2) in
    let d = bit_or c (c / 2 ^ 4) in
    let e = bit_or d (d / 2 ^ 8) in let f = bit_or e (e / 2 ^ 16) in (f + 1) % 2 ^ 32

-- `NewSessionManager`, for a count below 2 ^ 32.
unfoldable pub new_session_manager : ℤ → SessionManager
new_session_manager shard_count =
    let m =
      next_power_of_two (if not (ltb_ℤ (pos 0) shard_count) then 16 else pos_part shard_count) in
    record { shards = replicate m []; mask = (m + 2 ^ 32 - 1) % 2 ^ 32; heap = [] }

abbrev pub get_at : Key → Option Shard → Option (Option ℕ)
get_at id none = none
get_at id (some sh) = some (find sh id)

abbrev pub cancel_at : List Session → ℕ → Option Session → List Session
cancel_at heap s none = heap
cancel_at heap s (some x) = set heap s (cancel x)

module _ (hash : Key → ℕ) where
  -- `shard`: the place of the shard of an id.
  abbrev pub shard_index : SessionManager → Key → ℕ
  shard_index m id = bit_and (hash id) m.mask

  abbrev pub put_shard : SessionManager → Key → Shard → SessionManager
  put_shard m id sh = record m { shards = set m.shards (shard_index m id) sh }

  abbrev pub create_in : SessionManager → Key → Shard → Option ℕ → SessionManager × ℕ
  create_in m id sh (some s) = (m, s)
  create_in m id sh none =
      let s = length m.heap in
      (record (put_shard m id (store_at sh id s)) { heap = m.heap ++ (new_session id ∷ []) }, s)

  abbrev pub create_at : SessionManager → Key → Option Shard → Option (SessionManager × ℕ)
  create_at m id none = none
  create_at m id (some sh) = some (create_in m id sh (find sh id))

  -- `Create`: the manager afterwards and the session; `none` is an index out of range.
  unfoldable pub create : SessionManager → Key → Option (SessionManager × ℕ)
  create m id = create_at m id (get_elem? m.shards (shard_index m id))

  -- `Get`
  unfoldable pub get : SessionManager → Key → Option (Option ℕ)
  get m id = get_at id (get_elem? m.shards (shard_index m id))

  abbrev pub delete_in : SessionManager → Key → Shard → Option ℕ → SessionManager
  delete_in m id sh none = m
  delete_in m id sh (some s) = record (put_shard m id (remove sh id)) {
    heap = cancel_at m.heap s (get_elem? m.heap s);
  }

  abbrev pub delete_at : SessionManager → Key → Option Shard → Option SessionManager
  delete_at m id none = none
  delete_at m id (some sh) = some (delete_in m id sh (find sh id))

  -- `Delete`
  unfoldable pub delete : SessionManager → Key → Option SessionManager
  delete m id = delete_at m id (get_elem? m.shards (shard_index m id))

-- The sessions that `Range` calls its function with, shard by shard.
unfoldable pub range_values : List Shard → List ℕ
range_values [] = []
range_values (sh ∷ shs) = map (λ p. p.1) sh ++ range_values shs
