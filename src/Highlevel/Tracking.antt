-- ===== src/Highlevel/Tracking.antt =====
-- The connections of `Server` in highlevel/server.go: `addConnection`, `removeConnection`,
-- `getOrCreateConn` and its close callback, with `Close` and `SetCloseCallback` of highlevel/conn.go.
-- The connections below and the `Conn`s are numbers, a map with pointers for keys is a function or a
-- list. `getOrCreateConn` is called by the handler of the underlying server, which one goroutine runs,
-- so one call of it is under way at a time; `Close` is called by others, at any time. What they do
-- under one lock is one step, and `none` means that a step cannot be taken.
pub mod Lists
pub mod Tracked
pub mod Made
pub mod Closes
pub mod Histories
mod Examples
-- How far `getOrCreateConn` has come with a new `Conn`, and how far `Close`: not called, past `closed`,
-- about to call the close callback, in it between the two maps, or done.
use hioload_ws.Prelude.{◌||◌, ◌||◌}
use hioload_ws.Prelude.{ltb, ◌++◌, ◌++◌, ◌==◌, ◌==◌}
use hioload_ws.Prelude.{[], false, if◌then◌else◌, if◌then◌else◌, length, not, some, suc, true, ◌∷◌}
use hioload_ws.Prelude.{Bool, List, Option, none, ℕ}

pub data Making : Type 0 where
  made added has_callback stored : Making

pub data Closing : Type 0 where
  is_open closing removing deleting finished : Closing

-- `cut_short` tells that `Close` was called before `getOrCreateConn` had stored the `Conn`.
pub record Conn : Type 0 where
  pub ws : ℕ
  pub making : Making
  pub closing : Closing
  pub cut_short : Bool

-- `next` is the number of the next new `Conn`, `conns` those below it, and `under_way` the one that a
-- call of `getOrCreateConn` is making.
pub record Tracker : Type 0 where
  pub next : ℕ
  pub conns : ℕ → Conn
  pub under_way : Option ℕ
  pub connections : List ℕ
  pub conn_store : ℕ → Option ℕ

abbrev pub new_conn : ℕ → Conn
new_conn ws = record { ws = ws; making = made; closing = is_open; cut_short = false }

abbrev pub new_tracker : Tracker
new_tracker = record {
  next = 0;
  conns = λ c. new_conn 0;
  under_way = none;
  connections = [];
  conn_store = λ ws. none;
}

abbrev pub put_at {ℓ} : {V : Type ℓ} → (ℕ → V) → ℕ → V → ℕ → V
put_at f k v j = if j == k then v else f j

abbrev pub is_tracked : ℕ → List ℕ → Bool
is_tracked c [] = false
is_tracked c (d ∷ ds) = (d == c) || is_tracked c ds

-- `s.connections[conn] = true` and `delete(s.connections, conn)`
abbrev pub add_connection : List ℕ → ℕ → List ℕ
add_connection cs c = if is_tracked c cs then cs else cs ++ (c ∷ [])

abbrev pub remove_connection : List ℕ → ℕ → List ℕ
remove_connection [] c = []
remove_connection (d ∷ ds) c =
    let rest = remove_connection ds c in if d == c then rest else d ∷ rest

-- The parts of `getOrCreateConn`: `newConnWithParams`, `addConnection`, `SetCloseCallback` and the write
-- of the store.
abbrev pub make_conn : ℕ → Tracker → Tracker
make_conn ws s = record s {
  next = suc s.next;
  conns = put_at s.conns s.next (new_conn ws);
  under_way = some s.next;
}

abbrev pub with_making : Making → ℕ → Tracker → Tracker
with_making m c s = record s { conns = put_at s.conns c (record (s.conns c) { making = m }) }

abbrev pub track_conn : ℕ → Tracker → Tracker
track_conn c s = record (with_making added c s) { connections = add_connection s.connections c }

abbrev pub store_conn : ℕ → Tracker → Tracker
store_conn c s = record (with_making stored c s) {
  under_way = none;
  conn_store = put_at s.conn_store (s.conns c).ws (some c);
}

-- `getOrCreateConn` from its call to its return, with nothing of `Close` between: the `Conn` in the
-- store, or a new one.
abbrev pub or_new_conn : ℕ → Tracker → Option ℕ → ℕ × Tracker
or_new_conn ws s (some c) = (c, s)
or_new_conn ws s none = (
  s.next,
  store_conn s.next (with_making has_callback s.next (track_conn s.next (make_conn ws s))),
)

unfoldable pub get_or_create_conn : ℕ → Tracker → ℕ × Tracker
get_or_create_conn ws s = or_new_conn ws s (s.conn_store ws)

-- The steps of `getOrCreateConn`: the look-up, which returns what it finds, and then each part.
abbrev pub or_make_conn : ℕ → Tracker → Option ℕ → Tracker
or_make_conn ws s none = make_conn ws s
or_make_conn ws s (some c) = s

abbrev pub look_up : ℕ → Tracker → Option ℕ → Option Tracker
look_up ws s none = some (or_make_conn ws s (s.conn_store ws))
look_up ws s (some c) = none

abbrev pub make_on : ℕ → Tracker → Making → Option Tracker
make_on c s made = some (track_conn c s)
make_on c s added = some (with_making has_callback c s)
make_on c s has_callback = some (store_conn c s)
make_on c s stored = none

abbrev pub go_on : Tracker → Option ℕ → Option Tracker
go_on s none = none
go_on s (some c) = make_on c s (s.conns c).making

-- The steps of `Close`, once per `Conn`: the setting of `closed`, the load of `onClose`, and in the
-- callback `removeConnection` and the deletion from the store. Nobody has a `Conn` before
-- `addConnection`: a handler and the goroutine on `Done` get it when it is stored, `Shutdown` by the map.
abbrev pub is_stored : Making → Bool
is_stored stored = true
is_stored made = false
is_stored added = false
is_stored has_callback = false

abbrev pub with_closing : Closing → ℕ → Tracker → Tracker
with_closing p c s = record s { conns = put_at s.conns c (record (s.conns c) { closing = p }) }

abbrev pub set_closed : ℕ → Tracker → Tracker
set_closed c s = record s {
  conns = put_at s.conns c (record (s.conns c) {
    closing = closing;
    cut_short = if is_stored (s.conns c).making then (s.conns c).cut_short else true;
  });
}

abbrev pub begin_close : ℕ → Tracker → Making → Closing → Option Tracker
begin_close c s made p = none
begin_close c s added is_open = some (set_closed c s)
begin_close c s has_callback is_open = some (set_closed c s)
begin_close c s stored is_open = some (set_closed c s)
begin_close c s m p = some s

abbrev pub load_callback : Making → Closing
load_callback made = finished
load_callback added = finished
load_callback has_callback = removing
load_callback stored = removing

abbrev pub close_on : ℕ → Tracker → Closing → Option Tracker
close_on c s is_open = none
close_on c s closing = some (with_closing (load_callback (s.conns c).making) c s)
close_on c s removing =
    some (record (with_closing deleting c s) { connections = remove_connection s.connections c })
close_on c s deleting =
    some
      (record (with_closing finished c s) { conn_store = put_at s.conn_store (s.conns c).ws none })
close_on c s finished = none

abbrev pub get_active_connections : Tracker → ℕ
get_active_connections s = length s.connections

pub data Step : Type 0 where
  arrives closes closes_on : ℕ → Step
  goes_on : Step

unfoldable pub take_step : Step → Tracker → Option Tracker
take_step (arrives ws) s = look_up ws s s.under_way
take_step goes_on s = go_on s s.under_way
take_step (closes c) s =
    if ltb c s.next then begin_close c s (s.conns c).making (s.conns c).closing else none
take_step (closes_on c) s = if ltb c s.next then close_on c s (s.conns c).closing else none
