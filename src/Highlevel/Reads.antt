-- ===== src/Highlevel/Reads.antt =====
-- Reading from a `Conn` of highlevel/conn.go: `ReadMessage`, `ReadBuffer`, `readBuffer`,
-- `readBufferFromIncoming`, `ReadString`, `ReadJSON` and the route parameters. What `RecvZeroCopy`
-- returned, and which case of a select is taken, are arguments; package json is a parameter.
pub mod Limit
pub mod Lost
use hioload_ws.Prelude.{
  ◌&&◌, ◌*◌, ◌++◌, ◌^◌, ◌∷◌, Bool, List, Option, [], false, if◌then◌else◌, length, none, not, refl,
  some, suc, true, zero, ℕ,
}
use hioload_ws.Prelude.Int.{ltb_ℤ, pos, ℤ}
use hioload_ws.Api.Buffer.{Buffer, bytes_of}
use hioload_ws.Session.Map.{Key, same_key, store_at}

pub data ReadError : Type 0 where
  connection_closed no_underlying receive_failed no_message exceeds_limit timed_out bad_json :
      ReadError

-- A result, an error, or a wait on the channels.
pub data Read (A : Type 0) : Type 0 where
  read_ok : A → Read A
  failed : ReadError → Read A
  blocks : Read A

-- `incoming` is nil (`none`) for a client connection; `underlying` tells that there is a connection
-- below. `released` and `lost` are the buffers that reads gave back to the pool, and those that they
-- dropped without that. A limit of 0 or less is no limit.
pub record Conn : Type 0 where
  pub closed : Bool
  pub read_limit : ℤ
  pub has_timeout : Bool
  pub has_client : Bool
  pub underlying : Bool
  pub incoming : Option (List Buffer)
  pub params : List (Key × Key)
  pub released : List Buffer
  pub lost : List Buffer

-- `newConnWithParams`, `newConn` and `newClientConn`; 32 MB is the default limit.
abbrev pub new_conn_with_params : Bool → List (Key × Key) → Conn
new_conn_with_params underlying params = record {
  closed = false;
  read_limit = pos (32 * 2 ^ 20);
  has_timeout = false;
  has_client = false;
  underlying = underlying;
  incoming = some [];
  params = params;
  released = [];
  lost = [];
}

abbrev pub new_conn : Bool → Conn
new_conn underlying = new_conn_with_params underlying []

abbrev pub new_client_conn : Bool → Conn
new_client_conn underlying = record (new_conn_with_params underlying []) {
  has_client = true;
  incoming = none;
}

-- `SetReadLimit`
abbrev pub set_read_limit : Conn → ℤ → Conn
set_read_limit c limit = record c { read_limit = limit }

-- `c.readLimit > 0 && int64(len(payload)) > c.readLimit`
abbrev pub over_limit : Conn → Buffer → Bool
over_limit c b = ltb_ℤ (pos 0) c.read_limit && ltb_ℤ c.read_limit (pos (length (bytes_of b.bytes)))

-- The case of the select of `readBufferFromIncoming` that is taken; without a timeout there is no timer.
pub data Ready : Type 0 where
  from_incoming from_timer from_done : Ready

abbrev pub received_buffer : Conn → Buffer → List Buffer → Option (List ℕ) → Conn × Read Buffer
received_buffer c b q none =
    (record c { incoming = some q; lost = c.lost ++ (b ∷ []) }, failed connection_closed)
received_buffer c b q (some bs) = (record c { incoming = some q }, read_ok b)

-- `readBufferFromIncoming`
unfoldable pub read_buffer_from_incoming : Ready → Conn → List Buffer → Conn × Read Buffer
read_buffer_from_incoming from_incoming c [] = (c, blocks)
read_buffer_from_incoming from_incoming c (b ∷ q) = received_buffer c b q b.bytes
read_buffer_from_incoming from_timer c q =
    if c.has_timeout then (c, failed timed_out) else (c, blocks)
read_buffer_from_incoming from_done c q = (c, failed connection_closed)

-- The rest of `readBuffer` after `RecvZeroCopy`, where `none` is its error.
abbrev pub first_received : Conn → Option (List Buffer) → Conn × Read Buffer
first_received c none = (c, failed receive_failed)
first_received c (some []) = (c, failed no_message)
first_received c (some (b ∷ rest)) =
    if over_limit c b
    then (
      record c { released = c.released ++ (b ∷ []); lost = c.lost ++ rest },
      failed exceeds_limit,
    )
    else (record c { lost = c.lost ++ rest }, read_ok b)

abbrev pub read_underlying : Conn → Option (List Buffer) → Conn × Read Buffer
read_underlying c received =
    if not c.underlying then (c, failed no_underlying) else first_received c received

abbrev pub read_queue :
    Ready → Conn → Option (List Buffer) → Option (List Buffer) → Conn × Read Buffer
read_queue ready c received none = read_underlying c received
read_queue ready c received (some q) =
    if c.has_client then read_underlying c received else read_buffer_from_incoming ready c q

-- `readBuffer`
unfoldable pub read_buffer : Ready → Option (List Buffer) → Conn → Conn × Read Buffer
read_buffer ready received c =
    if c.closed then (c, failed connection_closed) else read_queue ready c received c.incoming

-- The rest of `ReadMessage`; the deferred `Release` runs on both returns.
abbrev pub copy_out : Conn → Read Buffer → Conn × Read (List ℕ)
copy_out c blocks = (c, blocks)
copy_out c (failed e) = (c, failed e)
copy_out c (read_ok b) =
    let c' : Conn = record c { released = c.released ++ (b ∷ []) } in
    if over_limit c b then (c', failed exceeds_limit) else (c', read_ok (bytes_of b.bytes))

-- `ReadMessage`, whose message type is always binary, and `ReadString`
unfoldable pub read_message : Ready → Option (List Buffer) → Conn → Conn × Read (List ℕ)
read_message ready received c = let (c', r) = read_buffer ready received c in copy_out c' r

abbrev pub read_string : Ready → Option (List Buffer) → Conn → Conn × Read (List ℕ)
read_string ready received c = read_message ready received c

abbrev pub unmarshal_read : {V : Type 0} → (List ℕ → Option V) → Read (List ℕ) → Read V
unmarshal_read unmarshal blocks = blocks
unmarshal_read unmarshal (failed e) = failed e
unmarshal_read unmarshal (read_ok bs) = unmarshalled (unmarshal bs)
  where
    unmarshalled : {V : Type 0} → Option V → Read V
    unmarshalled none = failed bad_json
    unmarshalled (some v) = read_ok v

-- `ReadJSON`
abbrev pub read_json :
    {V : Type 0} → (List ℕ → Option V) → Ready → Option (List Buffer) → Conn → Conn × Read V
read_json unmarshal ready received c =
    let (c', r) = read_message ready received c in (c', unmarshal_read unmarshal r)

-- `Param`: the first of its name, or the empty string.
unfoldable pub param : Key → List (Key × Key) → Key
param name [] = []
param name ((key, value) ∷ params) =
    let rest = param name params in if same_key key name then value else rest

-- `AllParams`, the loop over the parameters.
unfoldable pub add_params : List (Key × Key) → List (Key × Key) → List (Key × Key)
add_params m [] = m
add_params m ((key, value) ∷ params) = add_params (store_at m key value) params

abbrev pub all_params : List (Key × Key) → List (Key × Key)
all_params params = add_params [] params
