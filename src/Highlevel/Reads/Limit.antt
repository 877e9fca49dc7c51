-- ===== src/Highlevel/Reads/Limit.antt =====
-- The read limit.
use hioload_ws.Prelude.{
  ◌&&◌, ◌∷◌, ◌≡◌, List, Option, [], false, if_cases, if_lem, length, none, not, refl, some, subst,
  ℕ,
}
use hioload_ws.Prelude.Int.{ltb_ℤ, pos, ℤ}
use hioload_ws.Api.Buffer.{Buffer}
use hioload_ws.Highlevel.Reads.{
  Conn, Read, Ready, blocks, copy_out, failed, first_received, from_done, from_incoming, from_timer,
  over_limit, read_buffer, read_buffer_from_incoming, read_message, read_ok, read_queue,
  read_underlying, received_buffer,
}

-- The limit admits a message of a length, or there is no limit.
abbrev pub Within : ℤ → Read (List ℕ) → Type 0
Within limit blocks = Unit
Within limit (failed e) = Unit
Within limit (read_ok bs) = (ltb_ℤ (pos 0) limit && ltb_ℤ limit (pos (length bs))) ≡ false

copy_out-Within : (c : Conn) (r : Read Buffer) → Within c.read_limit (copy_out c r).1
copy_out-Within c blocks = tt
copy_out-Within c (failed e) = tt
copy_out-Within c (read_ok b) =
    if_cases (λ (p : Conn × Read (List ℕ)). Within c.read_limit p.1) (over_limit c b) (λ e. tt)
      (λ e. e)

-- Reads leave the limit as it is.
abbrev SameLimit : Conn → Conn × Read Buffer → Type 0
SameLimit c p = p.0.read_limit ≡ c.read_limit

read_buffer_from_incoming-SameLimit :
    (ready : Ready) (c : Conn) (q : List Buffer) → SameLimit c (read_buffer_from_incoming ready c q)
unfolding read_buffer_from_incoming
read_buffer_from_incoming-SameLimit from_incoming c [] = refl
read_buffer_from_incoming-SameLimit from_incoming c (b ∷ q) = go b.bytes
  where
    go : (o : Option (List ℕ)) → SameLimit c (received_buffer c b q o)
    go none = refl
    go (some bs) = refl
read_buffer_from_incoming-SameLimit from_timer c q = if_lem (SameLimit c) c.has_timeout refl refl
read_buffer_from_incoming-SameLimit from_done c q = refl

read_underlying-SameLimit :
    (c : Conn) (r : Option (List Buffer)) → SameLimit c (read_underlying c r)
read_underlying-SameLimit c r = if_lem (SameLimit c) (not c.underlying) refl (go r)
  where
    go : (r : Option (List Buffer)) → SameLimit c (first_received c r)
    go none = refl
    go (some []) = refl
    go (some (b ∷ rest)) = if_lem (SameLimit c) (over_limit c b) refl refl

read_queue-SameLimit :
    (ready : Ready) (c : Conn) (r q : Option (List Buffer)) → SameLimit c (read_queue ready c r q)
read_queue-SameLimit ready c r none = read_underlying-SameLimit c r
read_queue-SameLimit ready c r (some q) =
    if_lem (SameLimit c) c.has_client (read_underlying-SameLimit c r)
      (read_buffer_from_incoming-SameLimit ready c q)

read_buffer-SameLimit :
    (ready : Ready) (r : Option (List Buffer)) (c : Conn) → SameLimit c (read_buffer ready r c)
unfolding read_buffer
read_buffer-SameLimit ready r c =
    if_lem (SameLimit c) c.closed refl (read_queue-SameLimit ready c r c.incoming)

-- Whatever was received, on a server or a client connection, a message that `ReadMessage` returns is
-- no longer than the read limit, where that is positive.
pub read_message-Within :
    (ready : Ready) (r : Option (List Buffer)) (c : Conn)
    → Within c.read_limit (read_message ready r c).1
unfolding read_message
read_message-Within ready r c =
    subst (λ limit. Within limit (read_message ready r c).1) (read_buffer-SameLimit ready r c)
      (copy_out-Within (read_buffer ready r c).0 (read_buffer ready r c).1)
