-- ===== src/Highlevel/Reads/Lost.antt =====
-- What becomes of the buffers that are received.
use hioload_ws.Prelude.{
  ◌++◌, ◌∙◌, ◌∷◌, ◌≡◌, List, Option, [], ap, false, if_cases, if◌then◌else◌, none, not, refl, some,
  subst, sym, true,
}
use hioload_ws.Api.Buffer.{Buffer}
use hioload_ws.Highlevel.Reads.{
  Conn, Read, Ready, connection_closed, copy_out, failed, first_received, no_underlying, over_limit,
  read_buffer, read_message, read_queue, read_underlying,
}

read_queue-client :
    (ready : Ready) (c : Conn) (r q : Option (List Buffer))
    → c.has_client ≡ true
    → read_queue ready c r q ≡ read_underlying c r
read_queue-client ready c r none h = refl
read_queue-client ready c r (some q) h = rw h refl

read_buffer-client :
    (ready : Ready) (c : Conn) (r : Option (List Buffer))
    → c.closed ≡ false
    → c.has_client ≡ true
    → c.underlying ≡ true
    → read_buffer ready r c ≡ first_received c r
unfolding read_buffer
read_buffer-client ready c r o h u =
    ap (λ x. if x then (c, failed connection_closed) else read_queue ready c r c.incoming) o
    ∙ read_queue-client ready c r c.incoming h
    ∙ ap (λ x. if not x then (c, failed no_underlying) else first_received c r) u

-- What a read leaves, with its first buffer given back and the others lost.
abbrev Leaves : Conn → Buffer → List Buffer → Conn × Read Buffer → Type 0
Leaves c b rest p =
    ((copy_out p.0 p.1).0.lost ≡ c.lost ++ rest)
    × ((copy_out p.0 p.1).0.released ≡ c.released ++ (b ∷ []))
    × ((copy_out p.0 p.1).0.incoming ≡ c.incoming)

first_received-Leaves :
    (c : Conn) (b : Buffer) (rest : List Buffer)
    → Leaves c b rest (first_received c (some (b ∷ rest)))
first_received-Leaves c b rest =
    if_cases (Leaves c b rest) (over_limit c b) (λ e. (refl, refl, refl))
      (λ e. rw e (refl, refl, refl))

-- On a client connection that is open, one receive gives one message: those that `RecvZeroCopy`
-- returned after the first are neither returned, nor kept, nor given back to the pool.
pub read_message-lost :
    (ready : Ready) (c : Conn) (b : Buffer) (rest : List Buffer)
    → c.closed ≡ false
    → c.has_client ≡ true
    → c.underlying ≡ true
    → ((read_message ready (some (b ∷ rest)) c).0.lost ≡ c.lost ++ rest)
      × ((read_message ready (some (b ∷ rest)) c).0.released ≡ c.released ++ (b ∷ []))
      × ((read_message ready (some (b ∷ rest)) c).0.incoming ≡ c.incoming)
unfolding read_message
read_message-lost ready c b rest o h u =
    subst (Leaves c b rest) (sym (read_buffer-client ready c (some (b ∷ rest)) o h u))
      (first_received-Leaves c b rest)
