-- ===== src/Client/Reader.antt =====
-- The reading side of lowlevel/client/facade.go: `ReadBuffer` and `ReadMessage` over the loop mode of
-- the connection, and the reader that `transportAdapter` makes of a transport.
use hioload_ws.Prelude.{
  ◌++◌, ◌∙◌, ◌∷◌, ◌≡◌, Bool, List, [], ap, append_assoc, drop, refl, sym, take, take-append-drop, ℕ,
}
use hioload_ws.Api.Buffer.{Buffer, BufferPool}
use hioload_ws.Connection.{Connection}
use hioload_ws.Connection.Loop.{Taken, empty, recv_from_inbox, taken, transport_closed}
use hioload_ws.Frame.{opcode_binary}

-- `empty` in place of a wait.
pub data BufferRead (S : Type 0) : Type 0 where
  read_failed no_message waits : BufferRead S
  buffer_read : ℕ → Buffer → Connection → S → BufferRead S

module _ {S : Type 0} where
  abbrev pub first_buffer : Taken S → BufferRead S
  first_buffer (taken [] c s) = no_message
  first_buffer (taken (b ∷ bs) c s) = buffer_read opcode_binary b c s
  first_buffer transport_closed = read_failed
  first_buffer empty = waits

module _ (pool : BufferPool) where
  pub read_buffer : Bool → Connection → pool.State → BufferRead pool.State
  read_buffer done_first c s = first_buffer (recv_from_inbox pool done_first c s)

-- `Read` of the adapter: what it copies, the new `excess`, and what the transport has still to give;
-- each list of buffers is one result of `Recv`, behind which `Recv` fails.
pub data Read : Type 0 where
  read : List ℕ → List ℕ → List (List (List ℕ)) → Read
  recv_failed : Read

abbrev pub read_first : ℕ → List (List ℕ) → List (List (List ℕ)) → Read
read_first n [] source = read [] [] source
read_first n (b ∷ bs) source = read (take n b) (drop n b) source

abbrev pub recv_and_read : ℕ → List (List (List ℕ)) → Read
recv_and_read n [] = recv_failed
recv_and_read n (bufs ∷ source) = read_first n bufs source

unfoldable pub adapter_read : ℕ → List ℕ → List (List (List ℕ)) → Read
adapter_read n [] source = recv_and_read n source
adapter_read n (x ∷ xs) source = read (take n (x ∷ xs)) (drop n (x ∷ xs)) source

-- Reads of the given sizes one after the other, up to one that fails.
abbrev pub more_reads : (List ℕ → List (List (List ℕ)) → List ℕ) → Read → List ℕ
more_reads rest (read bytes excess source) = bytes ++ rest excess source
more_reads rest recv_failed = []

unfoldable pub reads : List ℕ → List ℕ → List (List (List ℕ)) → List ℕ
reads [] excess source = []
reads (n ∷ sizes) excess source = more_reads (reads sizes) (adapter_read n excess source)

-- The first buffers of the results, one after the other.
abbrev pub first_of : List (List ℕ) → List ℕ
first_of [] = []
first_of (b ∷ bs) = b

abbrev pub firsts : List (List (List ℕ)) → List ℕ
firsts [] = []
firsts (bufs ∷ source) = first_of bufs ++ firsts source

-- A piece that is read in two.
cut :
    (n : ℕ) (b : List ℕ) (source : List (List (List ℕ))) (more : List ℕ)
    → (rest : List ℕ) × (more ++ rest ≡ drop n b ++ firsts source)
    → (rest : List ℕ) × ((take n b ++ more) ++ rest ≡ b ++ firsts source)
cut n b source more (rest, e) = (
  rest,
  append_assoc (take n b) more rest
      ∙ ap (λ z. take n b ++ z) e
      ∙ sym (append_assoc (take n b) (drop n b) (firsts source))
      ∙ ap (λ z. z ++ firsts source) (take-append-drop n b),
)

-- What the adapter reads is a stream: whatever the sizes of the slices, the bytes read one after the
-- other are a prefix of the bytes left over followed by the first buffer of each result of the
-- transport; the other buffers of a result never come out.
pub reads-firsts :
    (sizes excess : List ℕ) (source : List (List (List ℕ)))
    → (rest : List ℕ) × (reads sizes excess source ++ rest ≡ excess ++ firsts source)
unfolding reads adapter_read
reads-firsts [] excess source = (excess ++ firsts source, refl)
reads-firsts (n ∷ sizes) [] [] = ([], refl)
reads-firsts (n ∷ sizes) [] ([] ∷ source) = reads-firsts sizes [] source
reads-firsts (n ∷ sizes) [] ((b ∷ bs) ∷ source) =
    cut n b source (reads sizes (drop n b) source) (reads-firsts sizes (drop n b) source)
reads-firsts (n ∷ sizes) (x ∷ xs) source =
    cut n (x ∷ xs) source (reads sizes (drop n (x ∷ xs)) source)
      (reads-firsts sizes (drop n (x ∷ xs)) source)
