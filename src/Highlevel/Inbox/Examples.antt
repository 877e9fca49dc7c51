-- ===== src/Highlevel/Inbox/Examples.antt =====
-- Histories of an inbound queue.
use hioload_ws.Prelude.{◌++◌, ◌∷◌, ◌≡◌, List, OnSome, [], refl, some, suc, true, zero, ℕ}
use hioload_ws.Prelude.Int.{pos}
use hioload_ws.Api.Buffer.{Buffer}
use hioload_ws.Highlevel.Inbox.{
  Inbox, Step, history, holding, new_inbox, offer, offers, reads, receives, sees_done, take_step,
}
use hioload_ws.Highlevel.Inbox.Balance.{history-weigh}
use hioload_ws.Highlevel.Inbox.Left.{IsLeft, history-IsLeft}
use hioload_ws.Highlevel.Inbox.Order.{history-in_order}
use hioload_ws.Highlevel.Inbox.Weight.{offered, total, weigh}

-- The message of one byte.
abbrev message : ℕ → Buffer
message n = record { bytes = some (n ∷ []); numa = pos 0; pool = true; class_size = pos 2048 }

abbrev messages : ℕ → List Buffer
messages zero = []
messages (suc n) = message n ∷ messages n

-- A full queue with an idle worker.
abbrev crowded : Inbox
crowded = record new_inbox { incoming = messages 128; overflow = some [] }

-- The worker waits for room with a message in hand when the connection closes.
abbrev stuck : Inbox
stuck = record new_inbox {
  incoming = messages 128;
  overflow = some (message 7 ∷ []);
  worker = holding (message 5);
  done = true;
}

abbrev two_reads : List Step
two_reads = offers (message 1) ∷ offers (message 2) ∷ reads ∷ offers (message 3) ∷ reads ∷ []

abbrev after_two_reads : Inbox
after_two_reads = record new_inbox {
  incoming = message 3 ∷ [];
  delivered = message 1 ∷ message 2 ∷ [];
}

two_reads_lem : history two_reads new_inbox ≡ some after_two_reads
unfolding history take_step offer
two_reads_lem = refl

history-weigh_example : weigh (λ b. 1) after_two_reads ≡ total (λ b. 1) (offered two_reads)
history-weigh_example = history-weigh (λ b. 1) two_reads after_two_reads two_reads_lem

history-IsLeft_example :
    (s' : Inbox) × (take_step sees_done stuck ≡ some s')
    × OnSome (IsLeft (message 7 ∷ [])) (history (offers (message 9) ∷ reads ∷ receives ∷ []) s')
history-IsLeft_example =
    history-IsLeft stuck (message 5) (message 7 ∷ []) (offers (message 9) ∷ reads ∷ receives ∷ [])
      refl refl refl

history-in_order_example : after_two_reads.delivered ++ after_two_reads.incoming ≡ offered two_reads
history-in_order_example =
    history-in_order two_reads after_two_reads two_reads_lem
      ((_, refl), ((_, refl), ((_, refl), tt))) refl refl
