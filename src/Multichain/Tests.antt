-- ===== src/Multichain/Tests.antt =====
-- The contract of an inbox of crates/vtt-multichain/src/messaging.rs that remembers two ids.
use vtt.Prelude.{ℕ, ◌≡◌, refl, List, [], ◌∷◌, arith}
use vtt.Prelude.Keys.{nat_key}
use vtt.Prelude.Sets.{contains}
use vtt.Prelude.Outcome.{ok, err}
use vtt.Multichain.Messaging.{
  CrossChainMessage, CrossChainPayload, MessageInbox, MessageOutbox, MessageStatus, MessagingError,
  receive, remember, send, drain, with_caps, new_outbox,
}
use vtt.Multichain.Window.{IsWindow, verdict, log_after, latest, drop, receive_refines}

abbrev id_of : ℕ → ℕ → ℕ → ℕ → CrossChainPayload → ℕ
id_of nonce source_chain destination_chain sender payload = 7

abbrev message : ℕ → CrossChainMessage
message id = record {
  id = id;
  nonce = 0;
  source_chain = 1;
  destination_chain = 2;
  sender = 3;
  recipient = 4;
  payload = CrossChainPayload.vtt_transfer 5;
  status = MessageStatus.pending;
  source_block = 6;
}

-- An inbox that has accepted the ids 11, 12 and 13.
abbrev inbox : MessageInbox
inbox = record (with_caps 2 9 2) { processed = 12 ∷ 13 ∷ []; processed_order = 12 ∷ 13 ∷ [] }

inbox-IsWindow : IsWindow (11 ∷ 12 ∷ 13 ∷ []) inbox
unfolding with_caps latest drop contains
inbox-IsWindow = (omega arith, refl, refl, (refl, (refl, tt)))

-- The id 12 is refused, the id 11 is accepted once more.
refuses_12 : (receive (message 12) inbox).0 ≡ err (MessagingError.already_processed 12)
unfolding receive with_caps contains
refuses_12 = refl

accepts_11 : (receive (message 11) inbox).0 ≡ ok tt
unfolding receive with_caps contains remember
accepts_11 = refl

receive_refines_example :
    ((receive (message 11) inbox).0 ≡ verdict (message 11) (11 ∷ 12 ∷ 13 ∷ []) inbox)
    × IsWindow
        (log_after
          (message 11)
          (11 ∷ 12 ∷ 13 ∷ [])
          (verdict (message 11) (11 ∷ 12 ∷ 13 ∷ []) inbox))
        (receive (message 11) inbox).1
receive_refines_example = receive_refines (message 11) (11 ∷ 12 ∷ 13 ∷ []) inbox inbox-IsWindow

abbrev map_nonce : List CrossChainMessage → List ℕ
map_nonce [] = []
map_nonce (m ∷ ms) = m.nonce ∷ map_nonce ms

-- Of two messages the second has the next nonce, and both are drained in their order.
abbrev sent_twice : MessageOutbox
sent_twice =
    let once = (send id_of 2 3 4 (CrossChainPayload.data_message []) 6 (new_outbox 1)).1 in
    (send id_of 2 3 4 (CrossChainPayload.vtt_transfer 5) 7 once).1

drains_both : map_nonce (drain sent_twice).0 ≡ 0 ∷ 1 ∷ []
unfolding send
drains_both = refl

sends_elsewhere :
    (send id_of 1 3 4 (CrossChainPayload.data_message []) 6 (new_outbox 1)).0
    ≡ err MessagingError.same_chain
unfolding send
sends_elsewhere = refl
