-- ===== src/Multichain/Messaging.antt =====
-- crates/vtt-multichain/src/messaging.rs, less the root of the outbox.
use vtt.Prelude.{
  ℕ, ◌+◌, ◌%◌, List, [], ◌∷◌, ◌++◌, Option, none, some, max, leb, ◌==◌, if◌then◌else◌, length,
  u64_mod,
}
use vtt.Prelude.Keys.{nat_key}
use vtt.Prelude.Sets.{contains, set_insert, set_remove}
use vtt.Prelude.Action.{Action, ◌>>=◌, ◌>>◌, pure, reject_if, gets, modify}
use vtt.Primitives.{Text}
use vtt.Primitives.Amount.{Amount}

-- `enum MessagingError`
pub data MessagingError : Type 0 where
  same_chain : MessagingError
  already_processed invalid_proof destination_not_found inbox_full : ℕ → MessagingError

-- `enum CrossChainPayload` of messaging.rs
pub data CrossChainPayload : Type 0 where
  vtt_transfer : Amount → CrossChainPayload
  asset_transfer : ℕ → Amount → CrossChainPayload
  data_message : List ℕ → CrossChainPayload

-- `enum MessageStatus`
pub data MessageStatus : Type 0 where
  pending relayed delivered : MessageStatus
  failed : Text → MessageStatus

-- `struct CrossChainMessage`
pub record CrossChainMessage : Type 0 where
  pub id : ℕ
  pub nonce : ℕ
  pub source_chain : ℕ
  pub destination_chain : ℕ
  pub sender : ℕ
  pub recipient : ℕ
  pub payload : CrossChainPayload
  pub status : MessageStatus
  pub source_block : ℕ

-- `struct MessageOutbox`
pub record MessageOutbox : Type 0 where
  pub chain_id : ℕ
  pub next_nonce : ℕ
  pub messages : List CrossChainMessage

-- `MessageOutbox::new`
abbrev pub new_outbox : ℕ → MessageOutbox
new_outbox chain_id = record { chain_id = chain_id; next_nonce = 0; messages = [] }

-- The hash of the borsh encoding of a nonce, the two chains, the sender and the payload.
module _ (id_of : ℕ → ℕ → ℕ → ℕ → CrossChainPayload → ℕ) where
  -- `CrossChainMessage::new`, once the chains are known to differ.
  abbrev pub new_message : ℕ → ℕ → ℕ → ℕ → ℕ → CrossChainPayload → ℕ → CrossChainMessage
  new_message nonce source_chain destination_chain sender recipient payload source_block = record {
    id = id_of nonce source_chain destination_chain sender payload;
    nonce = nonce;
    source_chain = source_chain;
    destination_chain = destination_chain;
    sender = sender;
    recipient = recipient;
    payload = payload;
    status = MessageStatus.pending;
    source_block = source_block;
  }

  -- `MessageOutbox::send`
  unfoldable pub send :
      ℕ → ℕ → ℕ → CrossChainPayload → ℕ → Action MessageOutbox MessagingError CrossChainMessage
  send destination sender recipient payload block_number = do
    outbox ← gets (λ t. t)
    reject_if (outbox.chain_id == destination) MessagingError.same_chain
    let msg =
        new_message outbox.next_nonce outbox.chain_id destination sender recipient payload
          block_number
    modify (λ t. record t {
      next_nonce = (t.next_nonce + 1) % u64_mod;
      messages = t.messages ++ msg ∷ [];
    })
    pure msg

-- `MessageOutbox::drain`
abbrev pub drain : MessageOutbox → List CrossChainMessage × MessageOutbox
drain t = (t.messages, record t { messages = [] })

-- `struct MessageInbox`
pub record MessageInbox : Type 0 where
  pub chain_id : ℕ
  pub processed : List ℕ
  pub processed_order : List ℕ
  pub pending_messages : List CrossChainMessage
  pub pending_cap : ℕ
  pub processed_cap : ℕ

-- `MessageInbox::with_caps`
unfoldable pub with_caps : ℕ → ℕ → ℕ → MessageInbox
with_caps chain_id pending_cap processed_cap = record {
  chain_id = chain_id;
  processed = [];
  processed_order = [];
  pending_messages = [];
  pending_cap = max pending_cap 1;
  processed_cap = max processed_cap 1;
}

-- `if let Some(oldest) = self.processed_order.pop_front()`
unfoldable pub forget_oldest : List ℕ → MessageInbox → MessageInbox
forget_oldest [] t = t
forget_oldest (oldest ∷ order) t = record t {
  processed = set_remove oldest t.processed;
  processed_order = order;
}

-- The sliding window of ids that were processed.
unfoldable pub remember : ℕ → MessageInbox → MessageInbox
unfolding forget_oldest
remember id t =
    let t' =
      if leb t.processed_cap (length t.processed) then forget_oldest t.processed_order t else t in
    record t' {
      processed = set_insert id t'.processed;
      processed_order = t'.processed_order ++ id ∷ [];
    }

-- `MessageInbox::receive`
unfoldable pub receive : CrossChainMessage → Action MessageInbox MessagingError (Unit {0})
unfolding remember
receive msg = do
  inbox ← gets (λ t. t)
  reject_if (contains msg.id inbox.processed) (MessagingError.already_processed msg.id)
  reject_if (leb inbox.pending_cap (length inbox.pending_messages))
      (MessagingError.inbox_full inbox.pending_cap)
  let taken = record msg { status = MessageStatus.delivered }
  modify (λ t. remember msg.id (record t { pending_messages = t.pending_messages ++ taken ∷ [] }))

-- `MessageInbox::next_pending`
unfoldable pub next_pending : MessageInbox → Option CrossChainMessage × MessageInbox
next_pending t = elim t.pending_messages [
  | [] ↦ (none, t)
  | msg ∷ rest ↦ (some msg, record t { pending_messages = rest })
]
