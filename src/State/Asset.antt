-- ===== src/State/Asset.antt =====
-- crates/vtt-state/src/asset.rs
use vtt.Prelude.{ℕ, List, Bool, true, false, Option, leb, if◌then◌else◌}
use vtt.Prelude.Outcome.{Outcome, ok, ◌>>=◌}
use vtt.Primitives.{Text}
use vtt.Primitives.Amount.{Amount, add, sub}

-- `enum AssetClass`
pub data AssetClass : Type 0 where
  equity debt real_estate commodity fund intellectual_property carbon_credit invoice : AssetClass
  custom : Text → AssetClass

-- `enum AssetStatus`
pub data AssetStatus : Type 0 where
  draft active frozen matured redemption_pending redeemed : AssetStatus

-- `enum TransferMode`
pub data TransferMode : Type 0 where
  peer_to_peer registrar_mediated : TransferMode

-- `enum DocumentType`
pub data DocumentType : Type 0 where
  prospectus term_sheet legal_opinion valuation audit_report : DocumentType
  regulatory_approval deed_of_transfer encumbrance : DocumentType
  custom : Text → DocumentType

-- `struct DocumentRecord`
pub record DocumentRecord : Type 0 where
  pub doc_type : DocumentType
  pub hash : ℕ
  pub uri : Text
  pub added_at : ℕ
  pub added_by : ℕ

-- `struct AssetRecord`
pub record AssetRecord : Type 0 where
  pub id : ℕ
  pub name : Text
  pub symbol : Text
  pub class : AssetClass
  pub origin_chain : ℕ
  pub issuer : ℕ
  pub total_supply : Amount
  pub decimals : ℕ
  pub status : AssetStatus
  pub compliance_policy : Option ℕ
  pub valuation_oracle : Option ℕ
  pub documents : List (DocumentType × DocumentRecord)
  pub metadata_uri : Text
  pub jurisdiction : Text
  pub legal_entity : Text
  pub transfer_mode : TransferMode
  pub registrar : Option ℕ
  pub redemption_pool : Amount
  pub requires_kyc : Bool
  pub created_at : ℕ

abbrev pub is_active : AssetStatus → Bool
is_active AssetStatus.active = true
is_active _ = false

-- `AssetRecord::is_tradeable`
abbrev pub is_tradeable : AssetRecord → Bool
is_tradeable a = is_active a.status

-- `AssetRecord::activate` and `unfreeze`, on the status: the new status, and whether it changed.
unfoldable pub activate : AssetStatus → AssetStatus × Bool
activate AssetStatus.draft = (AssetStatus.active, true)
activate s = (s, false)

unfoldable pub unfreeze : AssetStatus → AssetStatus × Bool
unfreeze AssetStatus.frozen = (AssetStatus.active, true)
unfreeze s = (s, false)

-- `struct OwnershipRecord`
pub record OwnershipRecord : Type 0 where
  pub asset_id : ℕ
  pub owner : ℕ
  pub available : Amount
  pub locked : Amount

-- `OwnershipRecord::new`
abbrev pub new_ownership : ℕ → ℕ → OwnershipRecord
new_ownership asset_id owner = record {
  asset_id = asset_id;
  owner = owner;
  available = 0;
  locked = 0;
}

module _ {E : Type 0} where
  -- `OwnershipRecord::total`
  abbrev pub total : OwnershipRecord → Outcome E Amount
  total r = add r.available r.locked

  -- `OwnershipRecord::credit`
  abbrev pub credit : OwnershipRecord → Amount → Outcome E OwnershipRecord
  credit r amount = add r.available amount >>= λ a. ok (record r { available = a })

  -- `OwnershipRecord::debit`, with whether the balance was enough.
  abbrev pub debit : OwnershipRecord → Amount → Outcome E (OwnershipRecord × Bool)
  debit r amount =
      if leb amount r.available
      then (sub r.available amount >>= λ a. ok (record r { available = a }, true))
      else ok (r, false)

  -- `OwnershipRecord::lock`
  unfoldable pub lock : OwnershipRecord → Amount → Outcome E (OwnershipRecord × Bool)
  lock r amount =
      if leb amount r.available
      then (sub r.available amount >>= λ a.
          add r.locked amount >>= λ l. ok (record r { available = a; locked = l }, true))
      else ok (r, false)

  -- `OwnershipRecord::unlock`
  unfoldable pub unlock : OwnershipRecord → Amount → Outcome E (OwnershipRecord × Bool)
  unlock r amount =
      if leb amount r.locked
      then (sub r.locked amount >>= λ l.
          add r.available amount >>= λ a. ok (record r { available = a; locked = l }, true))
      else ok (r, false)
