-- ===== src/Executor/Assets.antt =====
-- The actions on tokenized assets in crates/vtt-executor/src/lib.rs: creation, transfers with their
-- policies, freezing and KYC.
use vtt.Prelude.{
  ℕ, ◌-◌, List, [], ◌∷◌, Bool, true, false, not, ◌&&◌, ◌||◌, Option, none, some, leb, ◌==◌,
  if◌then◌else◌, length, map, saturating_sub,
}
use vtt.Prelude.Keys.{nat_key, bytes_test}
use vtt.Prelude.Map.{get}
use vtt.Prelude.Outcome.{ok, err}
use vtt.Prelude.Action.{Action, ◌>>=◌, ◌>>◌, pure, lift, reject_if, gets, modify}
use vtt.Primitives.{Text}
use vtt.Primitives.Amount.{Amount, is_zero}
use vtt.State.Asset.{AssetClass, AssetStatus, TransferMode, AssetRecord, credit, total, unfreeze}
use vtt.State.Db.{
  StateDb, get_ownership, put_ownership, asset_holder_count, transfer_asset, register_asset,
}
use vtt.State.Params.{put_asset, set_address_jurisdiction}
use vtt.State.Staking.{is_kyc_approved, set_kyc_approved}
use vtt.Executor.Transactions.{ExecutionError, Execution, on_state}

-- `to_ascii_uppercase`, `eq_ignore_ascii_case` and `is_ascii_alphabetic`, on bytes.
abbrev pub upper_byte : ℕ → ℕ
upper_byte c = if leb 97 c && leb c 122 then c - 32 else c

abbrev pub to_ascii_uppercase : Text → Text
to_ascii_uppercase t = map upper_byte t

abbrev pub is_letter : ℕ → Bool
is_letter c = leb 65 (upper_byte c) && leb (upper_byte c) 90

unfoldable pub all_letters : Text → Bool
all_letters [] = true
all_letters (c ∷ t) = is_letter c && all_letters t

-- Whether a list of countries has one, in either case.
unfoldable pub lists_country : Text → List Text → Bool
lists_country code [] = false
lists_country code (c ∷ cs) =
    if bytes_test (to_ascii_uppercase c) (to_ascii_uppercase code)
    then true
    else lists_country code cs

abbrev pub is_none_listed : List Text → Bool
is_none_listed [] = true
is_none_listed (c ∷ cs) = false

-- What the policy says of an address with a country and of one without.
abbrev pub country_allowed : List Text → List Text → Option Text → Bool
country_allowed whitelist blacklist none = is_none_listed whitelist
country_allowed whitelist blacklist (some code) =
    (is_none_listed whitelist || lists_country code whitelist) && not (lists_country code blacklist)

-- `check_jurisdiction_policy`
unfoldable pub check_jurisdiction_policy : ℕ → Execution
unfolding lists_country
check_jurisdiction_policy address = do
  params ← gets (λ s. s.params)
  reject_if
      (not (
          is_none_listed params.jurisdiction_whitelist
          && is_none_listed params.jurisdiction_blacklist)
        && not (
            country_allowed params.jurisdiction_whitelist params.jurisdiction_blacklist
              (get address params.address_jurisdiction)))
      ExecutionError.custom

-- `check_max_holders`
unfoldable pub check_max_holders : ℕ → ℕ → ℕ → Amount → Execution
check_max_holders asset_id sender recipient amount = do
  max_holders ← gets (λ s. s.params.max_holders_per_asset)
  recipient_holding ← gets (get_ownership asset_id recipient)
  sender_holding ← gets (get_ownership asset_id sender)
  current_holders ← gets (asset_holder_count asset_id)
  (if max_holders == 0
      then pure tt
      else (lift (total recipient_holding) >>= λ recipient_total.
          if not (is_zero recipient_total)
          then pure tt
          else (lift (total sender_holding) >>= λ sender_total.
              if saturating_sub sender_total amount == 0 && not (is_zero sender_total)
              then pure tt
              else reject_if (leb max_holders current_holders) ExecutionError.custom)))

-- `get_asset(..).ok_or(..)`
abbrev pub asset_or : ℕ → ExecutionError → Action StateDb ExecutionError AssetRecord
asset_or asset_id why s = elim (get asset_id s.assets) [
  | none ↦ (err why, s)
  | some asset ↦ (ok asset, s)
]

-- Whether the registrar of an asset alone may move it, and the sender is another.
abbrev pub not_registrar : TransferMode → Option ℕ → ℕ → Bool
not_registrar TransferMode.peer_to_peer registrar sender = false
not_registrar TransferMode.registrar_mediated none sender = true
not_registrar TransferMode.registrar_mediated (some registrar) sender = not (sender == registrar)

-- The arm of `AssetTransfer`.
unfoldable pub execute_asset_transfer : ℕ → ℕ → ℕ → Amount → Execution
unfolding check_jurisdiction_policy check_max_holders
execute_asset_transfer sender asset_id to amount = do
  asset ← asset_or asset_id ExecutionError.asset_not_found
  reject_if (not_registrar asset.transfer_mode asset.registrar sender) ExecutionError.custom
  sender_approved ← gets (is_kyc_approved sender)
  to_approved ← gets (is_kyc_approved to)
  reject_if (asset.requires_kyc && not sender_approved) ExecutionError.custom
  reject_if (asset.requires_kyc && not to_approved) ExecutionError.custom
  check_jurisdiction_policy sender
  check_jurisdiction_policy to
  check_max_holders asset_id sender to amount
  on_state (transfer_asset asset_id sender to amount)

-- The class that a string names.
unfoldable pub class_of : Text → AssetClass
class_of t =
    if bytes_test t (b'e' ∷ b'q' ∷ b'u' ∷ b'i' ∷ b't' ∷ b'y' ∷ [])
    then AssetClass.equity
    else if bytes_test t (b'd' ∷ b'e' ∷ b'b' ∷ b't' ∷ [])
    then AssetClass.debt
    else if bytes_test t
        (b'r' ∷ b'e' ∷ b'a' ∷ b'l' ∷ b'_' ∷ b'e' ∷ b's' ∷ b't' ∷ b'a' ∷ b't' ∷ b'e' ∷ [])
    then AssetClass.real_estate
    else if bytes_test t (b'c' ∷ b'o' ∷ b'm' ∷ b'm' ∷ b'o' ∷ b'd' ∷ b'i' ∷ b't' ∷ b'y' ∷ [])
    then AssetClass.commodity
    else if bytes_test t (b'f' ∷ b'u' ∷ b'n' ∷ b'd' ∷ [])
    then AssetClass.fund
    else if bytes_test t (b'i' ∷ b'p' ∷ [])
    then AssetClass.intellectual_property
    else if bytes_test t (b'c' ∷ b'a' ∷ b'r' ∷ b'b' ∷ b'o' ∷ b'n' ∷ [])
    then AssetClass.carbon_credit
    else if bytes_test t (b'i' ∷ b'n' ∷ b'v' ∷ b'o' ∷ b'i' ∷ b'c' ∷ b'e' ∷ [])
    then AssetClass.invoice
    else AssetClass.custom t

abbrev pub is_regulated : AssetClass → Bool
is_regulated AssetClass.equity = true
is_regulated AssetClass.debt = true
is_regulated AssetClass.real_estate = true
is_regulated AssetClass.fund = true
is_regulated _ = false

-- Without white space, a text is empty: `trim().is_empty()` on ASCII.
unfoldable pub is_blank : Text → Bool
is_blank [] = true
is_blank (c ∷ t) = ((leb 9 c && leb c 13) || c == 32) && is_blank t

-- Crediting what a holder has of an asset.
abbrev pub credit_holder : ℕ → ℕ → Amount → Execution
credit_holder asset_id holder amount = do
  held ← gets (get_ownership asset_id holder)
  ownership ← lift (credit held amount)
  on_state (put_ownership ownership)

-- `execute_create_asset`, with the hash of the sender, the name and the symbol in `asset_id`.
unfoldable pub execute_create_asset :
    ℕ → ℕ → Text → Text → Text → Amount → ℕ → Text → Text → Text → ℕ → Execution
unfolding class_of all_letters is_blank
execute_create_asset asset_id sender name symbol metadata_uri total_supply decimals asset_class
      jurisdiction legal_entity block_number =
    do
      let class = class_of asset_class
      reject_if
          (is_regulated class && (not (length jurisdiction == 2) || not (all_letters jurisdiction)))
          ExecutionError.custom
      reject_if (is_regulated class && is_blank legal_entity) ExecutionError.custom
      on_state (
          register_asset (record {
            id = asset_id;
            name = name;
            symbol = symbol;
            class = class;
            origin_chain = 0;
            issuer = sender;
            total_supply = total_supply;
            decimals = decimals;
            status = AssetStatus.active;
            compliance_policy = none;
            valuation_oracle = none;
            documents = [];
            metadata_uri = metadata_uri;
            jurisdiction = jurisdiction;
            legal_entity = legal_entity;
            transfer_mode = TransferMode.peer_to_peer;
            registrar = none;
            redemption_pool = 0;
            requires_kyc = is_regulated class;
            created_at = block_number;
          }))
      credit_holder asset_id sender total_supply

-- `execute_freeze_asset`, with `AssetRecord::freeze`.
unfoldable pub execute_freeze_asset : ℕ → ℕ → Execution
execute_freeze_asset sender asset_id = do
  asset ← asset_or asset_id ExecutionError.asset_not_found
  reject_if (not (asset.issuer == sender)) ExecutionError.not_issuer
  modify (put_asset asset_id (record asset { status = AssetStatus.frozen }))

-- `execute_unfreeze_asset`
unfoldable pub execute_unfreeze_asset : ℕ → ℕ → Execution
execute_unfreeze_asset sender asset_id = do
  asset ← asset_or asset_id ExecutionError.asset_not_found
  reject_if (not (asset.issuer == sender)) ExecutionError.not_issuer
  modify (put_asset asset_id (record asset { status = (unfreeze asset.status).0 }))

-- A guard that only the treasury passes.
abbrev pub only_treasury : ℕ → Execution
only_treasury sender = do
  treasury ← gets (λ s. s.treasury_address)
  reject_if (not (sender == treasury)) ExecutionError.custom

-- `execute_set_kyc_approval`
unfoldable pub execute_set_kyc_approval : ℕ → ℕ → Bool → Execution
execute_set_kyc_approval sender address approved = do
  only_treasury sender
  modify (set_kyc_approved address approved)

-- `trim`, on ASCII.
unfoldable pub trim_start : Text → Text
trim_start [] = []
trim_start (c ∷ t) = if (leb 9 c && leb c 13) || c == 32 then trim_start t else c ∷ t

unfoldable pub trim_end : Text → Text
unfolding is_blank
trim_end [] = []
trim_end (c ∷ t) = if is_blank (c ∷ t) then [] else c ∷ trim_end t

-- `execute_set_address_jurisdiction`
unfoldable pub execute_set_address_jurisdiction : ℕ → ℕ → Text → Execution
unfolding all_letters trim_start trim_end
execute_set_address_jurisdiction sender address country = do
  only_treasury sender
  let country_upper = to_ascii_uppercase (trim_end (trim_start country))
  reject_if (not (length country_upper == 0) && not (length country_upper == 2))
      ExecutionError.custom
  reject_if (not (all_letters country_upper)) ExecutionError.custom
  modify (set_address_jurisdiction address country_upper)
