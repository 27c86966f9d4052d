-- ===== src/Runtime/Assets.antt =====
-- parachain/runtime/src/configs/xcm.rs (`RelayLocation`, `TokenLocation`, `LocalAssetTransactor`) and
-- configs/mod.rs (`FeeAssetId`): which asset the XCM executor of this chain handles, and in which asset
-- the delivery of messages to other parachains is priced. The adapter and its matcher come from the xcm
-- crates, with what is documented of them.
use qnch_chain.Prelude.{
  map_err, ℕ, ◌≡◌, ◌≢◌, Option, none, some, Result, err, arith, is_yes, if◌then◌else◌,
}
use qnch_chain.Runtime.Origins.{ConvertLocation, Converters, location_to_account_id}

-- `Asset`, for what is fungible
pub record Asset (L : Type 0) : Type 0 where
  pub id : L
  pub amount : ℕ

-- The errors of an asset transactor that its adapter gives itself, and those of the currency
pub data TransactError (X : Type 0) : Type 0 where
  asset_not_handled account_id_conversion_failed : TransactError X
  currency_error : X → TransactError X

-- A withdrawal or deposit by the adapter, from what the matcher and the converter answer: the amount
-- leaves or enters the account by the currency.
abbrev pub moved_by :
    {A S X : Type 0}
    → (A → ℕ → S → Result (Unit {0}) X × S)
    → Option ℕ
    → Option A
    → S
    → Result (Unit {0}) (TransactError X) × S
moved_by pay none who s = (err asset_not_handled, s)
moved_by pay (some n) none s = (err account_id_conversion_failed, s)
moved_by pay (some n) (some a) s = let (paid, t) = pay a n s in (map_err currency_error paid, t)

-- `IsConcrete<T>` matches the assets of the id `T`. `FungibleAdapter` withdraws and deposits by its
-- matcher, its converter of locations and the currency.
pub record AssetAdapters {L : Type 0} (dec : Discrete L) (A S X : Type 0) : Type 1 where
  pub currency_withdraw : A → ℕ → S → Result (Unit {0}) X × S
  pub currency_deposit : A → ℕ → S → Result (Unit {0}) X × S
  pub is_concrete : L → Asset L → Option ℕ
  pub is_concrete-id :
      (t : L) (a : Asset L)
      → is_concrete t a ≡ (if is_yes (dec a.id t) then some a.amount else none)
  pub fungible_adapter :
      (Asset L → Option ℕ)
      → ConvertLocation L A
      → Asset L
      → L
      → S
      → Result (Unit {0}) (TransactError X) × S
  pub fungible_adapter-withdraw :
      (matcher : Asset L → Option ℕ) (convert : ConvertLocation L A) (what : Asset L) (who : L)
      (s : S)
      → fungible_adapter matcher convert what who s
        ≡ moved_by currency_withdraw (matcher what) (convert who) s
  pub fungible_deposit :
      (Asset L → Option ℕ)
      → ConvertLocation L A
      → Asset L
      → L
      → S
      → Result (Unit {0}) (TransactError X) × S
  pub fungible_adapter-deposit :
      (matcher : Asset L → Option ℕ) (convert : ConvertLocation L A) (what : Asset L) (who : L)
      (s : S)
      → fungible_deposit matcher convert what who s
        ≡ moved_by currency_deposit (matcher what) (convert who) s

-- `parent` and `here` are `Location::parent()` and `Location::here()`.
module _ {L A S X : Type 0} {dec : Discrete L} (K : AssetAdapters dec A S X) (C : Converters L A)
    (parent here : L) where
  -- `RelayLocation` and `TokenLocation`
  abbrev pub relay_location : L
  relay_location = parent

  abbrev pub token_location : L
  token_location = here

  -- `LocalAssetTransactor`, by its withdrawals
  unfoldable pub local_asset_transactor : Asset L → L → S → Result (Unit {0}) (TransactError X) × S
  local_asset_transactor =
      K.fungible_adapter (K.is_concrete relay_location) (location_to_account_id C)

  -- `LocalAssetTransactor`, by its deposits
  unfoldable pub local_asset_deposit : Asset L → L → S → Result (Unit {0}) (TransactError X) × S
  local_asset_deposit = K.fungible_deposit (K.is_concrete relay_location) (location_to_account_id C)

  -- `FeeAssetId`
  abbrev pub fee_asset_id : L
  fee_asset_id = token_location

  -- If this chain is not the relay chain: whatever the amount and whoever is to pay, the withdrawal of
  -- the asset in which the delivery of messages is priced fails as an asset that is not handled, and
  -- takes nothing. The same amount in the asset of the relay chain is taken from the account of who is
  -- to pay, if there is one, as the currency allows.
  pub local_asset_transactor-fee_asset_id :
      here ≢ parent
      → (amount : ℕ) (who : L) (s : S)
      → (local_asset_transactor (record { id = fee_asset_id; amount = amount }) who s
          ≡ (err asset_not_handled, s))
        × (local_asset_transactor (record { id = relay_location; amount = amount }) who s
            ≡ moved_by K.currency_withdraw (some amount) (location_to_account_id C who) s)
  unfolding local_asset_transactor
  local_asset_transactor-fee_asset_id apart amount who s = (
    rw (K.fungible_adapter-withdraw, K.is_concrete-id) (ground arith),
    rw (K.fungible_adapter-withdraw, K.is_concrete-id) (ground arith),
  )
