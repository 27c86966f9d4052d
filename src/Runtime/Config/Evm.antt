-- ===== src/Runtime/Config/Evm.antt =====
-- parachain/runtime/src/configs/mod.rs: `impl pallet_evm::Config for Runtime`, by the code of this
-- repository that it puts to use, and by what it puts in the place of the `OnCreate` hook.
use qnch_chain.Prelude.{ℕ, ◌≡◌, Option, some, List, Result, ok}
use qnch_chain.Frame.{Frame}
use qnch_chain.Pallet
use qnch_chain.Pallet.{Event, is_authorized}
use qnch_chain.Runtime.DeploymentControl.{try_address_origin}
use qnch_chain.Runtime.Author.{find_author}
use qnch_chain.Runtime.Precompiles.{Answer, is_precompile}
use qnch_chain.Runtime.Limits.{Parts, Ratio, block_gas_limit, weight_per_gas}

-- `EnsureAddressOrigin::try_address_origin`, over the storage of the deployment control pallet
abbrev pub EnsureAddressOrigin :
    {A : Type 0} {dec : Discrete A} → Frame dec (Event A) → Type 0 → Type 0
EnsureAddressOrigin {A} F H = H → F.Origin → Pallet.State F → Result A F.Origin

-- `pallet_evm::Config`
pub record EvmConfig {A : Type 0} {dec : Discrete A} (F : Frame dec (Event A))
    (H Digests Authority : Type 0) : Type 0 where
  pub weight_per_gas : Parts
  pub call_origin : EnsureAddressOrigin F H
  pub withdraw_origin : EnsureAddressOrigin F H
  pub into_account_id : H → A
  pub is_precompile : H → ℕ → Answer
  pub block_gas_limit : ℕ
  pub on_create : H → H → Pallet.State F → Option (Unit {0})
  pub find_author : Digests → List Authority → Option (Option H)
  pub gas_limit_pov_size_ratio : ℕ
  pub suicide_quick_clear_limit : ℕ

-- `HashedAddressMapping<BlakeTwo256>` and `EnsureAddressTruncated` of pallet_evm: the latter accepts a
-- signed origin for the address that its account is cut to.
pub record Addresses {A : Type 0} {dec : Discrete A} (F : Frame dec (Event A)) (H : Type 0)
    : Type 0 where
  pub hashed : H → A
  pub truncated : A → H
  pub ensure_address_truncated : EnsureAddressOrigin F H
  pub ensure_address_truncated-signed :
      (a : A) (s : Pallet.State F) → ensure_address_truncated (truncated a) (F.signed a) s ≡ ok a

module _ {A H Digests Authority : Type 0} {dec : Discrete A} (F : Frame dec (Event A))
    (N : Addresses F H) (dec_address : Discrete H) (hash : ℕ → H)
    (inner_find_author : Digests → Option ℕ) (to_raw_vec : Authority → List ℕ)
    (from_slice : List ℕ → Option H) (R : Ratio) (weight_ref_time_per_second max_pov_size : ℕ) where
  -- `impl pallet_evm::Config for Runtime`; the `OnCreate` hook `()` does nothing.
  abbrev pub evm_config : EvmConfig F H Digests Authority
  evm_config = record {
    weight_per_gas = record {
      time = weight_per_gas R weight_ref_time_per_second max_pov_size;
      proof = 0;
    };
    call_origin = N.ensure_address_truncated;
    withdraw_origin = try_address_origin F N.hashed;
    into_account_id = N.hashed;
    is_precompile = is_precompile dec_address hash;
    block_gas_limit = block_gas_limit R weight_ref_time_per_second max_pov_size;
    on_create = λ owner contract s. some tt;
    find_author = find_author inner_find_author to_raw_vec from_slice;
    gas_limit_pov_size_ratio = 4;
    suicide_quick_clear_limit = 0;
  }
