-- ===== src/Runtime/Apis.antt =====
-- parachain/runtime/src/apis.rs: the runtime APIs that ask another crate and give its answer on. `S` is
-- the storage of the chain; an API that may write gives the storage after it. The APIs with logic of
-- their own are in EthereumRpc, Pending and Conversion.
pub mod Tooling
use qnch_chain.Prelude.{ℕ, Bool, Option, none, some, List, [], ◌∷◌, Result, ok, err, if◌then◌else◌}
use qnch_chain.Runtime.Units.{slot_duration}

-- `Executive`, and the data of inherents
pub record Executive (S Block Header Ext Mode Applied Source Hash Validity Inherent Checks : Type 0)
    : Type 0 where
  -- a panic, for a block that is not valid, is `none`
  pub execute_block : Block → S → Option S
  pub initialize_block : Header → S → Mode × S
  pub apply_extrinsic : Ext → S → Applied × S
  pub finalize_block : S → Header × S
  pub create_extrinsics : Inherent → List Ext
  pub check_extrinsics : Inherent → Block → S → Checks
  pub validate_transaction : Source → Ext → Hash → S → Validity × S
  pub offchain_worker : Header → S → S

module _ {S Block Header Ext Mode Applied Source Hash Validity Inherent Checks : Type 0}
    (X : Executive S Block Header Ext Mode Applied Source Hash Validity Inherent Checks) where
  -- `Core::execute_block`
  abbrev pub api_execute_block : Block → S → Option S
  api_execute_block block = X.execute_block block

  -- `Core::initialize_block`
  abbrev pub api_initialize_block : Header → S → Mode × S
  api_initialize_block header = X.initialize_block header

  -- `BlockBuilder::apply_extrinsic`
  abbrev pub api_apply_extrinsic : Ext → S → Applied × S
  api_apply_extrinsic extrinsic = X.apply_extrinsic extrinsic

  -- `BlockBuilder::finalize_block`
  abbrev pub api_finalize_block : S → Header × S
  api_finalize_block = X.finalize_block

  -- `BlockBuilder::inherent_extrinsics`
  abbrev pub api_inherent_extrinsics : Inherent → List Ext
  api_inherent_extrinsics data_ = X.create_extrinsics data_

  -- `BlockBuilder::check_inherents`
  abbrev pub api_check_inherents : Block → Inherent → S → Checks
  api_check_inherents block data_ = X.check_extrinsics data_ block

  -- `TaggedTransactionQueue::validate_transaction`
  abbrev pub api_validate_transaction : Source → Ext → Hash → S → Validity × S
  api_validate_transaction source tx block_hash = X.validate_transaction source tx block_hash

  -- `OffchainWorkerApi::offchain_worker`
  abbrev pub api_offchain_worker : Header → S → S
  api_offchain_worker header = X.offchain_worker header

  -- `EthereumRuntimeRPCApi::initialize_pending_block`, which drops the mode
  abbrev pub api_initialize_pending_block : Header → S → S
  api_initialize_pending_block header s = (X.initialize_block header s).1

-- What the queries ask for, in the pallets of the runtime.
pub record Pallets (S AuraId AccountId Nonce H Account Bytes Hash Elasticity : Type 0)
    : Type 0 where
  pub authorities : S → List AuraId
  pub account_nonce : AccountId → S → Nonce
  pub chain_id : S → ℕ
  pub account_basic : H → S → Account × ℕ
  pub min_gas_price : S → ℕ × ℕ
  pub account_codes : H → S → Bytes
  pub find_author : S → H
  pub to_big_endian : ℕ → Hash
  pub account_storages : H → Hash → S → Hash
  pub elasticity : S → Elasticity

module _ {S AuraId AccountId Nonce H Account Bytes Hash Elasticity : Type 0}
    (P : Pallets S AuraId AccountId Nonce H Account Bytes Hash Elasticity) where
  -- `AuraApi::slot_duration` and `AuraApi::authorities`
  abbrev pub api_slot_duration : ℕ
  api_slot_duration = slot_duration

  abbrev pub api_authorities : S → List AuraId
  api_authorities = P.authorities

  -- `AccountNonceApi::account_nonce`
  abbrev pub api_account_nonce : AccountId → S → Nonce
  api_account_nonce = P.account_nonce

  -- `EthereumRuntimeRPCApi`: `chain_id`, `account_basic`, `gas_price`, `account_code_at`, `author`,
  -- `storage_at` and `elasticity`
  abbrev pub api_chain_id : S → ℕ
  api_chain_id = P.chain_id

  abbrev pub api_account_basic : H → S → Account
  api_account_basic address s = (P.account_basic address s).0

  abbrev pub api_gas_price : S → ℕ
  api_gas_price s = (P.min_gas_price s).0

  abbrev pub api_account_code_at : H → S → Bytes
  api_account_code_at = P.account_codes

  abbrev pub api_author : S → H
  api_author = P.find_author

  abbrev pub api_storage_at : H → ℕ → S → Hash
  api_storage_at address index = P.account_storages address (P.to_big_endian index)

  abbrev pub api_elasticity : S → Option Elasticity
  api_elasticity s = some (P.elasticity s)

-- `TransactionPayment`
pub record Payment (S Ext Call Info Details Weight Balance : Type 0) : Type 0 where
  pub query_info : Ext → ℕ → S → Info
  pub query_fee_details : Ext → ℕ → S → Details
  pub query_call_info : Call → ℕ → S → Info
  pub query_call_fee_details : Call → ℕ → S → Details
  pub weight_to_fee : Weight → S → Balance
  pub length_to_fee : ℕ → S → Balance

module _ {S Ext Call Info Details Weight Balance : Type 0}
    (P : Payment S Ext Call Info Details Weight Balance) where
  -- `TransactionPaymentApi`, and `TransactionPaymentCallApi`, whose last two methods are the same
  abbrev pub api_query_info : Ext → ℕ → S → Info
  api_query_info uxt len = P.query_info uxt len

  abbrev pub api_query_fee_details : Ext → ℕ → S → Details
  api_query_fee_details uxt len = P.query_fee_details uxt len

  abbrev pub api_query_weight_to_fee : Weight → S → Balance
  api_query_weight_to_fee weight = P.weight_to_fee weight

  abbrev pub api_query_length_to_fee : ℕ → S → Balance
  api_query_length_to_fee length = P.length_to_fee length

  abbrev pub api_query_call_info : Call → ℕ → S → Info
  api_query_call_info call len = P.query_call_info call len

  abbrev pub api_query_call_fee_details : Call → ℕ → S → Details
  api_query_call_fee_details call len = P.query_call_fee_details call len

-- `EthereumRuntimeRPCApi`: `current_transaction_statuses`, `current_block`, `current_receipts` and
-- `current_all`
pub record EthereumState (S EthBlock Receipt Status : Type 0) : Type 0 where
  pub stored_block : S → Option EthBlock
  pub stored_receipts : S → Option (List Receipt)
  pub stored_statuses : S → Option (List Status)

module _ {S EthBlock Receipt Status : Type 0} (E : EthereumState S EthBlock Receipt Status) where
  abbrev pub api_current_transaction_statuses : S → Option (List Status)
  api_current_transaction_statuses = E.stored_statuses

  abbrev pub api_current_block : S → Option EthBlock
  api_current_block = E.stored_block

  abbrev pub api_current_receipts : S → Option (List Receipt)
  api_current_receipts = E.stored_receipts

  abbrev pub api_current_all : S → Option EthBlock × Option (List Receipt) × Option (List Status)
  api_current_all s = (E.stored_block s, E.stored_receipts s, E.stored_statuses s)
