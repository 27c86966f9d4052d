-- ===== src/Runtime/Ethereum.antt =====
-- What the runtime takes from `pallet_ethereum` and `pallet_evm`, which are not part of this
-- repository: the transactions and the call that it matches on, with the constructors that
-- parachain/runtime/src/lib.rs names, and the pallet's own methods as parameters.
use qnch_chain.Prelude.{ℕ, Bool, Option, Result}
use qnch_chain.Frame.{Frame}
use qnch_chain.Pallet
use qnch_chain.Pallet.{Event}

-- `pallet_ethereum::TransactionAction`
pub data TransactionAction (H : Type 0) : Type 0 where
  call : H → TransactionAction H
  create : TransactionAction H

-- The fields of a transaction: the one that the runtime reads, and the rest.
pub record TransactionFields (H Rest : Type 0) : Type 0 where
  pub action : TransactionAction H
  pub rest : Rest

-- `pallet_ethereum::Transaction`
pub data Transaction (H Rest : Type 0) : Type 0 where
  legacy eip2930 eip1559 : TransactionFields H Rest → Transaction H Rest

-- `pallet_ethereum::Call`
pub data EthereumCall (H Rest : Type 0) : Type 0 where
  transact : Transaction H Rest → EthereumCall H Rest
  other_call : EthereumCall H Rest

-- `TransactionValidityError`: `Invalid(InvalidTransaction::Custom(code))`, or any other
pub data TransactionValidityError (X : Type 0) : Type 0 where
  invalid_custom : ℕ → TransactionValidityError X
  other_error : X → TransactionValidityError X

-- The chain's storage: that of the deployment control pallet, and all other.
pub record Chain {A : Type 0} {dec : Discrete A} (F : Frame dec (Event A)) (W : Type 0)
    : Type 0 where
  pub control : Pallet.State F
  pub world : W

-- The methods of `pallet_ethereum::Call`. They read the storage `S`; `D` is the dispatch
-- information, `V` a `ValidTransaction`, and the `ℕ` is the encoded length.
pub record EthereumPallet (S H Rest D V X : Type 0) : Type 0 where
  pub is_self_contained : EthereumCall H Rest → Bool
  pub check_self_contained :
      EthereumCall H Rest → S → Option (Result H (TransactionValidityError X))
  pub validate_self_contained :
      EthereumCall H Rest → H → D → ℕ → S → Option (Result V (TransactionValidityError X))
  pub pre_dispatch_self_contained :
      EthereumCall H Rest → H → D → ℕ → S → Option (Result (Unit {0}) (TransactionValidityError X))
