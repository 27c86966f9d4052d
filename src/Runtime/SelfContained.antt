-- ===== src/Runtime/SelfContained.antt =====
-- parachain/runtime/src/lib.rs: `impl SelfContainedCall for RuntimeCall`, which validates and
-- applies Ethereum transactions, and checks the deployer of a contract creation.
use qnch_chain.Prelude.{
  ℕ, Bool, true, false, not, Option, none, some, Result, ok, err, if◌then◌else◌,
}
use qnch_chain.Frame.{Frame}
use qnch_chain.Pallet
use qnch_chain.Pallet.{Event, to_u8, unauthorized_deployer, is_authorized}
use qnch_chain.Runtime.Ethereum.{
  TransactionAction, call, create, Transaction, legacy, eip2930, eip1559, EthereumCall, transact,
  other_call, TransactionValidityError, invalid_custom, Chain, EthereumPallet,
}

-- `RuntimeCall`: the calls of the two pallets that matter here, and those of all others.
pub data RuntimeCall (A H Rest Other : Type 0) : Type 0 where
  ethereum : EthereumCall H Rest → RuntimeCall A H Rest Other
  evm_deployment_control : Pallet.Call A → RuntimeCall A H Rest Other
  other : Other → RuntimeCall A H Rest Other

-- `t.action == TransactionAction::Create`
abbrev is_create_action : {H : Type 0} → TransactionAction H → Bool
is_create_action (call to) = false
is_create_action create = true

-- the `match transaction { … }` that binds `is_create`
unfoldable pub is_create : {H Rest : Type 0} → Transaction H Rest → Bool
is_create (legacy t) = is_create_action t.action
is_create (eip2930 t) = is_create_action t.action
is_create (eip1559 t) = is_create_action t.action

-- `TransactionValidity`
abbrev pub TransactionValidity : Type 0 → Type 0 → Type 0
TransactionValidity V X = Result V (TransactionValidityError X)

-- The error of a contract creation by an account that is not authorized.
abbrev pub unauthorized : {X : Type 0} → TransactionValidityError X
unauthorized = invalid_custom (to_u8 unauthorized_deployer)

module _ {A H Rest V X W : Type 0} {dec : Discrete A} (F : Frame dec (Event A))
    (into_account_id : H → A) where
  -- The deployment check, on a transaction that the standard validation has passed.
  unfoldable pub check_deployment :
      EthereumCall H Rest → H → TransactionValidity V X → Chain F W → TransactionValidity V X
  unfolding is_create is_authorized
  check_deployment (transact t) info result s =
      if is_create t
      then (if not (is_authorized F (into_account_id info) s.control)
          then err unauthorized
          else result)
      else result
  check_deployment other_call info result s = result

module _ {A H Rest Other D V X W : Type 0} {dec : Discrete A} (F : Frame dec (Event A))
    (E : EthereumPallet (Chain F W) H Rest D V X) (into_account_id : H → A) where
  unfoldable pub is_self_contained : RuntimeCall A H Rest Other → Bool
  is_self_contained (ethereum c) = E.is_self_contained c
  is_self_contained (evm_deployment_control c) = false
  is_self_contained (other c) = false

  unfoldable pub check_self_contained :
      RuntimeCall A H Rest Other → Chain F W → Option (Result H (TransactionValidityError X))
  check_self_contained (ethereum c) s = E.check_self_contained c s
  check_self_contained (evm_deployment_control c) s = none
  check_self_contained (other c) s = none

  unfoldable pub validate_self_contained :
      RuntimeCall A H Rest Other → H → D → ℕ → Chain F W → Option (TransactionValidity V X)
  unfolding check_deployment
  validate_self_contained (ethereum c) info d len s =
      elim (E.validate_self_contained c info d len s) [
        | none ↦ none
        | some (err e) ↦ some (err e)
        | some (ok v) ↦ some (check_deployment F into_account_id c info (ok v) s)
      ]
  validate_self_contained (evm_deployment_control c) info d len s = none
  validate_self_contained (other c) info d len s = none

  unfoldable pub pre_dispatch_self_contained :
      RuntimeCall A H Rest Other
      → H
      → D
      → ℕ
      → Chain F W
      → Option (Result (Unit {0}) (TransactionValidityError X))
  pre_dispatch_self_contained (ethereum c) info d len s =
      E.pre_dispatch_self_contained c info d len s
  pre_dispatch_self_contained (evm_deployment_control c) info d len s = none
  pre_dispatch_self_contained (other c) info d len s = none

-- `call.dispatch(RuntimeOrigin::from(RawOrigin::EthereumTransaction(info)))` for a `transact` call.
-- The dispatch of the runtime is generated by its macro, and a parameter here.
unfoldable pub apply_self_contained :
    {A H Rest Other Origin S R : Type 0}
    (dispatch : RuntimeCall A H Rest Other → Origin → S → R × S) (ethereum_transaction : H → Origin)
    → RuntimeCall A H Rest Other
    → H
    → S
    → Option (R × S)
apply_self_contained dispatch ethereum_transaction (ethereum (transact t)) info s =
    some (dispatch (ethereum (transact t)) (ethereum_transaction info) s)
apply_self_contained dispatch ethereum_transaction (ethereum other_call) info s = none
apply_self_contained dispatch ethereum_transaction (evm_deployment_control c) info s = none
apply_self_contained dispatch ethereum_transaction (other c) info s = none
