-- ===== src/Runtime/EthereumRpc.antt =====
-- parachain/runtime/src/apis.rs: `EthereumRuntimeRPCApi::call` and `create`, which simulate a
-- transaction. Hashes, bytes and the types of `pallet_evm` are parameters; a U256 is a number below
-- 2 ^ 256.
use qnch_chain.Prelude.{
  ℕ, ◌≡◌, ◌≤◌, ◌↔◌, Bool, true, false, Option, none, some, Result, map_err, arith, min,
  if◌then◌else◌,
}
use qnch_chain.Weights.{u64_max}
use qnch_chain.Runtime.Ethereum.{TransactionAction, call, create}

-- The arguments that both methods take.
pub record Request (H Bytes AccessList : Type 0) : Type 0 where
  pub from : H
  pub input : Bytes
  pub value : ℕ
  pub gas_limit : ℕ
  pub max_fee_per_gas : Option ℕ
  pub max_priority_fee_per_gas : Option ℕ
  pub nonce : Option ℕ
  pub estimate : Bool
  pub access_list : Option AccessList

-- `TransactionData::new`
pub record TransactionData (H Bytes AccessList : Type 0) : Type 0 where
  pub action : TransactionAction H
  pub input : Bytes
  pub nonce : ℕ
  pub gas_limit : ℕ
  pub gas_price : Option ℕ
  pub max_fee_per_gas : Option ℕ
  pub max_priority_fee_per_gas : Option ℕ
  pub value : ℕ
  pub chain_id : Option ℕ
  pub access_list : AccessList

-- The arguments of `Runner::call` and `Runner::create`; the target is only given to `call`.
pub record Run (H Bytes AccessList Config Weight : Type 0) : Type 0 where
  pub source : H
  pub target : Option H
  pub input : Bytes
  pub value : ℕ
  pub gas_limit : ℕ
  pub max_fee_per_gas : Option ℕ
  pub max_priority_fee_per_gas : Option ℕ
  pub nonce : Option ℕ
  pub access_list : AccessList
  pub is_transactional : Bool
  pub validate : Bool
  pub weight_limit : Option Weight
  pub proof_size_base_cost : Option ℕ
  pub config : Config

abbrev unwrap_or {ℓ} : {A : Type ℓ} → A → Option A → A
unwrap_or a none = a
unwrap_or a (some b) = b

-- What the methods take from the pallets and from the storage `S`.
pub record Services (S H Bytes AccessList Config Weight Info DispatchError RunnerError : Type 0)
    : Type 0 where
  pub config : Config
  pub with_estimate : Config → Config
  pub chain_id : S → ℕ
  pub default_access_list : AccessList
  pub transaction_weight : TransactionData H Bytes AccessList → S → Option Weight × Option ℕ
  pub unique_saturated_into : ℕ → ℕ
  pub unique_saturated_into_lem : (n : ℕ) → unique_saturated_into n ≡ min n u64_max
  pub runner : Run H Bytes AccessList Config Weight → S → Result Info RunnerError
  pub into_dispatch_error : RunnerError → DispatchError

module _ {S H Bytes AccessList Config Weight Info DispatchError RunnerError : Type 0}
    (K : Services S H Bytes AccessList Config Weight Info DispatchError RunnerError) where
  open K use {
    with_estimate, chain_id, default_access_list, transaction_weight, unique_saturated_into,
    unique_saturated_into_lem, runner, into_dispatch_error,
  }

  abbrev transaction_data :
      TransactionAction H → ℕ → Request H Bytes AccessList → S → TransactionData H Bytes AccessList
  transaction_data action gas_limit q s = record {
    action = action;
    input = q.input;
    nonce = unwrap_or 0 q.nonce;
    gas_limit = gas_limit;
    gas_price = none;
    max_fee_per_gas = q.max_fee_per_gas;
    max_priority_fee_per_gas = q.max_priority_fee_per_gas;
    value = q.value;
    chain_id = some (chain_id s);
    access_list = unwrap_or default_access_list q.access_list;
  }

  -- The configuration of the run: that of the runtime, with the estimate flag set on demand.
  abbrev run_config : Request H Bytes AccessList → Config
  run_config q = unwrap_or K.config (if q.estimate then some (with_estimate K.config) else none)

  abbrev run_of :
      Option H
      → ℕ
      → TransactionData H Bytes AccessList
      → Request H Bytes AccessList
      → S
      → Run H Bytes AccessList Config Weight
  run_of target gas_limit d q s = record {
    source = q.from;
    target = target;
    input = q.input;
    value = q.value;
    gas_limit = unique_saturated_into gas_limit;
    max_fee_per_gas = q.max_fee_per_gas;
    max_priority_fee_per_gas = q.max_priority_fee_per_gas;
    nonce = q.nonce;
    access_list = unwrap_or default_access_list q.access_list;
    is_transactional = false;
    validate = true;
    weight_limit = (transaction_weight d s).0;
    proof_size_base_cost = (transaction_weight d s).1;
    config = run_config q;
  }

  -- The run that `call` makes: its gas limit is cut to a u64 before anything else.
  abbrev pub call_data : H → Request H Bytes AccessList → S → TransactionData H Bytes AccessList
  call_data to q s = transaction_data (call to) (min q.gas_limit u64_max) q s

  abbrev pub call_run : H → Request H Bytes AccessList → S → Run H Bytes AccessList Config Weight
  call_run to q s = run_of (some to) (min q.gas_limit u64_max) (call_data to q s) q s

  -- The run that `create` makes.
  abbrev pub create_data : Request H Bytes AccessList → S → TransactionData H Bytes AccessList
  create_data q s = transaction_data create q.gas_limit q s

  abbrev pub create_run : Request H Bytes AccessList → S → Run H Bytes AccessList Config Weight
  create_run q s = run_of none q.gas_limit (create_data q s) q s

  -- `EthereumRuntimeRPCApi::call`
  unfoldable pub api_call : H → Request H Bytes AccessList → S → Result Info DispatchError
  api_call to q s = map_err into_dispatch_error (runner (call_run to q s) s)

  -- `EthereumRuntimeRPCApi::create`
  unfoldable pub api_create : Request H Bytes AccessList → S → Result Info DispatchError
  api_create q s = map_err into_dispatch_error (runner (create_run q s) s)

  abbrev clamp : Request H Bytes AccessList → Request H Bytes AccessList
  clamp q = record q { gas_limit = min q.gas_limit u64_max }

  min-min : (n : ℕ) → min (min n u64_max) u64_max ≡ min n u64_max
  min-min n = omega arith

  -- `call` and `create` run with the same gas, at most a u64. For `call` the weight limit is that of
  -- a transaction with this gas; for `create` that holds exactly if the gas asked for fits a u64.
  gas_limits :
      (to : H) (q : Request H Bytes AccessList) (s : S)
      → ((create_run q s).gas_limit ≡ (call_run to q s).gas_limit)
        × ((call_run to q s).gas_limit ≤ u64_max)
        × ((call_data to q s).gas_limit ≡ (call_run to q s).gas_limit)
        × (((create_data q s).gas_limit ≡ (create_run q s).gas_limit) ↔ (q.gas_limit ≤ u64_max))
  gas_limits to q s = (
    simp unique_saturated_into_lem (omega arith),
    simp unique_saturated_into_lem (omega arith),
    simp unique_saturated_into_lem (omega arith),
    simp unique_saturated_into_lem (λ h. omega arith, λ h. omega arith),
  )

  -- A gas limit past a u64 changes nothing: both methods answer as for the limit cut to a u64, for
  -- `create` if the weight of a transaction reads its gas limit only as a u64.
  api-clamp :
      ((d : TransactionData H Bytes AccessList) (s : S)
        → transaction_weight (record d { gas_limit = min d.gas_limit u64_max }) s
          ≡ transaction_weight d s)
      → (to : H) (q : Request H Bytes AccessList) (s : S)
      → (api_call to (clamp q) s ≡ api_call to q s) × (api_create (clamp q) s ≡ api_create q s)
  unfolding api_call api_create
  api-clamp cut to q s = (
    simp (unique_saturated_into_lem, min-min),
    simp (cut (create_data q s) s, unique_saturated_into_lem, min-min),
  )
