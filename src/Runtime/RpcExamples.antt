-- ===== src/Runtime/RpcExamples.antt =====
-- The simulated calls at concrete inputs: hashes, input and access lists are numbers, and a runner returns the gas it was given.
use qnch_chain.Prelude.{◌≡◌, refl, ℕ, ◌+◌, ◌^◌, Bool, true, false, none, some, ok, min}
use qnch_chain.Weights.{u64_max}
use qnch_chain.Runtime.EthereumRpc.{Request, Services, api_call, api_create}

abbrev services : Services ℕ ℕ ℕ ℕ Bool ℕ ℕ ℕ ℕ
services = record {
  config = false;
  with_estimate = λ c. true;
  chain_id = λ s. s;
  default_access_list = 0;
  transaction_weight = λ d s. (some (min d.gas_limit u64_max), none);
  unique_saturated_into = λ n. min n u64_max;
  unique_saturated_into_lem = λ n. refl;
  runner = λ r s. ok r.gas_limit;
  into_dispatch_error = λ e. e;
}

-- A request for more gas than a u64 holds.
abbrev greedy : Request ℕ ℕ ℕ
greedy = record {
  from = 1;
  input = 0;
  value = 5;
  gas_limit = 2 ^ 64 + 7;
  max_fee_per_gas = none;
  max_priority_fee_per_gas = none;
  nonce = none;
  estimate = true;
  access_list = none;
}

greedy_gas :
    (api_call services 4 greedy 42 ≡ ok u64_max) × (api_create services greedy 42 ≡ ok u64_max)
unfolding api_call api_create
greedy_gas = (refl, refl)
