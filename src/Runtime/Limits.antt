-- ===== src/Runtime/Limits.antt =====
-- parachain/runtime/src/lib.rs and configs/mod.rs: the limits of a block in weight and in gas.
-- `mul_floor` stands for the product of a `Perbill` with a u64, whose parts are given in billionths.
use qnch_chain.Prelude.{ℕ, ◌+◌, ◌-◌, ◌*◌, ◌/◌, ◌≤◌, ◌<◌, ◌≡◌, arith}
use native.Mathlib.Nat.{mul-div_cancel}
use qnch_chain.Weights.{saturating_mul, u64_max}

-- `Perbill`, in parts of a billion
abbrev pub average_on_initialize_ratio : ℕ
average_on_initialize_ratio = 50_000_000

abbrev pub normal_dispatch_ratio : ℕ
normal_dispatch_ratio = 750_000_000

abbrev pub gas_per_second : ℕ
gas_per_second = 40_000_000

-- A weight, by its two parts.
pub record Parts : Type 0 where
  pub time : ℕ
  pub proof : ℕ

-- The product of a `Perbill` with a number, which `sp_arithmetic` computes: where the product is a
-- whole number, it is exact, and a ratio of at most one gives at most the number.
pub record Ratio : Type 0 where
  pub mul : ℕ → ℕ → ℕ
  pub mul-exact : (parts x y : ℕ) → x * parts ≡ y * 1_000_000_000 → mul parts x ≡ y
  pub mul-le : (parts x : ℕ) → parts ≤ 1_000_000_000 → mul parts x ≤ x

-- The limits that the builder of `RuntimeBlockWeights` is given.
pub record BlockWeights : Type 0 where
  pub base_block : Parts
  pub base_extrinsic : Parts
  pub normal_max_total : Parts
  pub operational_max_total : Parts
  pub operational_reserved : Parts
  pub avg_block_initialization : ℕ

module _ (R : Ratio) (weight_ref_time_per_second max_pov_size : ℕ) where
  open R use {mul, mul-exact, mul-le}

  -- `WEIGHT_MILLISECS_PER_BLOCK`
  abbrev pub weight_millisecs_per_block : ℕ
  weight_millisecs_per_block = saturating_mul weight_ref_time_per_second 2

  -- `MAXIMUM_BLOCK_WEIGHT`
  abbrev pub maximum_block_weight : Parts
  maximum_block_weight = record { time = weight_millisecs_per_block; proof = max_pov_size }

  -- `WEIGHT_PER_GAS`
  abbrev pub weight_per_gas : ℕ
  weight_per_gas = weight_ref_time_per_second / gas_per_second

  abbrev scale : ℕ → Parts → Parts
  scale parts w = record { time = mul parts w.time; proof = mul parts w.proof }

  -- `RuntimeBlockWeights`, from the weights of an empty block and an empty extrinsic. The subtraction
  -- of weights panics where it would go below zero; here it stops at zero.
  unfoldable pub block_weights : Parts → Parts → BlockWeights
  block_weights block_execution extrinsic_base = record {
    base_block = block_execution;
    base_extrinsic = extrinsic_base;
    normal_max_total = scale normal_dispatch_ratio maximum_block_weight;
    operational_max_total = maximum_block_weight;
    operational_reserved = record {
      time = maximum_block_weight.time - mul normal_dispatch_ratio maximum_block_weight.time;
      proof = maximum_block_weight.proof - mul normal_dispatch_ratio maximum_block_weight.proof;
    };
    avg_block_initialization = average_on_initialize_ratio;
  }

  -- `BlockGasLimit`
  unfoldable pub block_gas_limit : ℕ
  block_gas_limit = mul normal_dispatch_ratio maximum_block_weight.time / weight_per_gas

  -- In both dimensions what normal extrinsics may use and what is reserved for operational ones add
  -- up to the whole block, so the subtraction does not go below zero, and operational extrinsics may
  -- fill the block.
  block_weights-reserved :
      (block_execution extrinsic_base : Parts)
      → let w = block_weights block_execution extrinsic_base in
        (w.normal_max_total.time + w.operational_reserved.time ≡ w.operational_max_total.time)
        × (w.normal_max_total.proof + w.operational_reserved.proof ≡ w.operational_max_total.proof)
        × (w.normal_max_total.time ≤ w.operational_max_total.time)
        × (w.normal_max_total.proof ≤ w.operational_max_total.proof)
  unfolding block_weights
  block_weights-reserved block_execution extrinsic_base = omega (
    arith,
    mul-le normal_dispatch_ratio maximum_block_weight.time (omega arith),
    mul-le normal_dispatch_ratio maximum_block_weight.proof (omega arith),
  )

  -- Whatever the weight of a gas is, if a second is a whole number of gas units and two seconds fit
  -- a u64, a block takes 60 million gas.
  block_gas_limit_lem :
      (w : ℕ)
      → 0 < w
      → weight_ref_time_per_second ≡ w * gas_per_second
      → 2 * weight_ref_time_per_second ≤ u64_max
      → block_gas_limit ≡ 60_000_000
  unfolding block_gas_limit
  block_gas_limit_lem w pos e fits =
      let gas : weight_per_gas ≡ w = omega arith in
      let whole : mul normal_dispatch_ratio weight_millisecs_per_block ≡ 60_000_000 * w =
        mul-exact _ _ _ (omega arith) in
      rw (whole, gas) (mul-div_cancel 60_000_000 pos)
