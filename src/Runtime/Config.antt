-- ===== src/Runtime/Config.antt =====
-- parachain/runtime/src/configs/mod.rs and configs/xcm.rs: the numbers that configure the pallets, in
-- the order of the source, and the two weights computed from the limits of a block. A `Permill` is
-- given in millionths, a `Perbill` in billionths.
pub mod Messages
pub mod Evm
use qnch_chain.Prelude.{Bool, true, ℕ, ◌*◌, ◌/◌, ◌^◌, ◌-◌}
use qnch_chain.Runtime.Units.{hours, existential_deposit, slot_duration}
use qnch_chain.Runtime.Limits.{Parts, Ratio, normal_dispatch_ratio}

-- `SS58Prefix`
abbrev pub ss58_prefix : ℕ
ss58_prefix = 42

-- `MaxConsumers`
abbrev pub max_consumers : ℕ
max_consumers = 16

-- `ExtraDataLength`
abbrev pub extra_data_length : ℕ
extra_data_length = 30

-- `BaseFeeThreshold`
pub record BaseFeeThreshold : Type 0 where
  pub lower : ℕ
  pub ideal : ℕ
  pub upper : ℕ

abbrev pub base_fee_threshold : BaseFeeThreshold
base_fee_threshold = record { lower = 0; ideal = 500_000; upper = 1_000_000 }

-- `DefaultBaseFeePerGas`
abbrev pub default_base_fee_per_gas : ℕ
default_base_fee_per_gas = 1_000_000_000

-- `DefaultElasticity`
abbrev pub default_elasticity : ℕ
default_elasticity = 125_000

-- The numbers of `impl pallet_balances::Config for Runtime`
pub record BalancesConfig : Type 0 where
  pub max_locks : ℕ
  pub existential_deposit : ℕ
  pub max_reserves : ℕ
  pub max_freezes : ℕ

abbrev pub balances_config : BalancesConfig
balances_config = record {
  max_locks = 50;
  existential_deposit = existential_deposit;
  max_reserves = 50;
  max_freezes = 0;
}

-- The numbers of `impl pallet_message_queue::Config for Runtime`
pub record MessageQueueConfig : Type 0 where
  pub heap_size : ℕ
  pub max_stale : ℕ

abbrev pub message_queue_config : MessageQueueConfig
message_queue_config = record { heap_size = 64 * 1024; max_stale = 8 }

-- The numbers of `impl cumulus_pallet_xcmp_queue::Config for Runtime`
pub record XcmpQueueConfig : Type 0 where
  pub max_inbound_suspended : ℕ
  pub max_active_outbound_channels : ℕ
  pub max_page_size : ℕ

abbrev pub xcmp_queue_config : XcmpQueueConfig
xcmp_queue_config = record {
  max_inbound_suspended = 1_000;
  max_active_outbound_channels = 128;
  max_page_size = 2 ^ 16;
}

-- `Period` and `Offset`, between the ends of sessions
pub record PeriodicSessions : Type 0 where
  pub period : ℕ
  pub offset : ℕ

abbrev pub periodic_sessions : PeriodicSessions
periodic_sessions = record { period = 6 * hours; offset = 0 }

-- `SessionLength`
abbrev pub session_length : ℕ
session_length = 6 * hours

-- The values of `impl pallet_aura::Config for Runtime`
pub record AuraConfig : Type 0 where
  pub max_authorities : ℕ
  pub allow_multiple_blocks_per_slot : Bool
  pub slot_duration : ℕ

abbrev pub aura_config : AuraConfig
aura_config = record {
  max_authorities = 100_000;
  allow_multiple_blocks_per_slot = true;
  slot_duration = slot_duration;
}

-- The numbers of `impl pallet_collator_selection::Config for Runtime`
pub record CollatorConfig : Type 0 where
  pub max_candidates : ℕ
  pub min_eligible_collators : ℕ
  pub max_invulnerables : ℕ
  pub kick_threshold : ℕ

abbrev pub collator_config : CollatorConfig
collator_config = record {
  max_candidates = 100;
  min_eligible_collators = 4;
  max_invulnerables = 20;
  kick_threshold = periodic_sessions.period;
}

-- `OperationalFeeMultiplier`
abbrev pub operational_fee_multiplier : ℕ
operational_fee_multiplier = 5

-- `RuntimeBlockLength`, with what `BlockLength::max_with_normal_ratio` makes of its arguments
abbrev pub runtime_block_length : {Length : Type 0} → (ℕ → ℕ → Length) → Length
runtime_block_length max_with_normal_ratio =
    max_with_normal_ratio (5 * 1024 * 1024) normal_dispatch_ratio

-- `UnitWeightCost`, `MaxInstructions` and `MaxAssetsIntoHolding`
pub record XcmLimits : Type 0 where
  pub unit_weight_cost : Parts
  pub max_instructions : ℕ
  pub max_assets_into_holding : ℕ

abbrev pub xcm_limits : XcmLimits
xcm_limits = record {
  unit_weight_cost = record { time = 1_000_000_000; proof = 64 * 1024 };
  max_instructions = 100;
  max_assets_into_holding = 64;
}

-- `Weight::saturating_div` by a number other than zero
abbrev saturating_div : Parts → ℕ → Parts
saturating_div w n = record { time = w.time / n; proof = w.proof / n }

module _ (maximum_block_weight : Parts) where
  -- `ReservedXcmpWeight`
  abbrev pub reserved_xcmp_weight : Parts
  reserved_xcmp_weight = saturating_div maximum_block_weight 4

  -- `ReservedDmpWeight`
  abbrev pub reserved_dmp_weight : Parts
  reserved_dmp_weight = saturating_div maximum_block_weight 4

-- `MessageQueueServiceWeight`, from the largest weight of a block
abbrev pub message_queue_service_weight : Ratio → Parts → Parts
message_queue_service_weight R max_block = record {
  time = R.mul 350_000_000 max_block.time;
  proof = R.mul 350_000_000 max_block.proof;
}
