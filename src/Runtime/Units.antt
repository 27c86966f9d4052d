-- ===== src/Runtime/Units.antt =====
-- parachain/runtime/src/lib.rs and configs/mod.rs: the constants of time and of money. Balances are
-- u128 and block numbers u32; the compiler refuses a constant that overflows.
use qnch_chain.Prelude.{ℕ, ◌*◌, ◌/◌, ◌^◌, ◌-◌, Bool, true, false}

abbrev pub u128_max : ℕ
u128_max = 2 ^ 128 - 1

abbrev pub u32_max : ℕ
u32_max = 2 ^ 32 - 1

abbrev pub millisecs_per_block : ℕ
millisecs_per_block = 6000

abbrev pub slot_duration : ℕ
slot_duration = millisecs_per_block

abbrev pub minutes : ℕ
minutes = 60_000 / millisecs_per_block

abbrev pub hours : ℕ
hours = minutes * 60

abbrev pub days : ℕ
days = hours * 24

abbrev pub microunit : ℕ
microunit = 1_000_000_000_000

abbrev pub milliunit : ℕ
milliunit = 1_000 * microunit

abbrev pub centiunit : ℕ
centiunit = 10 * milliunit

abbrev pub unit : ℕ
unit = 1_000 * milliunit

abbrev pub existential_deposit : ℕ
existential_deposit = milliunit

-- `TransactionByteFee`
abbrev pub transaction_byte_fee : ℕ
transaction_byte_fee = 10 * microunit

-- `BaseDeliveryFee`
abbrev pub base_delivery_fee : ℕ
base_delivery_fee = centiunit * 3

-- The relay chain: the duration of its slots, and how many blocks it takes in one.
abbrev pub relay_chain_slot_duration_millis : ℕ
relay_chain_slot_duration_millis = 6000

abbrev pub block_processing_velocity : ℕ
block_processing_velocity = 1

abbrev pub unincluded_segment_capacity : ℕ
unincluded_segment_capacity = 3

-- `MinimumPeriod`, by the feature `experimental`
abbrev pub minimum_period : Bool → ℕ
minimum_period true = 0
minimum_period false = slot_duration / 2
