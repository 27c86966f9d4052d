-- ===== src/Runtime/Time.antt =====
-- parachain/runtime/src/configs/mod.rs: how the time of a block and its slot belong together, by
-- `impl pallet_timestamp::Config` and `impl pallet_aura::Config`. The two pallets are of other crates,
-- with what is documented of them; a panic, which makes a block invalid, is `none`.
pub mod Slots
use qnch_chain.Prelude.{
  ℕ, ◌+◌, ◌/◌, ◌≤◌, ◌<◌, ◌≡◌, ◌⊎◌, Bool, true, false, Option, some, if◌then◌else◌,
}
use qnch_chain.Prelude.Partial.{◌>>=◌}
use qnch_chain.Runtime.Units.{slot_duration}
use qnch_chain.Runtime.Config.{AuraConfig, aura_config}

-- `pallet_timestamp::Config`
pub record TimestampConfig (S : Type 0) : Type 0 where
  pub on_timestamp_set : ℕ → S → Option S
  pub minimum_period : ℕ

-- The slot of the digest comes after that of the block before, or is the same if this is allowed.
abbrev pub Succeeds : Bool → ℕ → ℕ → Type 0
Succeeds true old new = old ≤ new
Succeeds false old new = old < new

-- Aura takes the slot of a block from its digest, and wants the time of the block to lie in this slot.
-- The timestamp of a block is set once, at least the minimum period after that of the block before, if
-- there is one, and then passed on.
pub record TimePallets (S : Type 0) : Type 1 where
  pub now : S → ℕ
  pub current_slot : S → ℕ
  pub aura_initialize : AuraConfig → ℕ → S → Option S
  pub aura_initialize-some :
      (c : AuraConfig) (slot : ℕ) (s t : S)
      → aura_initialize c slot s ≡ some t
      → Succeeds c.allow_multiple_blocks_per_slot (current_slot s) slot
        × (current_slot t ≡ slot)
        × (now t ≡ now s)
  pub aura_on_timestamp_set : AuraConfig → ℕ → S → Option S
  pub aura_on_timestamp_set-some :
      (c : AuraConfig) (moment : ℕ) (s t : S)
      → aura_on_timestamp_set c moment s ≡ some t
      → (current_slot s ≡ moment / c.slot_duration) × (t ≡ s)
  pub timestamp_set : TimestampConfig S → ℕ → S → Option S
  pub timestamp_set-some :
      (c : TimestampConfig S) (moment : ℕ) (s t : S)
      → timestamp_set c moment s ≡ some t
      → (u : S) × ((now s ≡ 0) ⊎ (now s + c.minimum_period ≤ moment))
        × (now u ≡ moment)
        × (current_slot u ≡ current_slot s)
        × (c.on_timestamp_set moment u ≡ some t)

module _ {S : Type 0} (C : TimePallets S) (experimental : Bool) where
  -- `impl pallet_timestamp::Config for Runtime`, without and with the feature `experimental`
  abbrev pub timestamp_config : TimestampConfig S
  timestamp_config = record {
    on_timestamp_set = C.aura_on_timestamp_set aura_config;
    minimum_period = if experimental then 0 else slot_duration / 2;
  }

  -- The start of a block: the hook of Aura, and the inherent that sets the time.
  unfoldable pub start_block : ℕ → ℕ → S → Option S
  start_block slot moment s =
      C.aura_initialize aura_config slot s >>= C.timestamp_set timestamp_config moment
