-- ===== src/Node/Service/Pending.antt =====
-- The inherents of a pending block, which the RPC servers simulate calls in.
use qnch_chain.Prelude.{ℕ, ◌+◌, ◌/◌, ◌%◌, ◌^◌, ◌<◌, ◌≡◌, refl, sym, ap, ◌∙◌}
use native.Mathlib.Nat.{add-div_right, mod-eq_of_lt}
use qnch_chain.Node.Frontier.{EthConfiguration}
use qnch_chain.Node.Service.{Types}
use qnch_chain.Node.Service.Start.{StartCrates, pending_inherents}

module _ {T : Types} {E X R : Type 0} (C : StartCrates T E X R) where
  -- If the slot of a time is that time by the slot duration, rounded down, and the time one slot later
  -- fits a u64, then a pending block is simulated in the slot that follows the current one, at a time
  -- one slot later, and with the gas price of the options.
  pending_inherents_lem :
      ((t d : ℕ) → 0 < d → C.slot_of t d ≡ t / d)
      → (slot_duration : ℕ) (eth_config : EthConfiguration) (now : ℕ) → 0 < slot_duration
      → now + slot_duration < 2 ^ 64
      → let pending = pending_inherents C slot_duration eth_config now in
        (pending.slot ≡ C.slot_of now slot_duration + 1)
        × (pending.timestamp ≡ now + slot_duration)
        × (pending.dynamic_fee ≡ eth_config.target_gas_price)
  unfolding pending_inherents
  pending_inherents_lem slot slot_duration eth_config now pos fits =
      let whole : (now + slot_duration) % 2 ^ 64 ≡ now + slot_duration = mod-eq_of_lt fits in
      (
        ap (λ t. C.slot_of t slot_duration) whole
            ∙ slot (now + slot_duration) slot_duration pos
            ∙ add-div_right now pos
            ∙ ap (λ q. q + 1) (sym (slot now slot_duration pos)),
        whole,
        refl,
      )
