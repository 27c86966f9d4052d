-- ===== src/Runtime/Config/Messages.antt =====
-- What the numbers of parachain/runtime/src/configs/mod.rs and configs/xcm.rs say together of the XCM
-- messages that a block serves.
use Prim.Native.Nat.{max}
use qnch_chain.Prelude.{ℕ, ◌*◌, ◌/◌, ◌≤◌, ◌<◌, ◌≡◌, arith}
use qnch_chain.Runtime.Limits.{Parts, Ratio}
use qnch_chain.Runtime.Config.{
  xcm_limits, message_queue_service_weight, reserved_xcmp_weight, reserved_dmp_weight,
}

-- `FixedWeightBounds`: a message weighs at least the unit weight for each instruction.
abbrev pub Weighs : ℕ → Parts → Type 0
Weighs instructions w =
    (instructions * xcm_limits.unit_weight_cost.time ≤ w.time)
    × (instructions * xcm_limits.unit_weight_cost.proof ≤ w.proof)

-- Where a block takes five MiB of proof, a message that fits the service weight of the message queue
-- has at most 28 instructions, and one that fits a weight reserved for messages has at most 20,
-- whatever the time that a block takes. So the limit of 100 instructions is never met.
message_instructions :
    (R : Ratio) (max_block w v : Parts) (served reserved : ℕ)
    → max_block.proof ≡ 5 * 1024 * 1024
    → Weighs served w
    → w.proof ≤ (message_queue_service_weight R max_block).proof
    → Weighs reserved v
    → v.proof ≤ max (reserved_xcmp_weight max_block).proof (reserved_dmp_weight max_block).proof
    → (served ≤ 28)
      × (reserved ≤ 20)
      × (served < xcm_limits.max_instructions)
      × (reserved < xcm_limits.max_instructions)
message_instructions R max_block w v served reserved full weighs fits weighs' fits' =
    let service : R.mul 350_000_000 max_block.proof ≡ 28 * 65_536 =
      R.mul-exact 350_000_000 max_block.proof (28 * 65_536) (omega arith) in
    let slice : max_block.proof / 4 ≡ 20 * 65_536 = omega arith in omega arith
