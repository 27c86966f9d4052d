-- ===== src/Node/Service/Timing.antt =====
-- The times of the consensus, which the node and the runtime give separately.
use qnch_chain.Prelude.{
  ℕ, ◌+◌, ◌*◌, ◌≤◌, ◌<◌, ◌≡◌, refl, Bool, true, false, some, List, [], ◌∷◌, ◌++◌, ok, arith,
}
use qnch_chain.Weights.{saturating_mul, u64_max}
use qnch_chain.Prelude.Exec.{expect, emit, ◌>>=◌}
use qnch_chain.Runtime.Units.{
  slot_duration, relay_chain_slot_duration_millis, block_processing_velocity,
  unincluded_segment_capacity, minimum_period,
}
use qnch_chain.Runtime.Limits.{Ratio, maximum_block_weight}
use qnch_chain.Node.Service.{Types, Configuration, PartialComponents, AuraParams, Effect, aura}
use qnch_chain.Node.Service.Start.{NetworkParts, StartCrates, start_validator, start_consensus}

-- The durations that the consensus is given fit the runtime, which has `max_time` for a block and
-- `second` for a second: the relay chain's slot is the one that the runtime counts with, a slot of the
-- parachain takes as many relay chain slots as there are blocks in one, a collator has as long to author
-- a block as the block may take, within its slot, and blocks cannot come faster than the minimum period.
pub record Timed {T : Types} (second max_time : ℕ) (experimental : Bool) (p : AuraParams T)
    : Type 0 where
  pub relay_slot : p.relay_chain_slot_duration * 1000 ≡ relay_chain_slot_duration_millis
  pub slot : slot_duration * block_processing_velocity ≡ relay_chain_slot_duration_millis
  pub authoring : p.authoring_duration * second ≡ 1000 * max_time
  pub in_slot : p.authoring_duration ≤ slot_duration
  pub period : minimum_period experimental + minimum_period experimental ≤ slot_duration
  pub ahead : block_processing_velocity < unincluded_segment_capacity

doubled : (second : ℕ) → second * 2 ≤ u64_max → 2000 * second ≡ 1000 * saturating_mul second 2
doubled second h = ground (arith, h)

periods :
    (experimental : Bool)
    → minimum_period experimental + minimum_period experimental ≤ slot_duration
periods true = omega arith
periods false = omega arith

module _ {T : Types} {E X R : Type 0} (C : StartCrates T E X R) (Q : Ratio) where
  -- For a validator that has a collator key, and if two seconds of weight fit a u64, the consensus
  -- starts as the one effect, with times that fit the limits and the times of the runtime.
  start_validator-Timed :
      (config : Configuration T) (params : PartialComponents T) (para_id : ℕ)
      (relay : T.RelayInterface) (key : T.CollatorKey) (overseer : T.Overseer)
      (net : NetworkParts T) (experimental : Bool) (second max_pov_size : ℕ) (s : List (Effect T))
      → second * 2 ≤ u64_max
      → (p : AuraParams T) × (start_validator C config params para_id relay
            (some key)
            overseer
            net
            true
            s
          ≡ (ok tt, s ++ (aura p ∷ [])))
        × Timed second (maximum_block_weight Q second max_pov_size).time experimental p
  unfolding start_validator start_consensus ◌>>=◌ expect emit
  start_validator-Timed config params para_id relay key overseer net experimental second
        max_pov_size s fits =
      (
        _,
        refl,
        record {
          relay_slot = refl;
          slot = refl;
          authoring = doubled second fits;
          in_slot = omega arith;
          period = periods experimental;
          ahead = omega arith;
        },
      )
