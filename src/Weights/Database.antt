-- ===== src/Weights/Database.antt =====
-- parachain/runtime/src/weights: the weights of the databases, of an empty block and of an empty
-- extrinsic.
use qnch_chain.Prelude.{ℕ, ◌*◌, ◌≤◌, arith}
use qnch_chain.Weights.{saturating_mul, RuntimeDbWeight, WeightApi}

module _ (K : WeightApi) where
  open K use {
    Weight, from_parts, ref_time, reads, writes, weight_ref_time_per_millis,
    weight_ref_time_per_micros, weight_ref_time_per_nanos, ref_time-from_parts, ref_time-reads,
    ref_time-writes, per_millis, per_micros, per_nanos,
  }

  -- `BlockExecutionWeight`
  unfoldable pub block_execution_weight : Weight
  block_execution_weight = from_parts (saturating_mul weight_ref_time_per_nanos 5_000_000) 0

  -- `ExtrinsicBaseWeight`
  unfoldable pub extrinsic_base_weight : Weight
  extrinsic_base_weight = from_parts (saturating_mul weight_ref_time_per_nanos 125_000) 0

  -- `RocksDbWeight`
  unfoldable pub rocks_db_weight : RuntimeDbWeight
  rocks_db_weight = record {
    read = 25_000 * weight_ref_time_per_nanos;
    write = 100_000 * weight_ref_time_per_nanos;
  }

  -- `ParityDbWeight`
  unfoldable pub parity_db_weight : RuntimeDbWeight
  parity_db_weight = record {
    read = 8_000 * weight_ref_time_per_nanos;
    write = 50_000 * weight_ref_time_per_nanos;
  }

  -- A weight lies between two bounds of reference time.
  abbrev pub IsBetween : ℕ → Weight → ℕ → Type 0
  IsBetween lo w hi = (lo ≤ ref_time w) × (ref_time w ≤ hi)

  -- What the `sane` tests assert of a database: a read and a write take 1 µs to 1 ms each.
  abbrev pub IsSane : RuntimeDbWeight → Type 0
  IsSane w =
      IsBetween weight_ref_time_per_micros (reads w 1) weight_ref_time_per_millis
      × IsBetween weight_ref_time_per_micros (writes w 1) weight_ref_time_per_millis

  -- All that the `sane` tests assert holds: reads and writes of both databases take 1 µs to 1 ms,
  -- an empty block 100 µs to 50 ms, an empty extrinsic 10 µs to 1 ms.
  weights-IsSane :
      IsSane rocks_db_weight
      × IsSane parity_db_weight
      × IsBetween
          (100 * weight_ref_time_per_micros)
          block_execution_weight
          (50 * weight_ref_time_per_millis)
      × IsBetween (10 * weight_ref_time_per_micros) extrinsic_base_weight weight_ref_time_per_millis
  unfolding rocks_db_weight parity_db_weight block_execution_weight extrinsic_base_weight
  weights-IsSane =
      simp (ref_time-from_parts, ref_time-reads, ref_time-writes, per_millis, per_micros, per_nanos)
        (omega arith)
