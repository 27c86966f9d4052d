-- ===== src/Weights.antt =====
-- What the crates take from `sp_weights` and `sp_arithmetic`, which are not part of this repository:
-- two-dimensional weights with saturating arithmetic on u64, database weights, the constants of
-- reference time, and the product with a `Perbill`. The laws are their documented behaviour.
pub mod Database
pub mod Sample
use qnch_chain.Prelude.{ℕ, ◌+◌, ◌-◌, ◌*◌, ◌^◌, ◌≤◌, ◌≡◌, min}

-- `u64::MAX`
abbrev pub u64_max : ℕ
u64_max = 2 ^ 64 - 1

-- `u64::saturating_mul`
abbrev pub saturating_mul : ℕ → ℕ → ℕ
saturating_mul a b = min (a * b) u64_max

-- `RuntimeDbWeight`
pub record RuntimeDbWeight : Type 0 where
  pub read : ℕ
  pub write : ℕ

pub record WeightApi : Type 1 where
  pub Weight : Type 0
  pub from_parts : ℕ → ℕ → Weight
  pub ref_time : Weight → ℕ
  pub proof_size : Weight → ℕ
  pub saturating_add : Weight → Weight → Weight
  pub reads : RuntimeDbWeight → ℕ → Weight
  pub writes : RuntimeDbWeight → ℕ → Weight
  pub ref_time-from_parts : (t p : ℕ) → ref_time (from_parts t p) ≡ t
  pub proof_size-from_parts : (t p : ℕ) → proof_size (from_parts t p) ≡ p
  pub ref_time-saturating_add :
      (a b : Weight) → ref_time (saturating_add a b) ≡ min (ref_time a + ref_time b) u64_max
  pub proof_size-saturating_add :
      (a b : Weight) → proof_size (saturating_add a b) ≡ min (proof_size a + proof_size b) u64_max
  pub ref_time-reads :
      (w : RuntimeDbWeight) (n : ℕ) → ref_time (reads w n) ≡ saturating_mul w.read n
  pub proof_size-reads : (w : RuntimeDbWeight) (n : ℕ) → proof_size (reads w n) ≡ 0
  pub ref_time-writes :
      (w : RuntimeDbWeight) (n : ℕ) → ref_time (writes w n) ≡ saturating_mul w.write n
  pub proof_size-writes : (w : RuntimeDbWeight) (n : ℕ) → proof_size (writes w n) ≡ 0
  -- `frame_support::weights::constants`
  pub weight_ref_time_per_second : ℕ
  pub weight_ref_time_per_millis : ℕ
  pub weight_ref_time_per_micros : ℕ
  pub weight_ref_time_per_nanos : ℕ
  pub per_second : weight_ref_time_per_second ≡ 1_000_000_000_000
  pub per_millis : weight_ref_time_per_millis ≡ 1_000_000_000
  pub per_micros : weight_ref_time_per_micros ≡ 1_000_000
  pub per_nanos : weight_ref_time_per_nanos ≡ 1_000
