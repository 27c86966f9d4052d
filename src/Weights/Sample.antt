-- ===== src/Weights/Sample.antt =====
-- Weights as pairs of numbers, for tests and witnesses.
use qnch_chain.Prelude.{ℕ, ◌+◌, refl, min}
use qnch_chain.Weights.{u64_max, saturating_mul, WeightApi}

abbrev pub pair_weights : WeightApi
pair_weights = record {
  Weight = ℕ × ℕ;
  from_parts = λ t p. (t, p);
  ref_time = λ w. w.0;
  proof_size = λ w. w.1;
  saturating_add = λ a b. (min (a.0 + b.0) u64_max, min (a.1 + b.1) u64_max);
  reads = λ w n. (saturating_mul w.read n, 0);
  writes = λ w n. (saturating_mul w.write n, 0);
  ref_time-from_parts = λ t p. refl;
  proof_size-from_parts = λ t p. refl;
  ref_time-saturating_add = λ a b. refl;
  proof_size-saturating_add = λ a b. refl;
  ref_time-reads = λ w n. refl;
  proof_size-reads = λ w n. refl;
  ref_time-writes = λ w n. refl;
  proof_size-writes = λ w n. refl;
  weight_ref_time_per_second = 1_000_000_000_000;
  weight_ref_time_per_millis = 1_000_000_000;
  weight_ref_time_per_micros = 1_000_000;
  weight_ref_time_per_nanos = 1_000;
  per_second = refl;
  per_millis = refl;
  per_micros = refl;
  per_nanos = refl;
}
