-- ===== src/Pallet/Weights.antt =====
-- parachain/pallets/evm-deployment-control/src/weights.rs: the weights of the pallet's calls, for a
-- runtime (`SubstrateWeight<T>`) and for tests (`()`).
use qnch_chain.Prelude.{◌+◌, ◌*◌, ◌≤◌, ◌≡◌, arith}
use qnch_chain.Weights.{RuntimeDbWeight, WeightApi, u64_max}

-- `trait WeightInfo`
pub record WeightInfo (W : Type 0) : Type 0 where
  pub authorize_deployer : W
  pub revoke_deployer : W
  pub is_authorized_check : W

module _ (K : WeightApi) where
  open K use {Weight, from_parts, ref_time, proof_size, saturating_add, reads, writes}
  open K use {
    ref_time-from_parts, proof_size-from_parts, ref_time-saturating_add, proof_size-saturating_add,
    ref_time-reads, proof_size-reads, ref_time-writes, proof_size-writes,
  }

  -- `SubstrateWeight<T>`, at the `DbWeight` of the runtime
  unfoldable pub substrate_weight : RuntimeDbWeight → WeightInfo Weight
  substrate_weight db = record {
    authorize_deployer =
        saturating_add
          (saturating_add (saturating_add (from_parts 10_686_000 0) (from_parts 0 3501))
            (reads db 1))
          (writes db 1);
    revoke_deployer =
        saturating_add
          (saturating_add (saturating_add (from_parts 11_873_000 0) (from_parts 0 3501))
            (reads db 1))
          (writes db 1);
    is_authorized_check =
        saturating_add (saturating_add (from_parts 5_937_000 0) (from_parts 0 3501)) (reads db 1);
  }

  -- `impl WeightInfo for ()`; `rocks_db` is `frame_support`'s `RocksDbWeight`.
  unfoldable pub unit_weight : RuntimeDbWeight → WeightInfo Weight
  unit_weight rocks_db = record {
    authorize_deployer =
        saturating_add
          (saturating_add (saturating_add (from_parts 10_686_000 3501) (from_parts 0 3501))
            (reads rocks_db 1))
          (writes rocks_db 1);
    revoke_deployer =
        saturating_add
          (saturating_add (saturating_add (from_parts 11_873_000 3501) (from_parts 0 3501))
            (reads rocks_db 1))
          (writes rocks_db 1);
    is_authorized_check =
        saturating_add (saturating_add (from_parts 5_937_000 3501) (from_parts 0 3501))
          (reads rocks_db 1);
  }

  -- Over the same database the two sets of weights agree in reference time for every call, while
  -- the test weights count the proof size twice.
  unit_weight-substrate_weight :
      (db : RuntimeDbWeight)
      → let u = unit_weight db in
        let s = substrate_weight db in
        (ref_time u.authorize_deployer ≡ ref_time s.authorize_deployer)
        × (ref_time u.revoke_deployer ≡ ref_time s.revoke_deployer)
        × (ref_time u.is_authorized_check ≡ ref_time s.is_authorized_check)
        × (proof_size u.authorize_deployer ≡ 2 * proof_size s.authorize_deployer)
        × (proof_size u.revoke_deployer ≡ 2 * proof_size s.revoke_deployer)
        × (proof_size u.is_authorized_check ≡ 2 * proof_size s.is_authorized_check)
  unfolding unit_weight substrate_weight
  unit_weight-substrate_weight db =
      simp
        (
          ref_time-from_parts, proof_size-from_parts, ref_time-saturating_add,
          proof_size-saturating_add, ref_time-reads, proof_size-reads, ref_time-writes,
          proof_size-writes,
        )
        (omega arith)

  -- As long as a read, a write and 11873000 fit a u64, no weight saturates: the reference time of a
  -- change is that of one read, one write and its own work, that of a query one read and its own work.
  substrate_weight-ordered :
      (db : RuntimeDbWeight)
      → db.read + db.write + 11_873_000 ≤ u64_max
      → let s = substrate_weight db in
        (ref_time s.authorize_deployer ≡ db.read + db.write + 10_686_000)
        × (ref_time s.revoke_deployer ≡ db.read + db.write + 11_873_000)
        × (ref_time s.is_authorized_check ≡ db.read + 5_937_000)
  unfolding substrate_weight
  substrate_weight-ordered db h =
      simp (ref_time-from_parts, ref_time-saturating_add, ref_time-reads, ref_time-writes)
        (omega arith)
