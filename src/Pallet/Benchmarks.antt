-- ===== src/Pallet/Benchmarks.antt =====
-- parachain/pallets/evm-deployment-control/src/benchmarking.rs: the benchmarks of the calls, each from
-- a storage and for the account that it makes. `none` is a benchmark that fails.
use qnch_chain.Prelude.{
  ◌≡◌, Bool, true, false, not, Option, none, some, ok, err, arith, if◌then◌else◌,
}
use qnch_chain.Prelude.Partial.{◌>>=◌}
use qnch_chain.Frame.{Frame}
use qnch_chain.Pallet.{
  Event, State, DispatchResult, authorize_deployer, revoke_deployer, is_authorized,
}

module _ {A : Type 0} {dec : Discrete A} (F : Frame dec (Event A)) where
  open F use {root, insert, contains_key, contains_key-insert, contains_key-remove}

  -- `#[extrinsic_call]`, whose call has to succeed
  abbrev extrinsic_call : DispatchResult F → State F → Option (State F)
  extrinsic_call call s = let (r, t) = call s in elim r [ ok u ↦ some t | err e ↦ none ]

  -- `assert!`
  abbrev assert : Bool → State F → Option (State F)
  assert holds s = if holds then some s else none

  -- `AuthorizedDeployers::insert`
  abbrev insert_deployer : A → State F → State F
  insert_deployer deployer s = record s {
    authorized_deployers = insert deployer s.authorized_deployers;
  }

  unfoldable pub authorize_benchmark : A → State F → Option (State F)
  authorize_benchmark deployer s = extrinsic_call (authorize_deployer F root deployer) s >>= λ t.
      assert (contains_key deployer t.authorized_deployers) t

  unfoldable pub revoke_benchmark : A → State F → Option (State F)
  revoke_benchmark deployer s =
      extrinsic_call (revoke_deployer F root deployer) (insert_deployer deployer s) >>= λ t.
      assert (not (contains_key deployer t.authorized_deployers)) t

  -- `is_authorized_check`, with what is measured
  unfoldable pub is_authorized_benchmark : A → State F → Bool × State F
  is_authorized_benchmark deployer s =
      let t = insert_deployer deployer s in (is_authorized F deployer t, t)

  abbrev pub passes : Option (State F) → Bool
  passes none = false
  passes (some t) = true

  -- The benchmark of an authorization passes exactly from storage in which its account is not yet
  -- authorized. That of a revocation passes from every storage, and what the third one measures is a
  -- query that finds its account.
  benchmarks_lem :
      (deployer : A) (s : State F)
      → (passes (authorize_benchmark deployer s) ≡ not (is_authorized F deployer s))
        × (passes (revoke_benchmark deployer s) ≡ true)
        × ((is_authorized_benchmark deployer s).0 ≡ true)
  unfolding authorize_benchmark revoke_benchmark is_authorized_benchmark authorize_deployer
      revoke_deployer is_authorized
  benchmarks_lem deployer s = (
    ground
        (arith, F.ensure_root-root, contains_key-insert deployer deployer s.authorized_deployers),
    ground (
      arith,
      F.ensure_root-root,
      contains_key-insert deployer deployer s.authorized_deployers,
      contains_key-remove deployer deployer (insert deployer s.authorized_deployers),
    ),
    ground (arith, contains_key-insert deployer deployer s.authorized_deployers),
  )
