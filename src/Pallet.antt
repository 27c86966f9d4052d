-- ===== src/Pallet.antt =====
-- parachain/pallets/evm-deployment-control/src/lib.rs: the whitelist of EVM deployers, its genesis,
-- its two calls and its query.
pub mod Whitelist
pub mod History
pub mod Genesis
pub mod Weights
pub mod Benchmarks
mod Tests
use qnch_chain.Prelude.{
  ℕ, Bool, not, List, [], ◌∷◌, map_err, Action, ◌>>=◌, ◌>>◌, pure, lift, gets, modify, ensure,
}
use qnch_chain.Frame.{Frame, BadOrigin}

-- `DeploymentValidationError`, `#[repr(u8)]`
pub data DeploymentValidationError : Type 0 where
  unauthorized_deployer : DeploymentValidationError

-- `From<DeploymentValidationError> for u8`
unfoldable pub to_u8 : DeploymentValidationError → ℕ
to_u8 unauthorized_deployer = 0

pub data Event (A : Type 0) : Type 0 where
  deployer_authorized deployer_revoked : A → Event A

pub data Error : Type 0 where
  already_authorized not_authorized : Error

-- `DispatchError`, as far as the calls of this pallet return it
pub data DispatchError : Type 0 where
  bad_origin : DispatchError
  module_error : Error → DispatchError

-- The calls, by `call_index` 0 and 1.
pub data Call (A : Type 0) : Type 0 where
  authorize revoke : A → Call A

abbrev from_bad_origin : BadOrigin → DispatchError
from_bad_origin _ = bad_origin

-- `GenesisConfig`
pub record GenesisConfig (A : Type 0) : Type 0 where
  pub authorized_deployers : List A

-- `GenesisConfig::default`
unfoldable pub default_genesis_config : {A : Type 0} → GenesisConfig A
default_genesis_config = record { authorized_deployers = [] }

module _ {A : Type 0} {dec : Discrete A} where
  -- The storage that the pallet writes: `AuthorizedDeployers`, and the events of `frame_system`.
  pub record State (F : Frame dec (Event A)) : Type 0 where
    pub authorized_deployers : F.Store
    pub system : F.System

  module _ (F : Frame dec (Event A)) where
    open F use {Origin, ensure_root, contains_key, insert, remove, deposit_event}

    abbrev pub DispatchResult : Type 0
    DispatchResult = Action (State F) DispatchError (Unit {0})

    -- the loop of `build`
    unfoldable pub build_from : List A → State F → State F
    build_from [] s = s
    build_from (deployer ∷ rest) s =
        build_from rest (record s { authorized_deployers = insert deployer s.authorized_deployers })

    -- `GenesisConfig::build`
    unfoldable pub build : GenesisConfig A → State F → State F
    unfolding build_from
    build config s = build_from config.authorized_deployers s

    abbrev deposit : Event A → DispatchResult
    deposit e = modify (λ s. record s { system = deposit_event e s.system })

    unfoldable pub authorize_deployer : Origin → A → DispatchResult
    authorize_deployer origin deployer = do
      lift (map_err from_bad_origin (ensure_root origin))
      known ← gets (λ s. contains_key deployer s.authorized_deployers)
      ensure (not known) (module_error already_authorized)
      modify (λ s. record s { authorized_deployers = insert deployer s.authorized_deployers })
      deposit (deployer_authorized deployer)
      pure tt

    unfoldable pub revoke_deployer : Origin → A → DispatchResult
    revoke_deployer origin deployer = do
      lift (map_err from_bad_origin (ensure_root origin))
      known ← gets (λ s. contains_key deployer s.authorized_deployers)
      ensure known (module_error not_authorized)
      modify (λ s. record s { authorized_deployers = remove deployer s.authorized_deployers })
      deposit (deployer_revoked deployer)
      pure tt

    unfoldable pub is_authorized : A → State F → Bool
    is_authorized account s = contains_key account s.authorized_deployers

    -- The call enum that `#[pallet::call]` makes of the two functions, and its dispatch.
    unfoldable pub dispatch : Call A → Origin → DispatchResult
    unfolding authorize_deployer revoke_deployer
    dispatch (authorize deployer) origin = authorize_deployer origin deployer
    dispatch (revoke deployer) origin = revoke_deployer origin deployer
