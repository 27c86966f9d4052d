-- ===== src/Runtime/DeploymentControl.antt =====
-- parachain/runtime/src/deployment_control.rs: the two other gates on deployments, an `OnCreate`
-- hook and an origin check for `pallet_evm`.
use qnch_chain.Prelude.{Option, none, some, Result, ok, err, not, if◌then◌else◌, is_yes}
use qnch_chain.Frame.{Frame}
use qnch_chain.Pallet
use qnch_chain.Pallet.{Event, is_authorized}

module _ {A H : Type 0} {dec : Discrete A} (F : Frame dec (Event A)) (into_account_id : H → A) where
  open F use {Origin, ensure_signed}

  -- `RestrictedDeployment::on_create`; `none` is the panic.
  unfoldable pub on_create : H → H → Pallet.State F → Option (Unit {0})
  unfolding is_authorized
  on_create owner contract s =
      let account_id = into_account_id owner in
      if not (is_authorized F account_id s) then none else some tt

  -- The part of `try_address_origin` behind `ensure_signed`.
  abbrev check_signed : A → H → Origin → Pallet.State F → Result A Origin
  check_signed who address origin s =
      let account_id = into_account_id address in
      if not (is_yes (dec who account_id))
      then err origin
      else (if is_authorized F who s then ok who else err origin)

  -- `EnsureSudoCanDeploy::try_address_origin`
  unfoldable pub try_address_origin : H → Origin → Pallet.State F → Result A Origin
  unfolding is_authorized
  try_address_origin address origin s = elim (ensure_signed origin) [
    | err _ ↦ err origin
    | ok who ↦ check_signed who address origin s
  ]
