-- ===== src/Runtime/Lifecycle/Safety.antt =====
-- Who creates contracts on a chain whose blocks take their Ethereum transactions from the pool
-- (parachain/runtime/src/lib.rs, lines 365 to 449).
use qnch_chain.Prelude.{◌≡◌, ◌⊎◌, true, false, All}
use qnch_chain.Frame.{Frame}
use qnch_chain.Pallet.{Event, is_authorized}
use qnch_chain.Runtime.Ethereum.{Chain, EthereumPallet}
use qnch_chain.Runtime.Gates.{creates}
use qnch_chain.Runtime.Lifecycle.{Dispatcher, System, Signed, Step, IsOrdinary, Runs, deployer}

module _ {A H Rest Other D V X W : Type 0} {dec : Discrete A} (F : Frame dec (Event A))
    (E : EthereumPallet (Chain F W) H Rest D V X) (into_account_id : H → A)
    (R : Dispatcher F H Rest Other W) where
  abbrev Sys : Type 0
  Sys = System F H Rest W

  abbrev Leads : Sys → Sys → Type 0
  Leads = Runs F E into_account_id R

  abbrev Moves : Sys → Sys → Type 0
  Moves s t = (step : Step F E into_account_id R s t) × IsOrdinary F E into_account_id R step

  -- Between `s` and `t`, the account was authorized.
  abbrev Known : Sys → Sys → A → Type 0
  Known s t a = (u : Sys) × Leads s u × Leads u t × (is_authorized F a u.chain.control ≡ true)

  -- The transaction creates no contract, or its signer was authorized since `s`.
  abbrev Backed : Sys → Sys → Signed H Rest → Type 0
  Backed s t e = (creates e.payload ≡ false) ⊎ Known s t (deployer into_account_id e)

  abbrev Inv : Sys → Sys → Type 0
  Inv s t = All (Backed s t) t.pool × All (Backed s t) t.executed
