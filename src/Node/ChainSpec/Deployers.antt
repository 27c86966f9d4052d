-- ===== src/Node/ChainSpec/Deployers.antt =====
-- Who may deploy right after genesis.
use qnch_chain.Prelude.{ℕ, ◌≡◌, false, true, some, ok, err, inr}
use qnch_chain.Frame.{Frame}
use qnch_chain.Pallet.{Event, build, is_authorized, default_genesis_config}
use qnch_chain.Pallet.Genesis.{is_authorized-build}
use qnch_chain.Node.ChainSpec.{Genesis, deployment_control_config}
use qnch_chain.Runtime.Ethereum.{Transaction, transact, Chain, EthereumPallet}
use qnch_chain.Runtime.SelfContained.{ethereum, is_create, unauthorized, validate_self_contained}
use qnch_chain.Runtime.Gates.{validate_unauthorized_iff}

pub nobody_at_genesis :
    {A K : Type 0} {dec : Discrete A} (F : Frame dec (Event A)) (g : Genesis A K) (a : A)
    (system : F.System)
    → is_authorized F a (
        build F
          (deployment_control_config g)
          (record { authorized_deployers = F.empty; system = system }))
      ≡ false
unfolding deployment_control_config is_authorized
nobody_at_genesis F g a system =
    rw (is_authorized-build F default_genesis_config a _).0 (F.contains_key-empty a)

module _ {A H Rest D V X W : Type 0} {dec : Discrete A} (F : Frame dec (Event A))
    (E : EthereumPallet (Chain F W) H Rest D V X) (into_account_id : H → A) (Other : Type 0) where
  -- The storage that the genesis leaves: that of the pallet, built on an empty map, and all other.
  abbrev pub at_genesis : {K : Type 0} → Genesis A K → F.System → W → Chain F W
  at_genesis g system world = record {
    control =
        build F (deployment_control_config g)
          (record { authorized_deployers = F.empty; system = system });
    world = world;
  }

  -- Right after a genesis, whatever its patch, no account is authorized, the sudo key included: every
  -- contract creation that the standard validation accepts is refused, from any sender.
  genesis-unauthorized :
      {K : Type 0} (g : Genesis A K) (system : F.System) (world : W) (t : Transaction H Rest)
      (info : H) (d : D) (len : ℕ) (v : V)
      → is_create t ≡ true
      → E.validate_self_contained (transact t) info d len (at_genesis g system world) ≡ some (ok v)
      → ((a : A) → is_authorized F a (at_genesis g system world).control ≡ false)
        × (validate_self_contained {Other = Other} F E into_account_id
              (ethereum (transact t))
              info
              d
              len
              (at_genesis g system world)
            ≡ some (err unauthorized))
  genesis-unauthorized g system world t info d len v c h =
      let nobody = λ (a : A). nobody_at_genesis F g a system in
      (
        nobody,
        (validate_unauthorized_iff F E into_account_id Other (transact t) info d len _).1
            (inr (v, h, c, nobody (into_account_id info))),
      )
