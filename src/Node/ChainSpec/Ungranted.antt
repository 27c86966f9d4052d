-- ===== src/Node/ChainSpec/Ungranted.antt =====
-- Deployments on a chain that starts from a specification of parachain/node/src/chain_spec.rs.
use qnch_chain.Prelude.{subst, append-nil, sym, ◌∙◌}
use qnch_chain.Frame.{Frame}
use qnch_chain.Pallet.{Event}
use qnch_chain.Node.ChainSpec.{Genesis}
use qnch_chain.Node.ChainSpec.Deployers.{at_genesis, nobody_at_genesis}
use qnch_chain.Runtime.Ethereum.{Chain, EthereumPallet}
use qnch_chain.Runtime.Lifecycle.{Dispatcher, System, genesis, Reach, Ordinary, NeverGrants, NoneBy}
use qnch_chain.Runtime.Lifecycle.Revoked.{unauthorized-AddsNoneBy}

module _ {A H Rest Other D V X W : Type 0} {dec : Discrete A} (F : Frame dec (Event A))
    (E : EthereumPallet (Chain F W) H Rest D V X) (into_account_id : H → A)
    (R : Dispatcher F H Rest Other W) where
  -- On a chain that starts from the genesis of a specification, whatever its patch, in an ordinary run:
  -- as long as root has not authorized an account, the sudo account included, no contract creation that
  -- it has signed was executed.
  at_genesis-NoneBy :
      {K : Type 0} (g : Genesis A K) (system : F.System) (world : W) (a : A) {t : System F H Rest W}
      (r : Reach F E into_account_id R
        (genesis F (at_genesis F E into_account_id Other g system world))
        t)
      → Ordinary F E into_account_id R r
      → NeverGrants F E into_account_id R a r
      → NoneBy into_account_id a t.executed
  at_genesis-NoneBy g system world a {t} r i n =
      let (out, pooled, (new, same, none_by)) =
        unauthorized-AddsNoneBy F E into_account_id R a r i (nobody_at_genesis F g a system) tt n in
      subst (NoneBy into_account_id a) (sym (same ∙ append-nil new)) none_by
