-- ===== src/Runtime/Lifecycle/Whitelist.antt =====
-- What the steps of a chain do to the whitelist (parachain/pallets/evm-deployment-control/src/lib.rs
-- and parachain/runtime/src/lib.rs).
use qnch_chain.Prelude.{◌≡◌, true, true, false, some, arith, ap}
use qnch_chain.Frame.{Frame}
use qnch_chain.Pallet
use qnch_chain.Pallet.{
  Event, authorize, revoke, dispatch, is_authorized, authorize_deployer, revoke_deployer,
}
use qnch_chain.Pallet.Whitelist.{
  is_root, is_authorized-authorize_deployer, is_authorized-revoke_deployer,
}
use qnch_chain.Runtime.Ethereum.{transact, other_call, EthereumCall, Chain, EthereumPallet}
use qnch_chain.Runtime.SelfContained.{ethereum, apply_self_contained}
use qnch_chain.Runtime.Lifecycle.{
  Dispatcher, System, called, Step, control_call, elsewhere, submit, forget, execute_signed,
  include, write_raw, IsOrdinary, Grants,
}

module _ {A : Type 0} {dec : Discrete A} (F : Frame dec (Event A)) where
  -- Equal storage, equal answers.
  pub is_authorized-deployers :
      (a : A) (s t : Pallet.State F)
      → t.authorized_deployers ≡ s.authorized_deployers
      → is_authorized F a t ≡ is_authorized F a s
  unfolding is_authorized
  is_authorized-deployers a s t e = ap (F.contains_key a) e

  -- A call that does not authorize `a` as root leaves it outside.
  pub dispatch-unauthorized :
      (a : A) (c : Pallet.Call A) (o : F.Origin) (s : Pallet.State F)
      → is_authorized F a s ≡ false
      → ¬ ((is_root F o ≡ true) × (c ≡ authorize a))
      → is_authorized F a (dispatch F c o s).1 ≡ false
  unfolding is_authorized dispatch
  dispatch-unauthorized a (authorize b) o s h n = elim (dec a b) [
    | yes p ↦ ground (arith, F.contains_key-insert a b s.authorized_deployers)
    | no p ↦ ground (arith, F.contains_key-insert a b s.authorized_deployers)
  ]
  dispatch-unauthorized a (revoke b) o s h n =
      ground (arith, F.contains_key-remove a b s.authorized_deployers)

  -- Right after root authorizes an account it is authorized.
  pub called-authorize :
      {W : Type 0} (a : A) (s : Chain F W)
      → is_authorized F a (called F F.root (authorize a) s).control ≡ true
  unfolding is_authorized dispatch authorize_deployer
  called-authorize a s = is_authorized-authorize_deployer F a s.control

  -- Right after root revokes an account it is not authorized.
  pub called-revoke :
      {W : Type 0} (a : A) (s : Chain F W)
      → is_authorized F a (called F F.root (revoke a) s).control ≡ false
  unfolding is_authorized dispatch revoke_deployer
  called-revoke a s = is_authorized-revoke_deployer F a s.control

module _ {A H Rest Other W : Type 0} {dec : Discrete A} (F : Frame dec (Event A))
    (R : Dispatcher F H Rest Other W) where
  -- The execution of an Ethereum transaction leaves the whitelist alone.
  pub apply_self_contained-deployers :
      (c : EthereumCall H Rest) (info : H) (s t : Chain F W) (answer : R.Answer)
      → apply_self_contained R.dispatch_call R.ethereum_transaction (ethereum c) info s
        ≡ some (answer, t)
      → t.control.authorized_deployers ≡ s.control.authorized_deployers
  unfolding apply_self_contained
  apply_self_contained-deployers (transact x) info s t answer h =
      grind (arith, R.dispatch_call-deployers (transact x) (R.ethereum_transaction info) s)
  apply_self_contained-deployers other_call info s t answer h = cc

module _ {A H Rest Other D V X W : Type 0} {dec : Discrete A} (F : Frame dec (Event A))
    (E : EthereumPallet (Chain F W) H Rest D V X) (into_account_id : H → A)
    (R : Dispatcher F H Rest Other W) where
  -- An ordinary step other than a call by root that authorizes `a` leaves it outside.
  pub Step-unauthorized :
      (a : A) {s t : System F H Rest W} (step : Step F E into_account_id R s t)
      → IsOrdinary F E into_account_id R step
      → ¬ Grants F E into_account_id R a step
      → is_authorized F a s.chain.control ≡ false
      → is_authorized F a t.chain.control ≡ false
  Step-unauthorized a {s} (control_call o c) i n h =
      dispatch-unauthorized F a c o s.chain.control h n
  Step-unauthorized a {s} (elsewhere t e) i n h =
      rw (is_authorized-deployers F a s.chain.control t.control e) h
  Step-unauthorized a (submit e d len v c p) i n h = h
  Step-unauthorized a (forget before e after p) i n h = h
  Step-unauthorized a {s} (execute_signed before e after d len answer t p q r) i n h =
      let kept = apply_self_contained-deployers F R e.payload e.info s.chain t answer r in
      rw (is_authorized-deployers F a s.chain.control t.control kept) h
  Step-unauthorized a (include e d len answer t c q r) i n h = absurd i
  Step-unauthorized a (write_raw t) i n h = absurd i
