-- ===== src/Runtime/Lifecycle/Progress.antt =====
-- That the deployment control does not lock out whom root lets in (parachain/runtime/src/lib.rs, lines
-- 365 to 449).
use qnch_chain.Prelude.{ℕ, ◌≡◌, refl, some, ok, [], ◌∷◌, arith}
use qnch_chain.Frame.{Frame}
use qnch_chain.Pallet.{Event, authorize}
use qnch_chain.Runtime.Ethereum.{Transaction, transact, Chain, EthereumPallet}
use qnch_chain.Runtime.SelfContained.{
  ethereum, check_self_contained, pre_dispatch_self_contained, apply_self_contained,
}
use qnch_chain.Runtime.Gates.{validate_ok_iff}
use qnch_chain.Runtime.Lifecycle.{
  Dispatcher, System, Signed, called, control_call, submit, execute_signed, Runs, start, later,
}
use qnch_chain.Runtime.Lifecycle.Whitelist.{called-authorize}

module _ {A H Rest Other D V X W : Type 0} {dec : Discrete A} (F : Frame dec (Event A))
    (E : EthereumPallet (Chain F W) H Rest D V X) (into_account_id : H → A)
    (R : Dispatcher F H Rest Other W) where
  -- From any state, once root has authorized the account of a signer, a transaction that it has signed,
  -- contract creation or not, can get through: if `pallet_ethereum` recovers the signer and accepts the
  -- transaction, for validation and for dispatch, on the storage after the authorization, then a state
  -- is reached in an ordinary run in which it is the transaction executed last, on that storage.
  pub authorized-executed :
      (s : System F H Rest W) (x : Transaction H Rest) (info : H) (d : D) (len : ℕ) (v : V)
      → let granted = called F F.root (authorize (into_account_id info)) s.chain in
        E.check_self_contained (transact x) granted ≡ some (ok info)
        → E.validate_self_contained (transact x) info d len granted ≡ some (ok v)
        → E.pre_dispatch_self_contained (transact x) info d len granted ≡ some (ok tt)
        → (t : System F H Rest W) × Runs F E into_account_id R s t
          × (t.executed ≡ record { payload = transact x; info = info } ∷ s.executed)
          × (t.chain
              ≡ (R.dispatch_call (ethereum (transact x)) (R.ethereum_transaction info) granted).1)
  unfolding check_self_contained pre_dispatch_self_contained apply_self_contained
  authorized-executed s x info d len v checked valid ready =
      let a = into_account_id info in
      let granted = called F F.root (authorize a) s.chain in
      let e : Signed H Rest = record { payload = transact x; info = info } in
      let run = R.dispatch_call (ethereum (transact x)) (R.ethereum_transaction info) granted in
      let passes =
        (validate_ok_iff F E into_account_id Other (ethereum (transact x)) info d len granted v).1
          (valid, ground (arith, called-authorize F a s.chain)) in
      (
        record { chain = run.1; pool = e ∷ s.pool; executed = e ∷ s.executed },
        (
          later
              (later (later start (control_call F.root (authorize a)))
                (submit e d len v checked passes))
              (execute_signed [] e s.pool d len run.0 run.1 refl ready refl),
          (((tt, tt), tt), tt),
        ),
        refl,
        refl,
      )
