-- ===== src/Runtime/Lifecycle/Tests.antt =====
-- A chain at work: accounts and addresses are numbers, the account of an address is the number behind
-- it, `pallet_ethereum` accepts every call and takes 5 for the signer, and every dispatched
-- transaction is counted in the storage. Account 6 is authorized at genesis.
use qnch_chain.Prelude.{ℕ, suc, ◌≡◌, refl, true, false, some, [], ◌∷◌, ok, err, ℕ_discrete, arith}
use qnch_chain.Frame.{Frame}
use qnch_chain.Frame.Sample.{RawOrigin, root, signed, list_frame}
use qnch_chain.Pallet.{Event, is_authorized, authorize, revoke, dispatch}
use qnch_chain.Runtime.Ethereum.{
  Transaction, legacy, eip1559, call, create, transact, Chain, EthereumPallet,
}
use qnch_chain.Runtime.SelfContained.{
  ethereum, unauthorized, validate_self_contained, check_self_contained,
  pre_dispatch_self_contained, apply_self_contained, is_create,
}
use qnch_chain.Runtime.Lifecycle.{
  Dispatcher, System, Signed, genesis, called, control_call, submit, execute_signed, Reach, Runs,
  start, later, NoneBy, AddsNoneBy,
}
use qnch_chain.Runtime.Lifecycle.Progress.{authorized-executed}
use qnch_chain.Runtime.Lifecycle.Revoked.{unauthorized-AddsNoneBy, revoked-late}

abbrev F : Frame ℕ_discrete (Event ℕ)
F = list_frame ℕ_discrete (Event ℕ)

abbrev Storage : Type 0
Storage = Chain F ℕ

abbrev into_account_id : ℕ → ℕ
into_account_id h = suc h

abbrev accepting : EthereumPallet Storage ℕ (Unit {0}) (Unit {0}) ℕ (Unit {0})
accepting = record {
  is_self_contained = λ c. true;
  check_self_contained = λ c s. some (ok 5);
  validate_self_contained = λ c info d len s. some (ok 7);
  pre_dispatch_self_contained = λ c info d len s. some (ok tt);
}

abbrev counting : Dispatcher F ℕ (Unit {0}) (Unit {0}) ℕ
counting = record {
  Origin = RawOrigin ℕ;
  Answer = Unit {0};
  dispatch_call = λ c o s. (tt, record s { world = suc s.world });
  ethereum_transaction = signed;
  dispatch_call-deployers = λ c o s. refl;
}

abbrev chain : Storage
chain = record { control = record { authorized_deployers = 6 ∷ []; system = [] }; world = 0 }

abbrev creation : Transaction ℕ (Unit {0})
creation = eip1559 (record { action = create; rest = tt })

abbrev deploy : Signed ℕ (Unit {0})
deploy = record { payload = transact creation; info = 5 }

abbrev transfer : Signed ℕ (Unit {0})
transfer = record { payload = transact (legacy (record { action = call 3; rest = tt })); info = 5 }

abbrev Sys : Type 0
Sys = System F ℕ (Unit {0}) ℕ

abbrev Leads : Sys → Sys → Type 0
Leads = Reach F accepting into_account_id counting

abbrev Running : Sys → Sys → Type 0
Running = Runs F accepting into_account_id counting

-- The creation waits in the pool.
abbrev waiting : Sys
waiting = record { chain = chain; pool = deploy ∷ []; executed = [] }

submitted : Leads (genesis F chain) waiting
unfolding validate_self_contained check_self_contained ℕ_discrete is_create
submitted = later start (submit deploy tt 0 7 refl refl)

-- Root has revoked its signer, and it is executed all the same.
abbrev revoked : Storage
revoked = called F root (revoke 6) chain

abbrev done : Sys
done = record {
  chain = record revoked { world = suc revoked.world };
  pool = deploy ∷ [];
  executed = deploy ∷ [];
}

executed : Leads (genesis F chain) done
unfolding apply_self_contained pre_dispatch_self_contained
executed =
    later (later submitted (control_call root (revoke 6)))
      (execute_signed [] deploy [] tt 0 tt done.chain refl refl refl)

revoked-late_example :
    (u : Sys) × (t : Sys) × Running waiting u
    × (validate_self_contained {Other = Unit {0}} F accepting into_account_id
          (ethereum deploy.payload)
          5
          tt
          0
          u.chain
        ≡ some (err unauthorized))
    × Running u t
    × (is_authorized F 6 t.chain.control ≡ false)
    × (t.executed ≡ deploy ∷ [])
unfolding is_create
revoked-late_example =
    revoked-late F accepting into_account_id counting waiting [] creation 5 [] tt 0 7 refl refl refl
      refl

-- With a pool that holds a transfer of the same signer.
abbrev shut : Sys
shut = record { chain = revoked; pool = transfer ∷ []; executed = deploy ∷ [] }

-- An account that is not root tries to authorize it, and the transfer is executed.
abbrev tried : Storage
tried = called F (signed 6) (authorize 6) revoked

abbrev moved : Sys
moved = record {
  chain = record tried { world = suc tried.world };
  pool = transfer ∷ [];
  executed = transfer ∷ deploy ∷ [];
}

moving : Leads shut moved
unfolding apply_self_contained pre_dispatch_self_contained
moving =
    later (later start (control_call (signed 6) (authorize 6)))
      (execute_signed [] transfer [] tt 0 tt moved.chain refl refl refl)

unauthorized-AddsNoneBy_example :
    (is_authorized F 6 moved.chain.control ≡ false)
    × NoneBy into_account_id 6 moved.pool
    × AddsNoneBy F into_account_id 6 shut moved
unfolding moving is_authorized dispatch is_create ℕ_discrete
unauthorized-AddsNoneBy_example =
    unauthorized-AddsNoneBy F accepting into_account_id counting 6 moving ((tt, tt), tt) refl
      ((λ h. ground arith), tt) ((tt, λ h. ground arith), λ h. h)

-- Root authorizes the account that it has revoked.
abbrev empty : Sys
empty = genesis F revoked

authorized-executed_example :
    (t : Sys) × Running empty t
    × (t.executed ≡ deploy ∷ [])
    × (t.chain
        ≡ (counting.dispatch_call
            (ethereum deploy.payload)
            (signed 5)
            (called F root (authorize 6) revoked)).1)
authorized-executed_example =
    authorized-executed F accepting into_account_id counting empty creation 5 tt 0 7 refl refl refl
