-- ===== src/Runtime/Lifecycle.antt =====
-- The way of an Ethereum transaction through a chain with this runtime (parachain/runtime/src/lib.rs,
-- lines 365 to 449): it is submitted to the pool, which validates it, and executed in a later block,
-- while other calls change the whitelist and the storage between the two. The transaction pool and
-- the block builder are not part of this repository: of the pool, the model has that it takes what
-- validation accepts and may drop anything. The runtime itself asks for no validation of what a block
-- contains, so the author of a block may also include a transaction that the pool has never seen, and
-- root can write raw storage. A run without these two is called ordinary.
pub mod Whitelist
pub mod Safety
pub mod Revoked
pub mod Grants
pub mod Policy
pub mod Progress
mod Tests
use qnch_chain.Prelude.{◌⊎◌, ℕ, ◌≡◌, true, some, List, [], ◌∷◌, ◌++◌, ok, All}
use qnch_chain.Frame.{Frame}
use qnch_chain.Pallet
use qnch_chain.Pallet.{Event, dispatch, authorize}
use qnch_chain.Pallet.Whitelist.{is_root}
use qnch_chain.Runtime.Ethereum.{EthereumCall, Chain, EthereumPallet}
use qnch_chain.Runtime.SelfContained.{
  RuntimeCall, ethereum, check_self_contained, validate_self_contained, pre_dispatch_self_contained,
  apply_self_contained,
}
use qnch_chain.Runtime.Gates.{creates}

-- A transaction with the address that its signature recovers to.
pub record Signed (H Rest : Type 0) : Type 0 where
  pub payload : EthereumCall H Rest
  pub info : H

module _ {A H Rest : Type 0} (into_account_id : H → A) where
  -- The account of the signer.
  abbrev pub deployer : Signed H Rest → A
  deployer e = into_account_id e.info

  -- A contract creation that `a` has signed.
  abbrev pub CreatedBy : A → Signed H Rest → Type 0
  CreatedBy a e = (creates e.payload ≡ true) × (deployer e ≡ a)

  -- No contract creation by `a` is in the list.
  abbrev pub NoneBy : A → List (Signed H Rest) → Type 0
  NoneBy a = All (λ e. ¬ CreatedBy a e)

module _ {A : Type 0} {dec : Discrete A} (F : Frame dec (Event A)) where
  -- The dispatch that the runtime's macro generates. To dispatch an Ethereum transaction leaves the
  -- storage of the deployment control pallet alone.
  pub record Dispatcher (H Rest Other W : Type 0) : Type 1 where
    pub Origin : Type 0
    pub Answer : Type 0
    pub dispatch_call : RuntimeCall A H Rest Other → Origin → Chain F W → Answer × Chain F W
    pub ethereum_transaction : H → Origin
    pub dispatch_call-deployers :
        (c : EthereumCall H Rest) (o : Origin) (s : Chain F W)
        → (dispatch_call (ethereum c) o s).1.control.authorized_deployers
          ≡ s.control.authorized_deployers

  -- The chain's storage, the pool, and the transactions executed so far, the latest first.
  pub record System (H Rest W : Type 0) : Type 0 where
    pub chain : Chain F W
    pub pool : List (Signed H Rest)
    pub executed : List (Signed H Rest)

  abbrev pub genesis : {H Rest W : Type 0} → Chain F W → System H Rest W
  genesis s = record { chain = s; pool = []; executed = [] }

  -- `t` has executed what `s` has, and other transactions, none of them a creation by `a`.
  abbrev pub AddsNoneBy :
      {H Rest W : Type 0} → (H → A) → A → System H Rest W → System H Rest W → Type 0
  AddsNoneBy {H} {Rest} into_account_id a s t =
      (new : List (Signed H Rest)) × (t.executed ≡ new ++ s.executed) × NoneBy into_account_id a new

  -- The storage after a call of the deployment control pallet.
  abbrev pub called : {W : Type 0} → F.Origin → Pallet.Call A → Chain F W → Chain F W
  called o c s = record s { control = (dispatch F c o s.control).1 }

module _ {A H Rest Other D V X W : Type 0} {dec : Discrete A} (F : Frame dec (Event A))
    (E : EthereumPallet (Chain F W) H Rest D V X) (into_account_id : H → A)
    (R : Dispatcher F H Rest Other W) where
  pub data Step (s : System F H Rest W) : System F H Rest W → Type 0 where
    -- a call of the deployment control pallet, from any origin
    control_call :
        (o : F.Origin) (c : Pallet.Call A) → Step s (record s { chain = called F o c s.chain })
    -- the other pallets and the hooks of the blocks, which leave the storage of this pallet alone
    elsewhere :
        (t : Chain F W)
        → t.control.authorized_deployers ≡ s.chain.control.authorized_deployers
        → Step s (record s { chain = t })
    -- a transaction whose signature checks passes validation, and enters the pool
    submit :
        (e : Signed H Rest) (d : D) (len : ℕ) (v : V)
        → check_self_contained {Other = Other} F E into_account_id (ethereum e.payload) s.chain
          ≡ some (ok e.info)
        → validate_self_contained {Other = Other} F E into_account_id
            (ethereum e.payload)
            e.info
            d
            len
            s.chain
          ≡ some (ok v)
        → Step s (record s { pool = e ∷ s.pool })
    -- the pool drops a transaction
    forget :
        (before : List (Signed H Rest)) (e : Signed H Rest) (after : List (Signed H Rest))
        → s.pool ≡ before ++ e ∷ after
        → Step s (record s { pool = before ++ after })
    -- a block takes a transaction of the pool
    execute_signed :
        (before : List (Signed H Rest)) (e : Signed H Rest) (after : List (Signed H Rest)) (d : D)
        (len : ℕ) (answer : R.Answer) (t : Chain F W)
        → s.pool ≡ before ++ e ∷ after
        → pre_dispatch_self_contained {Other = Other} F E into_account_id
            (ethereum e.payload)
            e.info
            d
            len
            s.chain
          ≡ some (ok tt)
        → apply_self_contained R.dispatch_call R.ethereum_transaction
            (ethereum e.payload)
            e.info
            s.chain
          ≡ some (answer, t)
        → Step s (record s { chain = t; executed = e ∷ s.executed })
    -- the author of a block puts a transaction into it that is not from the pool
    include :
        (e : Signed H Rest) (d : D) (len : ℕ) (answer : R.Answer) (t : Chain F W)
        → check_self_contained {Other = Other} F E into_account_id (ethereum e.payload) s.chain
          ≡ some (ok e.info)
        → pre_dispatch_self_contained {Other = Other} F E into_account_id
            (ethereum e.payload)
            e.info
            d
            len
            s.chain
          ≡ some (ok tt)
        → apply_self_contained R.dispatch_call R.ethereum_transaction
            (ethereum e.payload)
            e.info
            s.chain
          ≡ some (answer, t)
        → Step s (record s { chain = t; executed = e ∷ s.executed })
    -- a call of root writes raw storage
    write_raw : (t : Chain F W) → Step s (record s { chain = t })

  pub data Reach (s : System F H Rest W) : System F H Rest W → Type 0 where
    start : Reach s s
    later : {t u : System F H Rest W} → Reach s t → Step t u → Reach s u

  -- The step executes nothing but what the pool holds, and writes no raw storage.
  abbrev pub IsOrdinary : {s t : System F H Rest W} → Step s t → Type 0
  IsOrdinary (control_call o c) = Unit
  IsOrdinary (elsewhere t e) = Unit
  IsOrdinary (submit e d len v c h) = Unit
  IsOrdinary (forget before e after p) = Unit
  IsOrdinary (execute_signed before e after d len answer t p q h) = Unit
  IsOrdinary (include e d len answer t c q h) = ⊥
  IsOrdinary (write_raw t) = ⊥

  -- In the run, blocks take their Ethereum transactions from the pool only, and no call of root writes
  -- raw storage.
  abbrev pub Ordinary : {s t : System F H Rest W} → Reach s t → Type 0
  Ordinary start = Unit
  Ordinary (later r step) = Ordinary r × IsOrdinary step

  -- There is an ordinary run from the one to the other.
  abbrev pub Runs : System F H Rest W → System F H Rest W → Type 0
  Runs s t = (r : Reach s t) × Ordinary r

  -- The step is a call by root that authorizes `a`.
  abbrev pub Grants : (a : A) {s t : System F H Rest W} → Step s t → Type 0
  Grants a (control_call o c) = (is_root F o ≡ true) × (c ≡ authorize a)
  Grants a (elsewhere t e) = ⊥
  Grants a (submit e d len v c h) = ⊥
  Grants a (forget before e after p) = ⊥
  Grants a (execute_signed before e after d len answer t p q h) = ⊥
  Grants a (include e d len answer t c q h) = ⊥
  Grants a (write_raw t) = ⊥

  -- No step of the run is such a call.
  abbrev pub NeverGrants : (a : A) {s t : System F H Rest W} → Reach s t → Type 0
  NeverGrants a start = Unit
  NeverGrants a (later r step) = NeverGrants a r × ¬ Grants a step

  -- Some step of the run is such a call.
  abbrev pub Granted : (a : A) {s t : System F H Rest W} → Reach s t → Type 0
  Granted a start = ⊥
  Granted a (later r step) = Granted a r ⊎ Grants a step
