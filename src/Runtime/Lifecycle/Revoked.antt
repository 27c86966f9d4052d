-- ===== src/Runtime/Lifecycle/Revoked.antt =====
-- What the revocation of a deployer is worth (parachain/runtime/src/lib.rs, lines 365 to 449): it
-- holds for what is validated after it, and not for what the pool has taken before.
use qnch_chain.Prelude.{
  ℕ, err, inr, ◌∙◌, ◌≡◌, refl, subst, ap, true, false, some, ok, List, [], ◌∷◌, ◌++◌, arith, All-at,
  All-without,
}
use qnch_chain.Frame.{Frame}
use qnch_chain.Pallet.{Event, revoke, is_authorized}
use qnch_chain.Runtime.Ethereum.{Transaction, transact, Chain, EthereumPallet}
use qnch_chain.Runtime.SelfContained.{
  ethereum, is_create, unauthorized, validate_self_contained, pre_dispatch_self_contained,
  apply_self_contained,
}
use qnch_chain.Runtime.Gates.{may_run, validate_ok_iff, validate_unauthorized_iff}
use qnch_chain.Runtime.Lifecycle.{
  Dispatcher, System, Signed, called, Step, control_call, elsewhere, submit, forget, execute_signed,
  include, write_raw, IsOrdinary, Ordinary, Runs, Reach, start, later, NoneBy, AddsNoneBy,
  NeverGrants, CreatedBy,
}
use qnch_chain.Runtime.Lifecycle.Whitelist.{
  Step-unauthorized, is_authorized-deployers, called-revoke,
}

module _ {A H Rest Other D V X W : Type 0} {dec : Discrete A} (F : Frame dec (Event A))
    (E : EthereumPallet (Chain F W) H Rest D V X) (into_account_id : H → A)
    (R : Dispatcher F H Rest Other W) where
  abbrev Sys : Type 0
  Sys = System F H Rest W

  abbrev Moves : Sys → Sys → Type 0
  Moves = Step F E into_account_id R

  -- Nobody outside the whitelist creates a contract with what validation accepts.
  may_run-CreatedBy :
      (a : A) (e : Signed H Rest) (s : Chain F W)
      → may_run F into_account_id e.payload e.info s ≡ true
      → is_authorized F a s.control ≡ false
      → ¬ CreatedBy into_account_id a e
  may_run-CreatedBy a e s h n (c, p) = grind arith

  Step-NoneBy :
      (a : A) {t u : Sys} (step : Moves t u)
      → IsOrdinary F E into_account_id R step
      → is_authorized F a t.chain.control ≡ false
      → NoneBy into_account_id a t.pool
      → NoneBy into_account_id a u.pool
  Step-NoneBy a (control_call o c) i h p = p
  Step-NoneBy a (elsewhere x e) i h p = p
  Step-NoneBy a {t} (submit e d len v c q) i h p =
      let passes =
        (validate_ok_iff F E into_account_id Other (ethereum e.payload) e.info d len t.chain v).0
          q in
      (may_run-CreatedBy a e t.chain passes.1 h, p)
  Step-NoneBy a (forget before e after q) i h p =
      All-without _ before e after (subst (NoneBy into_account_id a) q p)
  Step-NoneBy a (execute_signed before e after d len answer x q g r) i h p = p
  Step-NoneBy a (include e d len answer x c q r) i h p = absurd i
  Step-NoneBy a (write_raw x) i h p = absurd i

  Step-AddsNoneBy :
      (a : A) (s : Sys) {t u : Sys} (step : Moves t u)
      → IsOrdinary F E into_account_id R step
      → NoneBy into_account_id a t.pool
      → AddsNoneBy F into_account_id a s t
      → AddsNoneBy F into_account_id a s u
  Step-AddsNoneBy a s (control_call o c) i p x = x
  Step-AddsNoneBy a s (elsewhere y e) i p x = x
  Step-AddsNoneBy a s (submit e d len v c q) i p x = x
  Step-AddsNoneBy a s (forget before e after q) i p x = x
  Step-AddsNoneBy a s (include e d len answer y c q r) i p x = absurd i
  Step-AddsNoneBy a s (write_raw y) i p x = absurd i
  Step-AddsNoneBy a s (execute_signed before e after d len answer y q g r) i p
        (new, same, none_by) =
      (
        e ∷ new,
        ap (◌∷◌ e) same,
        (All-at _ before e after (subst (NoneBy into_account_id a) q p), none_by),
      )

  -- Once an account is not authorized and the pool holds no contract creation that it has signed,
  -- then, in an ordinary run without a call by root that authorizes it, it stays so, and no contract
  -- creation that it has signed is executed. In an ordinary run, blocks take their Ethereum
  -- transactions from the pool only, the other pallets leave the storage of the deployment control
  -- alone, and root writes no raw storage.
  pub unauthorized-AddsNoneBy :
      (a : A) {s t : Sys} (r : Reach F E into_account_id R s t)
      → Ordinary F E into_account_id R r
      → is_authorized F a s.chain.control ≡ false
      → NoneBy into_account_id a s.pool
      → NeverGrants F E into_account_id R a r
      → (is_authorized F a t.chain.control ≡ false)
        × NoneBy into_account_id a t.pool
        × AddsNoneBy F into_account_id a s t
  unauthorized-AddsNoneBy a start i h p n = (h, p, ([], refl, tt))
  unauthorized-AddsNoneBy a {s} (later r step) i h p n =
      let (outside, pooled, adds) = unauthorized-AddsNoneBy a r i.0 h p n.0 in
      (
        Step-unauthorized F E into_account_id R a step i.1 n.1 outside,
        Step-NoneBy a step i.1 outside pooled,
        Step-AddsNoneBy a s step i.1 pooled adds,
      )

  -- A contract creation that is in the pool when root revokes its signer can still be executed. If
  -- `pallet_ethereum` accepts it after the revocation, for validation and for dispatch, then a state
  -- is reached in an ordinary run in which the runtime's validation refuses it as unauthorized, and from there one in
  -- which it is the transaction executed last, while its signer is still not authorized.
  pub revoked-late :
      (s : Sys) (before : List (Signed H Rest)) (x : Transaction H Rest) (info : H)
      (after : List (Signed H Rest)) (d : D) (len : ℕ) (v : V)
      → is_create x ≡ true
      → s.pool ≡ before ++ record { payload = transact x; info = info } ∷ after
      → let revoked = called F F.root (revoke (into_account_id info)) s.chain in
        E.validate_self_contained (transact x) info d len revoked ≡ some (ok v)
        → E.pre_dispatch_self_contained (transact x) info d len revoked ≡ some (ok tt)
        → (u : Sys) × (t : Sys) × Runs F E into_account_id R s u
          × (validate_self_contained {Other = Other} F E into_account_id
                (ethereum (transact x))
                info
                d
                len
                u.chain
              ≡ some (err unauthorized))
          × Runs F E into_account_id R u t
          × (is_authorized F (into_account_id info) t.chain.control ≡ false)
          × (t.executed ≡ record { payload = transact x; info = info } ∷ s.executed)
  unfolding pre_dispatch_self_contained apply_self_contained
  revoked-late s before x info after d len v c p h q =
      let a = into_account_id info in
      let revoked = called F F.root (revoke a) s.chain in
      let (answer, y) =
        R.dispatch_call (ethereum (transact x)) (R.ethereum_transaction info) revoked in
      let outside = called-revoke F a s.chain in
      let kept = R.dispatch_call-deployers (transact x) (R.ethereum_transaction info) revoked in
      (
        record s { chain = revoked },
        record s {
          chain = y;
          executed = record { payload = transact x; info = info } ∷ s.executed;
        },
        (later start (control_call F.root (revoke a)), (tt, tt)),
        (validate_unauthorized_iff F E into_account_id Other (transact x) info d len revoked).1
            (inr (v, h, c, outside)),
        (later start (execute_signed before _ after d len answer y p q refl), (tt, tt)),
        is_authorized-deployers F a revoked.control y.control kept ∙ outside,
        refl,
      )
