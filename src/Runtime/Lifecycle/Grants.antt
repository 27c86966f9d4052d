-- ===== src/Runtime/Lifecycle/Grants.antt =====
-- How an account comes to be authorized in a run (parachain/pallets/evm-deployment-control/src/lib.rs).
use qnch_chain.Prelude.{◌≡◌, ap, inl, inr, true, false, Bool-cases}
use qnch_chain.Frame.{Frame}
use qnch_chain.Pallet.{Event, authorize, revoke, is_authorized}
use qnch_chain.Pallet.Whitelist.{is_root}
use qnch_chain.Runtime.Ethereum.{Chain, EthereumPallet}
use qnch_chain.Runtime.Lifecycle.{
  Dispatcher, System, Step, control_call, elsewhere, submit, forget, execute_signed, include,
  write_raw, Reach, start, later, Ordinary, Grants, Granted,
}
use qnch_chain.Runtime.Lifecycle.Whitelist.{Step-unauthorized}

module _ {A H Rest Other D V X W : Type 0} {dec : Discrete A} (F : Frame dec (Event A))
    (E : EthereumPallet (Chain F W) H Rest D V X) (into_account_id : H → A)
    (R : Dispatcher F H Rest Other W) where
  -- Whether a step is a call by root that authorizes `a` can be told.
  Grants-dec :
      (a : A) {s t : System F H Rest W} (step : Step F E into_account_id R s t)
      → Dec (Grants F E into_account_id R a step)
  Grants-dec a (control_call o (authorize b)) = elim (Bool-cases (is_root F o)) [
    | inl r ↦ elim (dec b a) [ yes e ↦ yes (r, ap authorize e) | no n ↦ no (λ h. n cc) ]
    | inr r ↦ no (λ h. cc)
  ]
  Grants-dec a (control_call o (revoke b)) = no (λ h. cc)
  Grants-dec a (elsewhere t e) = no (λ h. h)
  Grants-dec a (submit e d len v c h) = no (λ h. h)
  Grants-dec a (forget before e after p) = no (λ h. h)
  Grants-dec a (execute_signed before e after d len answer t p q h) = no (λ h. h)
  Grants-dec a (include e d len answer t c q h) = no (λ h. h)
  Grants-dec a (write_raw t) = no (λ h. h)

  -- An account that is not authorized, and is so at the end of an ordinary run, was authorized by root in it.
  pub authorized-Granted :
      (a : A) {s t : System F H Rest W} (r : Reach F E into_account_id R s t)
      → Ordinary F E into_account_id R r
      → is_authorized F a s.chain.control ≡ false
      → is_authorized F a t.chain.control ≡ true
      → Granted F E into_account_id R a r
  authorized-Granted a start i h k = cc
  authorized-Granted a (later {t} r step) i h k = elim (Grants-dec a step) [
    | yes g ↦ inr g
    | no n ↦ elim (Bool-cases (is_authorized F a t.chain.control)) [
      | inl known ↦ inl (authorized-Granted a r i.0 h known)
      | inr unknown ↦ let still = Step-unauthorized F E into_account_id R a step i.1 n unknown in cc
    ]
  ]
