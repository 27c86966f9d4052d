-- ===== src/Runtime/Extrinsics/Deployers.antt =====
-- Who gets an extrinsic that creates a contract through the check and the validation of the extrinsics
-- of parachain/runtime/src/lib.rs.
use qnch_chain.Prelude.{ℕ, ◌≡◌, ◌↔◌, refl, sym, ap, ◌∙◌, true, Option, none, some, Result, ok, err}
use qnch_chain.Frame.{Frame}
use qnch_chain.Pallet.{Event}
use qnch_chain.Runtime.Ethereum.{EthereumCall, TransactionValidityError, Chain, EthereumPallet}
use qnch_chain.Runtime.SelfContained
use qnch_chain.Runtime.SelfContained.{RuntimeCall, ethereum}
use qnch_chain.Runtime.Gates.{may_run, validate_ok_iff}
use qnch_chain.Runtime.Extensions.{Extensions}
use qnch_chain.Runtime.Extrinsics.{
  Unchecked, Checked, self_contained, self_checked, proven, FpSelfContained, methods, extension,
  Validates,
}

module _ {Signature AccountId Call Extra Info X : Type 0} where
  self_checked-ok :
      (bad_proof : X) (c : Call) (signature : Option Signature) (answer : Option (Result Info X))
      (r : Checked AccountId Call Extra Info)
      → (self_checked bad_proof c signature answer ≡ ok r) ↔ (
          (info : Info) × (signature ≡ none)
          × (answer ≡ some (ok info))
          × (r ≡ record { signed = self_contained info; function = c }))
  self_checked-ok bad_proof c (some s) answer r = (λ h. cc, λ h. cc)
  self_checked-ok bad_proof c none none r = (λ h. cc, λ (info, e, h, g). cc)
  self_checked-ok bad_proof c none (some (err x)) r = (λ h. cc, λ (info, e, h, g). cc)
  self_checked-ok bad_proof c none (some (ok i)) r =
      (λ h. (i, refl, refl, cc), λ (info, e, h, g). (let same : i ≡ info = cc in rw same (cc)))

proven-ok :
    {V X : Type 0} (bad_proof : X) (o : Option (Result V X)) (v : V)
    → (proven bad_proof o ≡ ok v) ↔ (o ≡ some (ok v))
proven-ok bad_proof none v = (λ h. cc, λ h. cc)
proven-ok bad_proof (some r) v = (λ h. ap some h, λ h. cc)

module _ {A H Rest Other D V X W Era Balances Signature : Type 0} {dec : Discrete A}
    (F : Frame dec (Event A)) (E : EthereumPallet (Chain F W) H Rest D V X)
    (into_account_id : H → A)
    (C : Extensions A
      (RuntimeCall A H Rest Other)
      Era
      (Chain F W)
      V
      (TransactionValidityError X)
      Balances)
    (N : FpSelfContained Signature A
      (RuntimeCall A H Rest Other)
      Era
      H
      D
      (Chain F W)
      V
      (TransactionValidityError X)) where
  -- If `pallet_ethereum` holds its call self-contained: an extrinsic with this call passes, with a given
  -- validity, exactly if it carries no signature of its own, the transaction's signature recovers to an
  -- address, `pallet_ethereum` accepts the transaction from there with this validity, and, if it
  -- creates a contract, the account of the address is authorized.
  pub ethereum-Validates_iff :
      (signature : Option Signature) (c : EthereumCall H Rest) (d : D) (len : ℕ) (s : Chain F W)
      (v : V)
      → E.is_self_contained c ≡ true
      → Validates F E into_account_id C N
          (record { signature = signature; function = ethereum c })
          d
          len
          s
          v
        ↔ ((info : H) × (signature ≡ none)
            × (E.check_self_contained c s ≡ some (ok info))
            × (E.validate_self_contained c info d len s ≡ some (ok v))
            × (may_run F into_account_id c info s ≡ true))
  unfolding SelfContained.is_self_contained SelfContained.check_self_contained
  ethereum-Validates_iff signature c d len s v own =
      let u : Unchecked Signature (RuntimeCall A H Rest Other) = record {
        signature = signature;
        function = ethereum c;
      } in
      let checked = N.check-self_contained (methods F E into_account_id C) u s own in
      let recovered =
        self_checked-ok N.bad_proof u.function signature (E.check_self_contained c s) in
      let accepted = λ (info : H).
        proven-ok N.bad_proof
          (SelfContained.validate_self_contained F E into_account_id u.function info d len s) v in
      let passes =
        λ (info : H). validate_ok_iff F E into_account_id Other u.function info d len s v in
      let validated = λ (info : H).
        N.validate-self_contained (methods F E into_account_id C) (extension F E into_account_id C)
          info u.function d len s in
      (
        λ (r, e, h).
            (let (info, bare, signer, same) = (recovered r).0 (sym checked ∙ e) in
              let (standard, allowed) = (passes info).0 (
                (accepted info).0 (
                  sym (validated info)
                  ∙ ap
                      (λ q.
                        N.validate (methods F E into_account_id C) (extension F E into_account_id C)
                          q d len s)
                      (sym same)
                  ∙ h)) in
              (info, bare, signer, standard, allowed)),
        λ (info, bare, signer, standard, allowed). (
          record { signed = self_contained info; function = u.function },
          checked ∙ (recovered _).1 (info, bare, signer, refl),
          validated info ∙ (accepted info).1 ((passes info).1 (standard, allowed)),
        ),
      )
