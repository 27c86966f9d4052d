-- ===== src/Runtime/Extrinsics.antt =====
-- parachain/runtime/src/lib.rs: `UncheckedExtrinsic` and `CheckedExtrinsic`, the extrinsics of this
-- chain. The two types, their check and their validation come from fp_self_contained, with what is
-- documented of them; the runtime gives the calls, the checks of a signed extrinsic and the type of
-- what a self-contained call tells of its signer.
pub mod Deployers
use qnch_chain.Prelude.{ℕ, ◌≡◌, ◌≢◌, Bool, true, false, Option, none, some, Result, ok, err}
use qnch_chain.Frame.{Frame}
use qnch_chain.Pallet.{Event}
use qnch_chain.Runtime.Ethereum.{TransactionValidityError, Chain, EthereumPallet}
use qnch_chain.Runtime.SelfContained
use qnch_chain.Runtime.SelfContained.{RuntimeCall}
use qnch_chain.Runtime.Extensions.{Extension, Extensions, signed_extra}

-- What an extrinsic carries for the checks of `SignedExtra`.
pub record Extra (Era : Type 0) : Type 0 where
  pub era : Era
  pub nonce : ℕ
  pub tip : ℕ

-- The signature, with the address and the extra data, is not there in all extrinsics.
pub record Unchecked (Signature Call : Type 0) : Type 0 where
  pub signature : Option Signature
  pub function : Call

pub data CheckedSignature (AccountId Extra Info : Type 0) : Type 0 where
  signed : AccountId → Extra → CheckedSignature AccountId Extra Info
  unsigned : CheckedSignature AccountId Extra Info
  self_contained : Info → CheckedSignature AccountId Extra Info

pub record Checked (AccountId Call Extra Info : Type 0) : Type 0 where
  pub signed : CheckedSignature AccountId Extra Info
  pub function : Call

-- `SelfContainedCall`, by the methods that a check and a validation call
pub record SelfContainedCall (Call Info D S V X : Type 0) : Type 0 where
  pub is_self_contained : Call → Bool
  pub check_self_contained : Call → S → Option (Result Info X)
  pub validate_self_contained : Call → Info → D → ℕ → S → Option (Result V X)

-- The signer of a self-contained call that comes without a signature.
abbrev pub self_checked :
    {Signature AccountId Call Extra Info X : Type 0}
    → X
    → Call
    → Option Signature
    → Option (Result Info X)
    → Result (Checked AccountId Call Extra Info) X
self_checked bad_proof c (some signature) answer = err bad_proof
self_checked bad_proof c none none = err bad_proof
self_checked bad_proof c none (some (err x)) = err x
self_checked bad_proof c none (some (ok info)) =
    ok (record { signed = self_contained info; function = c })

-- A missing answer is no proof.
abbrev pub proven : {V X : Type 0} → X → Option (Result V X) → Result V X
proven bad_proof none = err bad_proof
proven bad_proof (some r) = r

-- The check and the validation of an extrinsic, for the methods of its call and the checks of a signed
-- one. An extrinsic whose call is not self-contained is checked as any other, by its signature.
pub record FpSelfContained (Signature AccountId Call Era Info D S V X : Type 0) : Type 1 where
  pub bad_proof : X
  pub check :
      SelfContainedCall Call Info D S V X
      → Unchecked Signature Call
      → S
      → Result (Checked AccountId Call (Extra Era) Info) X
  pub check-self_contained :
      (methods : SelfContainedCall Call Info D S V X) (u : Unchecked Signature Call) (s : S)
      → methods.is_self_contained u.function ≡ true
      → check methods u s
        ≡ self_checked bad_proof u.function u.signature (methods.check_self_contained u.function s)
  pub check-other :
      (methods : SelfContainedCall Call Info D S V X) (u : Unchecked Signature Call) (s : S)
      (c : Checked AccountId Call (Extra Era) Info)
      → methods.is_self_contained u.function ≡ false
      → check methods u s ≡ ok c
      → (c.function ≡ u.function) × ((info : Info) → c.signed ≢ self_contained info)
  pub validate :
      SelfContainedCall Call Info D S V X
      → (Extra Era → Extension AccountId Call S V X)
      → Checked AccountId Call (Extra Era) Info
      → D
      → ℕ
      → S
      → Result V X
  pub validate-signed :
      (methods : SelfContainedCall Call Info D S V X)
      (extension : Extra Era → Extension AccountId Call S V X) (who : AccountId) (extra : Extra Era)
      (c : Call) (d : D) (len : ℕ) (s : S)
      → validate methods extension (record { signed = signed who extra; function = c }) d len s
        ≡ (extension extra).validate who c s
  pub validate-self_contained :
      (methods : SelfContainedCall Call Info D S V X)
      (extension : Extra Era → Extension AccountId Call S V X) (info : Info) (c : Call) (d : D)
      (len : ℕ) (s : S)
      → validate methods extension (record { signed = self_contained info; function = c }) d len s
        ≡ proven bad_proof (methods.validate_self_contained c info d len s)

module _ {A H Rest Other D V X W Era Balances : Type 0} {dec : Discrete A} (F : Frame dec (Event A))
    (E : EthereumPallet (Chain F W) H Rest D V X) (into_account_id : H → A)
    (C : Extensions A
      (RuntimeCall A H Rest Other)
      Era
      (Chain F W)
      V
      (TransactionValidityError X)
      Balances) where
  -- The methods that the runtime gives its calls.
  abbrev pub methods :
      SelfContainedCall (RuntimeCall A H Rest Other) H D (Chain F W) V (TransactionValidityError X)
  methods = record {
    is_self_contained = SelfContained.is_self_contained F E into_account_id;
    check_self_contained = SelfContained.check_self_contained F E into_account_id;
    validate_self_contained = SelfContained.validate_self_contained F E into_account_id;
  }

  abbrev pub extension :
      Extra Era
      → Extension A (RuntimeCall A H Rest Other) (Chain F W) V (TransactionValidityError X)
  extension extra = signed_extra C extra.era extra.nonce extra.tip

  -- `CheckedExtrinsic` and `UncheckedExtrinsic`
  abbrev pub CheckedExtrinsic : Type 0
  CheckedExtrinsic = Checked A (RuntimeCall A H Rest Other) (Extra Era) H

  abbrev pub UncheckedExtrinsic : Type 0 → Type 0
  UncheckedExtrinsic Signature = Unchecked Signature (RuntimeCall A H Rest Other)

  module _ {Signature : Type 0}
      (V' : FpSelfContained Signature A
        (RuntimeCall A H Rest Other)
        Era
        H
        D
        (Chain F W)
        V
        (TransactionValidityError X)) where
    -- An extrinsic is checked, and then validated.
    abbrev pub Validates : UncheckedExtrinsic Signature → D → ℕ → Chain F W → V → Type 0
    Validates u d len s v =
        (c : CheckedExtrinsic) × (V'.check methods u s ≡ ok c)
        × (V'.validate methods extension c d len s ≡ ok v)
