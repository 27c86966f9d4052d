-- ===== src/Runtime/ExtrinsicExamples.antt =====
-- An extrinsic with an Ethereum transaction at concrete inputs: the account of an address is the number
-- behind it, `pallet_ethereum` accepts every call and takes 5 for the signer, and account 6 is
-- authorized.
use qnch_chain.Prelude.{
  ℕ, suc, ◌≡◌, ◌≢◌, ◌↔◌, refl, true, Option, none, some, Result, ok, err, if◌then◌else◌,
}
use qnch_chain.Runtime.Ethereum.{
  EthereumPallet, EthereumCall, legacy, create, transact, other_error,
}
use qnch_chain.Runtime.SelfContained.{ethereum}
use qnch_chain.Runtime.Gates.{may_run}
use qnch_chain.Runtime.Extrinsics.{
  Extra, Unchecked, Checked, CheckedSignature, signed, unsigned, self_contained, SelfContainedCall,
  self_checked, proven, FpSelfContained, Validates,
}
use qnch_chain.Runtime.Extrinsics.Deployers.{ethereum-Validates_iff}
use qnch_chain.Runtime.ExtensionExamples.{F, Storage, Call, Error, Check, checks, before}

abbrev accepting : EthereumPallet Storage ℕ (Unit {0}) (Unit {0}) ℕ ℕ
accepting = record {
  is_self_contained = λ c. true;
  check_self_contained = λ c s. some (ok 5);
  validate_self_contained = λ c info d len s. some (ok 7);
  pre_dispatch_self_contained = λ c info d len s. some (ok tt);
}

-- A signature is the account that has signed.
abbrev CheckedCall : Type 0
CheckedCall = Checked ℕ Call (Extra (Unit {0})) ℕ

abbrev Methods : Type 0
Methods = SelfContainedCall Call ℕ (Unit {0}) Storage ℕ Error

abbrev by_signature : Call → Option (ℕ × Extra (Unit {0})) → Result CheckedCall Error
by_signature c none = ok (record { signed = unsigned; function = c })
by_signature c (some (who, extra)) = ok (record { signed = signed who extra; function = c })

abbrev check : Methods → Unchecked (ℕ × Extra (Unit {0})) Call → Storage → Result CheckedCall Error
check methods u s =
    if methods.is_self_contained u.function
    then self_checked (other_error 9) u.function u.signature
        (methods.check_self_contained u.function s)
    else by_signature u.function u.signature

by_signature-ok :
    (c : Call) (signature : Option (ℕ × Extra (Unit {0}))) (r : CheckedCall)
    → by_signature c signature ≡ ok r
    → (r.function ≡ c) × ((info : ℕ) → r.signed ≢ self_contained info)
by_signature-ok c none r h = (cc, λ info e. cc)
by_signature-ok c (some (who, extra)) r h = (cc, λ info e. cc)

abbrev validate_by :
    Methods
    → (Extra (Unit {0}) → Check)
    → Call
    → Unit {0}
    → ℕ
    → Storage
    → CheckedSignature ℕ (Extra (Unit {0})) ℕ
    → Result ℕ Error
validate_by methods extension c d len s (signed who extra) = (extension extra).validate who c s
validate_by methods extension c d len s unsigned = err (other_error 8)
validate_by methods extension c d len s (self_contained info) =
    proven (other_error 9) (methods.validate_self_contained c info d len s)

abbrev extrinsics :
    FpSelfContained (ℕ × Extra (Unit {0})) ℕ Call (Unit {0}) ℕ (Unit {0}) Storage ℕ Error
extrinsics = record {
  bad_proof = other_error 9;
  check = check;
  check-self_contained = λ methods u s h. rw h refl;
  check-other = λ methods u s c h e. by_signature-ok u.function u.signature c (rw h at e);
  validate =
      λ methods extension c d len s. validate_by methods extension c.function d len s c.signed;
  validate-signed = λ methods extension who extra c d len s. refl;
  validate-self_contained = λ methods extension info c d len s. refl;
}

abbrev creation : EthereumCall ℕ (Unit {0})
creation = transact (legacy (record { action = create; rest = tt }))

ethereum-Validates_iff_example :
    Validates F accepting suc checks extrinsics
      (record { signature = none; function = ethereum creation })
      tt
      100
      before
      7
    ↔ ((info : ℕ) × (◌≡◌ {A = Option (ℕ × Extra (Unit {0}))} none none)
        × (accepting.check_self_contained creation before ≡ some (ok info))
        × (accepting.validate_self_contained creation info tt 100 before ≡ some (ok 7))
        × (may_run F suc creation info before ≡ true))
ethereum-Validates_iff_example =
    ethereum-Validates_iff F accepting suc checks extrinsics none creation tt 100 before 7 refl
