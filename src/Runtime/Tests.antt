-- ===== src/Runtime/Tests.antt =====
-- The runtime at concrete inputs: accounts and addresses are numbers, the account of an address is
-- the number behind it, and `pallet_ethereum` accepts every call. Account 6 is authorized.
use qnch_chain.Prelude.{
  ℕ, suc, ◌≡◌, ◌↔◌, ◌⊎◌, refl, true, false, Option, some, [], ◌∷◌, Result, ok, err, ℕ_discrete,
}
use qnch_chain.Frame.{Frame}
use qnch_chain.Frame.Sample.{RawOrigin, signed, list_frame}
use qnch_chain.Pallet.{Event, is_authorized}
use qnch_chain.Runtime.Ethereum.{
  Transaction, eip1559, create, transact, Chain, EthereumPallet, TransactionValidityError,
}
use qnch_chain.Runtime.SelfContained.{
  RuntimeCall, ethereum, unauthorized, validate_self_contained, pre_dispatch_self_contained,
  apply_self_contained, is_create,
}
use qnch_chain.Runtime.DeploymentControl.{try_address_origin}
use qnch_chain.Runtime.Gates.{
  Passes, IsGranted, validate_ok_iff, validate_unauthorized_iff, pre_dispatch-unauthorized,
  try_address_origin_cases,
}

abbrev F : Frame ℕ_discrete (Event ℕ)
F = list_frame ℕ_discrete (Event ℕ)

abbrev Storage : Type 0
Storage = Chain F (Unit {0})

abbrev chain : Storage
chain = record { control = record { authorized_deployers = 6 ∷ []; system = [] }; world = tt }

abbrev into_account_id : ℕ → ℕ
into_account_id h = suc h

-- Validity 7 for every call, and no objection to its dispatch.
abbrev accepting : EthereumPallet Storage ℕ (Unit {0}) (Unit {0}) ℕ (Unit {0})
accepting = record {
  is_self_contained = λ c. true;
  check_self_contained = λ c s. some (ok 5);
  validate_self_contained = λ c info d len s. some (ok 7);
  pre_dispatch_self_contained = λ c info d len s. some (ok tt);
}

abbrev creation : Transaction ℕ (Unit {0})
creation = eip1559 (record { action = create; rest = tt })

abbrev RawCall : Type 0
RawCall = RuntimeCall ℕ ℕ (Unit {0}) (Unit {0})

abbrev deploy : RawCall
deploy = ethereum (transact creation)

abbrev validate : ℕ → Storage → Option (Result ℕ (TransactionValidityError (Unit {0})))
validate info = validate_self_contained F accepting into_account_id deploy info tt 0

-- The sender 5 has the authorized account 6, the sender 8 has not.
validate_deploy : (validate 5 chain ≡ some (ok 7)) × (validate 8 chain ≡ some (err unauthorized))
unfolding validate_self_contained ℕ_discrete
validate_deploy = (refl, refl)

validate_ok_iff_example :
    (validate 5 chain ≡ some (ok 7))
    ↔ Passes F accepting into_account_id (Unit {0}) deploy 5 tt 0 chain 7
validate_ok_iff_example =
    validate_ok_iff F accepting into_account_id (Unit {0}) deploy 5 tt 0 chain 7

validate_unauthorized_iff_example : (validate 8 chain ≡ some (err unauthorized)) ↔ (
    (◌≡◌ {A = Option (Result ℕ (TransactionValidityError (Unit {0})))}
      (some (ok 7))
      (some (err unauthorized)))
    ⊎ ((v : ℕ) × (◌≡◌ {A = Option (Result ℕ (TransactionValidityError (Unit {0})))}
          (some (ok 7))
          (some (ok v)))
        × (is_create creation ≡ true)
        × (is_authorized F 9 chain.control ≡ false)))
validate_unauthorized_iff_example =
    validate_unauthorized_iff F accepting into_account_id (Unit {0}) (transact creation) 8 tt 0
      chain

-- A dispatch that counts the calls it has run.
abbrev counting : RawCall → RawOrigin ℕ → ℕ → Unit {0} × ℕ
counting c o n = (tt, suc n)

pre_dispatch-unauthorized_example :
    (validate 8 chain ≡ some (err unauthorized))
    × (pre_dispatch_self_contained F accepting into_account_id deploy 8 tt 0 chain ≡ some (ok tt))
    × (apply_self_contained counting signed deploy 8 0 ≡ some (tt, 1))
unfolding is_create is_authorized ℕ_discrete
pre_dispatch-unauthorized_example =
    pre_dispatch-unauthorized F accepting into_account_id (Unit {0}) counting signed 0 creation 8 tt
      0 chain 7 refl refl refl refl

try_address_origin_cases_example :
    ((who : ℕ) × IsGranted F into_account_id 5 (signed 6) chain.control who
      × (try_address_origin F into_account_id 5 (signed 6) chain.control ≡ ok who))
    ⊎ (((who : ℕ) → ¬ IsGranted F into_account_id 5 (signed 6) chain.control who)
        × (try_address_origin F into_account_id 5 (signed 6) chain.control ≡ err (signed 6)))
try_address_origin_cases_example =
    try_address_origin_cases F into_account_id 5 (signed 6) chain.control
