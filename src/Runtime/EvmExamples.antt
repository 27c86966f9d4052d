-- ===== src/Runtime/EvmExamples.antt =====
-- The configuration of the EVM at concrete inputs: accounts and addresses are numbers, the account
-- behind an address is the next number, and an account is cut to itself. Account 6 is authorized.
use qnch_chain.Prelude.{
  ℕ, suc, ◌≡◌, refl, true, false, Option, none, some, [], ◌∷◌, Result, ok, err, arith, ℕ_discrete,
  is_yes, if◌then◌else◌,
}
use qnch_chain.Frame.{Frame}
use qnch_chain.Frame.Sample.{RawOrigin, signed, list_frame}
use qnch_chain.Pallet
use qnch_chain.Pallet.{Event, is_authorized}
use qnch_chain.Runtime.Ethereum.{Chain, EthereumPallet}
use qnch_chain.Runtime.SelfContained.{
  RuntimeCall, other, is_self_contained, check_self_contained, validate_self_contained,
}
use qnch_chain.Runtime.DeploymentControl.{on_create, try_address_origin}
use qnch_chain.Runtime.Config.Evm.{EvmConfig, Addresses, evm_config}
use qnch_chain.Runtime.Examples.{floor}

abbrev F : Frame ℕ_discrete (Event ℕ)
F = list_frame ℕ_discrete (Event ℕ)

abbrev chain : Chain F (Unit {0})
chain = record { control = record { authorized_deployers = 6 ∷ []; system = [] }; world = tt }

abbrev ensure_truncated : ℕ → RawOrigin ℕ → Pallet.State F → Result ℕ (RawOrigin ℕ)
ensure_truncated address origin s = elim (F.ensure_signed origin) [
  | ok a ↦ if is_yes (ℕ_discrete a address) then ok a else err origin
  | err e ↦ err origin
]

ensure_truncated-signed : (a : ℕ) (s : Pallet.State F) → ensure_truncated a (signed a) s ≡ ok a
ensure_truncated-signed a s = ground arith

abbrev addresses : Addresses F ℕ
addresses = record {
  hashed = suc;
  truncated = λ a. a;
  ensure_address_truncated = ensure_truncated;
  ensure_address_truncated-signed = ensure_truncated-signed;
}

abbrev accepting : EthereumPallet (Chain F (Unit {0})) ℕ (Unit {0}) (Unit {0}) ℕ (Unit {0})
accepting = record {
  is_self_contained = λ c. true;
  check_self_contained = λ c s. some (ok 5);
  validate_self_contained = λ c info d len s. some (ok 7);
  pre_dispatch_self_contained = λ c info d len s. some (ok tt);
}

abbrev configured : EvmConfig F ℕ (Option ℕ) ℕ
configured =
    evm_config F addresses ℕ_discrete (λ n. n) (λ d. d) (λ n. n ∷ []) (λ bytes. none) floor
      1_000_000_000_000 5_242_880

abbrev foreign : RuntimeCall ℕ ℕ (Unit {0}) ℕ
foreign = other 3

-- Account 8, with the EVM account 9, creates the contract 4.
unrestricted :
    (is_self_contained F accepting suc foreign ≡ false)
    × (check_self_contained F accepting suc foreign chain ≡ none)
    × (validate_self_contained F accepting suc foreign 8 tt 0 chain ≡ none)
    × (configured.call_origin 8 (signed 8) chain.control ≡ ok 8)
    × (configured.on_create 8 4 chain.control ≡ some tt)
    × (on_create F suc 8 4 chain.control ≡ none)
    × (try_address_origin F suc 8 (signed 8) chain.control ≡ err (signed 8))
unfolding is_authorized ℕ_discrete is_self_contained check_self_contained validate_self_contained
    on_create try_address_origin
unrestricted = (refl, refl, refl, refl, refl, refl, refl)

-- The account 6 itself asks for the money of the address 5, and is the account to be paid.
withdrawn :
    configured.withdraw_origin 5 (signed 6) chain.control ≡ ok (configured.into_account_id 5)
unfolding is_authorized ℕ_discrete try_address_origin
withdrawn = refl
