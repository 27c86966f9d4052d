-- ===== src/Runtime/ExtensionExamples.antt =====
-- The checks of a signed extrinsic at concrete inputs: accounts and addresses are numbers, the account of an address is the
-- number behind it, and the storage has a nonce and a balance for each account. Account 6 is authorized.
use qnch_chain.Prelude.{
  ℕ, ◌+◌, ◌-◌, ◌%◌, ◌^◌, ◌≡◌, ◌≢◌, refl, [], ◌∷◌, Result, ok, err, leb, ◌==◌, if◌then◌else◌, arith,
  ℕ_discrete,
}
use qnch_chain.Frame.{Frame}
use qnch_chain.Frame.Sample.{list_frame}
use qnch_chain.Pallet.{Event}
use qnch_chain.Runtime.Ethereum.{Chain, TransactionValidityError, other_error}
use qnch_chain.Runtime.SelfContained.{RuntimeCall, other}
use qnch_chain.Runtime.Extensions.{
  Extension, validate_all, pre_dispatch_all, Extensions, before_payment, signed_extra,
}
use qnch_chain.Runtime.Extensions.Fees.{signed_extra-balances}
use qnch_chain.Runtime.Extensions.Replay.{signed_extra-once}

abbrev pub F : Frame ℕ_discrete (Event ℕ)
F = list_frame ℕ_discrete (Event ℕ)

-- The nonces and the balances.
abbrev pub Accounts : Type 0
Accounts = (ℕ → ℕ) × (ℕ → ℕ)

abbrev pub Storage : Type 0
Storage = Chain F Accounts

abbrev pub Call : Type 0
Call = RuntimeCall ℕ ℕ (Unit {0}) (Unit {0})

abbrev pub Error : Type 0
Error = TransactionValidityError ℕ

abbrev pub Check : Type 0
Check = Extension ℕ Call Storage ℕ Error

abbrev pub passing : Check
passing = record { validate = λ who call s. ok 1; pre_dispatch = λ who call s. (ok tt, s) }

abbrev pub set_at : ℕ → ℕ → (ℕ → ℕ) → ℕ → ℕ
set_at who n f a = if a == who then n else f a

abbrev pub counting : ℕ → Check
counting n = record {
  validate = λ who call s. ok 1;
  pre_dispatch = λ who call s.
      if s.world.0 who == n
      then (ok tt, record s { world = (set_at who ((n + 1) % 2 ^ 32) s.world.0, s.world.1) })
      else (err (other_error 1), s);
}

abbrev pub charging : ℕ → Check
charging tip = record {
  validate = λ who call s. ok 1;
  pre_dispatch = λ who call s.
      if leb tip (s.world.1 who)
      then (ok tt, record s { world = (s.world.0, set_at who (s.world.1 who - tip) s.world.1) })
      else (err (other_error 2), s);
}

pub counting-ok :
    (n who : ℕ) (call : Call) (s : Storage)
    → ((counting n).pre_dispatch who call s).0 ≡ ok tt
    → (s.world.0 who ≡ n)
      × (((counting n).pre_dispatch who call s).1.world.0 who ≡ (n + 1) % 2 ^ 32)
counting-ok n who call s h = ground arith

pub counting-balances :
    (n who : ℕ) (call : Call) (s : Storage)
    → ((counting n).pre_dispatch who call s).1.world.1 ≡ s.world.1
counting-balances n who call s = ground arith

pub charging-nonce :
    (tip who : ℕ) (call : Call) (s : Storage)
    → ((charging tip).pre_dispatch who call s).1.world.0 ≡ s.world.0
charging-nonce tip who call s = ground arith

pub charging-err :
    (tip who : ℕ) (call : Call) (s : Storage) (x : Error)
    → ((charging tip).pre_dispatch who call s).0 ≡ err x
    → ((charging tip).pre_dispatch who call s).1.world.1 ≡ s.world.1
charging-err tip who call s x h = ground arith

abbrev pub checks : Extensions ℕ Call (Unit {0}) Storage ℕ Error (ℕ → ℕ)
checks = record {
  nonce_of = λ s. s.world.0;
  balances = λ s. s.world.1;
  combine_with = λ v w. v + w;
  default = 0;
  tuple = λ es. record {
    validate = λ who call s. validate_all (λ v w. v + w) es who call s 0;
    pre_dispatch = pre_dispatch_all es;
  };
  tuple-validate = λ es who call s. refl;
  tuple-pre_dispatch = λ es who call s. refl;
  check_non_zero_sender = passing;
  check_spec_version = passing;
  check_tx_version = passing;
  check_genesis = passing;
  check_era = λ era. passing;
  check_nonce = counting;
  check_weight = passing;
  charge_transaction_payment = charging;
  storage_weight_reclaim = passing;
  check_non_zero_sender-nonce_of = λ who call s. refl;
  check_spec_version-nonce_of = λ who call s. refl;
  check_tx_version-nonce_of = λ who call s. refl;
  check_genesis-nonce_of = λ who call s. refl;
  check_era-nonce_of = λ era who call s. refl;
  check_weight-nonce_of = λ who call s. refl;
  charge_transaction_payment-nonce_of = charging-nonce;
  storage_weight_reclaim-nonce_of = λ who call s. refl;
  check_nonce-ok = counting-ok;
  check_non_zero_sender-balances = λ who call s. refl;
  check_spec_version-balances = λ who call s. refl;
  check_tx_version-balances = λ who call s. refl;
  check_genesis-balances = λ who call s. refl;
  check_era-balances = λ era who call s. refl;
  check_nonce-balances = counting-balances;
  check_weight-balances = λ who call s. refl;
  storage_weight_reclaim-balances = λ who call s. refl;
  charge_transaction_payment-err = charging-err;
  storage_weight_reclaim-ok = λ who call s. refl;
}

-- Account 7 has 100 units, and has not sent anything.
abbrev pub before : Storage
before = record {
  control = record { authorized_deployers = 6 ∷ []; system = [] };
  world = (λ a. 0, λ a. 100);
}

abbrev nothing : Call
nothing = other tt

abbrev sent : ℕ → Result (Unit {0}) Error × Storage
sent tip = (signed_extra checks tt 0 tip).pre_dispatch 7 nothing before

signed_extra-balances_example :
    ((x : Error) → (sent 30).0 ≡ err x → (sent 30).1.world.1 ≡ before.world.1)
    × ((sent 30).0 ≡ ok tt
        → ((pre_dispatch_all (before_payment checks tt 0) 7 nothing before).0 ≡ ok tt)
          × ((pre_dispatch_all (before_payment checks tt 0) 7 nothing before).1.world.1
              ≡ before.world.1)
          × (((charging 30).pre_dispatch 7 nothing
                (pre_dispatch_all (before_payment checks tt 0) 7 nothing before).1).0
              ≡ ok tt)
          × ((sent 30).1.world.1
              ≡ ((charging 30).pre_dispatch 7 nothing
                  (pre_dispatch_all (before_payment checks tt 0) 7 nothing before).1).1.world.1))
signed_extra-balances_example = signed_extra-balances checks tt 0 30 7 nothing before

-- The account sends its first extrinsic twice.
signed_extra-once_example :
    ((signed_extra checks tt 0 20).pre_dispatch 7 nothing (sent 30).1).0 ≢ ok tt
unfolding signed_extra
signed_extra-once_example =
    signed_extra-once checks tt tt 0 30 20 7 nothing nothing before (sent 30).1 (omega arith) refl
      (omega arith)
