-- ===== src/Runtime/Precompiles.antt =====
-- parachain/runtime/src/precompiles.rs: `FrontierPrecompiles`. The precompiled contracts, `H160` and
-- `H160::from_low_u64_be` come from other crates, and are parameters.
use qnch_chain.Prelude.{
  ℕ, ◌<◌, ◌^◌, ◌≡◌, ◌≢◌, ◌↔◌, refl, Bool, true, Option, none, some, List, [], ◌∷◌, arith, is_yes,
  contains, if◌then◌else◌, IsDistinct, All, ltb, ◌==◌, ap,
}

pub data Precompile : Type 0 where
  ec_recover sha256 ripemd160 identity modexp sha3_fips256 ec_recover_public_key : Precompile

-- `IsPrecompileResult::Answer`
pub record Answer : Type 0 where
  pub is_precompile : Bool
  pub extra_cost : ℕ

module _ {H : Type 0} (dec : Discrete H) (hash : ℕ → H) where
  unfoldable pub used_addresses : List H
  used_addresses = hash 1 ∷ hash 2 ∷ hash 3 ∷ hash 4 ∷ hash 5 ∷ hash 1024 ∷ hash 1025 ∷ []

  -- The `match` of `execute` on the code address, as the contract that it chooses.
  unfoldable pub select : H → Option Precompile
  select a =
      if is_yes (dec a (hash 1))
      then some ec_recover
      else if is_yes (dec a (hash 2))
      then some sha256
      else if is_yes (dec a (hash 3))
      then some ripemd160
      else if is_yes (dec a (hash 4))
      then some identity
      else if is_yes (dec a (hash 5))
      then some modexp
      else if is_yes (dec a (hash 1024))
      then some sha3_fips256
      else if is_yes (dec a (hash 1025))
      then some ec_recover_public_key
      else none

  -- `is_precompile(address, _gas)`
  unfoldable pub is_precompile : H → ℕ → Answer
  unfolding used_addresses
  is_precompile address gas = record {
    is_precompile = contains dec address used_addresses;
    extra_cost = 0;
  }

  -- `execute(handle)`, where `run` is `execute` of each precompiled contract
  unfoldable pub execute :
      {Handle R : Type 0} (code_address : Handle → H) (run : Precompile → Handle → R)
      → Handle
      → Option R
  unfolding select
  execute code_address run handle = elim (select (code_address handle)) [
    | none ↦ none
    | some p ↦ some (run p handle)
  ]

  -- A call is executed natively exactly when its code address is announced as a precompile, at
  -- whatever gas, and the announcement never adds a cost.
  pub execute-is_precompile :
      {Handle R : Type 0} (code_address : Handle → H) (run : Precompile → Handle → R)
      (handle : Handle) (gas : ℕ)
      → let answer = is_precompile (code_address handle) gas in
        ((execute code_address run handle ≢ none) ↔ (answer.is_precompile ≡ true))
        × (answer.extra_cost ≡ 0)
  unfolding execute is_precompile
  execute-is_precompile code_address run handle gas = ((ground arith, ground arith), refl)

  -- The seven addresses, each with the contract that the announcement is meant for.
  abbrev pub table : List (ℕ × Precompile)
  table =
      (1, ec_recover)
      ∷ (2, sha256)
      ∷ (3, ripemd160)
      ∷ (4, identity)
      ∷ (5, modexp)
      ∷ (1024, sha3_fips256)
      ∷ (1025, ec_recover_public_key)
      ∷ []

  -- The test of two addresses is that of their numbers.
  is_yes-hash :
      ((a b : ℕ) → a < 2 ^ 64 → b < 2 ^ 64 → hash a ≡ hash b → a ≡ b)
      → (a b : ℕ) → ltb a (2 ^ 64) ≡ true
      → ltb b (2 ^ 64) ≡ true
      → is_yes (dec (hash a) (hash b)) ≡ (a == b)
  is_yes-hash inj a b p q = elim (dec (hash a) (hash b)) [
    | yes e ↦ ground (arith, inj a b)
    | no n ↦ ground (arith, λ (e : a ≡ b). n (ap hash e))
  ]

  -- If different numbers have different addresses, the seven addresses are distinct, and each
  -- selects its own contract: no arm of the match hides a later one.
  select-table :
      ((a b : ℕ) → a < 2 ^ 64 → b < 2 ^ 64 → hash a ≡ hash b → a ≡ b)
      → All (λ e. select (hash e.0) ≡ some e.1) table × IsDistinct dec used_addresses
  unfolding select used_addresses
  select-table inj = simp (is_yes-hash inj) (ground arith)
