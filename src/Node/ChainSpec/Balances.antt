-- ===== src/Node/ChainSpec/Balances.antt =====
-- The balances, the collators and the session keys of `testnet_genesis`.
use qnch_chain.Prelude.{ℕ, ◌+◌, ◌*◌, ◌^◌, ◌≤◌, ◌≡◌, refl, ap, ◌∙◌, List, [], ◌∷◌, map, arith, All}
use qnch_chain.Runtime.Units.{existential_deposit}
use qnch_chain.Node.ChainSpec.{Genesis, testnet_genesis}

map-map {ℓ κ μ} :
    {A : Type ℓ} {B : Type κ} {C : Type μ} (f : A → B) (g : B → C) (xs : List A)
    → map g (map f xs) ≡ map (λ x. g (f x)) xs
map-map f g [] = refl
map-map f g (x ∷ xs) = ap (◌∷◌ (g (f x))) (map-map f g xs)

-- The sum of the balances that a list gives.
abbrev pub total {ℓ} : {X : Type ℓ} → (X → ℕ) → List X → ℕ
total f [] = 0
total f (x ∷ xs) = f x + total f xs

-- All that the genesis issues, in native and in EVM accounts.
abbrev pub issued : {A K : Type 0} → Genesis A K → ℕ
issued g = total (λ b. b.1) g.balances + total (λ e. e.1.balance) g.evm_accounts

module _ {A K : Type 0} (xcm_version : ℕ) (invulnerables : List (A × K)) (endowed_accounts : List A)
    (root : A) (id : ℕ) where
  abbrev genesis : Genesis A K
  genesis = testnet_genesis xcm_version invulnerables endowed_accounts root id

  endowments :
      (accounts : List A)
      → All
          (λ (b : A × ℕ). (existential_deposit ≤ b.1) × (existential_deposit * 16 ≤ b.1))
          (map (λ a. (a, 2 ^ 60)) accounts)
  endowments [] = tt
  endowments (a ∷ accounts) = ((omega arith, omega arith), endowments accounts)

  map-id {ℓ} : {B : Type ℓ} (bs : List B) → map (λ b. b) bs ≡ bs
  map-id [] = refl
  map-id (b ∷ bs) = ap (◌∷◌ b) (map-id bs)

  -- Exactly the endowed accounts get a native balance, in order, and each balance is at least the
  -- existential deposit and covers the candidacy bond.
  balances_suffice :
      (map (λ b. b.0) genesis.balances ≡ endowed_accounts)
      × All (λ b. (existential_deposit ≤ b.1) × (genesis.candidacy_bond ≤ b.1)) genesis.balances
  unfolding testnet_genesis
  balances_suffice = (
    map-map (λ a. (a, 2 ^ 60)) (λ b. b.0) endowed_accounts ∙ map-id endowed_accounts,
    endowments endowed_accounts,
  )

  -- The session keys are those of the invulnerables, in order, each under the account as its own
  -- validator, with its Aura key.
  keys_match :
      (map (λ k. k.0) genesis.keys ≡ genesis.invulnerables)
      × (map (λ k. k.1) genesis.keys ≡ genesis.invulnerables)
      × (map (λ k. k.2.aura) genesis.keys ≡ map (λ e. e.1) invulnerables)
  unfolding testnet_genesis
  keys_match = (map-map _ _ invulnerables, map-map _ _ invulnerables, map-map _ _ invulnerables)
