-- ===== src/Node/ChainSpec/Specs.antt =====
-- The two chain specifications.
use Prim.Native.String.{String}
use text.Mathlib.Text.{◌==◌ as str_eq}
use text.Mathlib.TextEquality.{eq_iff}
use qnch_chain.Prelude.{
  ◌≡◌, refl, ap, true, Option, none, some, [], ◌∷◌, map, arith, contains, IsDistinct, is_yes, All,
  Option-cases, inl, inr,
}
use qnch_chain.Node.ChainSpec.{
  build_spec, development, ChainSpec, Genesis, Keys, development_config, local_testnet_config,
  testnet_genesis, config_genesis, endowed_seeds, get_account_id_from_seed,
  get_collator_keys_from_seed,
}

module _ {Pair Public Code A K : Type 0} (C : Keys Pair Public Code A K) where
  open C use {from_string, public, into_account, aura_from_string, aura_public, wasm_binary}

  -- What the specifications share: everything but their names, their kind and the protocol.
  abbrev pub Agree : Option (ChainSpec Code A K) → Option (ChainSpec Code A K) → Type 0
  Agree none none = Unit
  Agree none (some b) = ⊥
  Agree (some a) none = ⊥
  Agree (some a) (some b) =
      (a.code ≡ b.code)
      × (a.genesis ≡ b.genesis)
      × (a.extensions ≡ b.extensions)
      × (a.properties ≡ b.properties)
      × (a.genesis.parachain_id ≡ a.extensions.para_id)

  config_genesis-id : (g : Genesis A K) → config_genesis C ≡ some g → g.parachain_id ≡ 2000
  unfolding config_genesis testnet_genesis
  config_genesis-id g h = ground arith

  -- The two specifications panic together, or they share their code, their genesis, their extensions
  -- and their properties, and the parachain's number is the same in the genesis and in the
  -- extensions.
  specs-Agree : Agree (development_config C) (local_testnet_config C)
  unfolding development_config local_testnet_config
  specs-Agree = elim (Option-cases wasm_binary) [
    | inl e ↦ rw e tt
    | inr (code, e) ↦ elim (Option-cases (config_genesis C)) [
      | inl f ↦ ground arith
      | inr (g, f) ↦ ground (arith, config_genesis-id g f)
    ]
  ]

  -- The seeds are valid: every `//seed` is a pair of either kind, and different seeds have different
  -- accounts.
  pub record IsValid (dec : Discrete A) (account : String → A) (collator : String → K)
      : Type 0 where
    pub accounts : (s : String) → get_account_id_from_seed C s ≡ some (account s)
    pub collators : (s : String) → get_collator_keys_from_seed C s ≡ some (collator s)
    pub distinct : (s t : String) → account s ≡ account t → s ≡ t

  module _ {dec : Discrete A} {account : String → A} {collator : String → K}
      (valid : IsValid dec account collator) where
    config_genesis_lem :
        config_genesis C
        ≡ some (
            testnet_genesis C.xcm_version
              ((account "Alice", collator "Alice") ∷ (account "Bob", collator "Bob") ∷ [])
              (map account endowed_seeds)
              (account "Alice")
              2000)
    unfolding config_genesis
    config_genesis_lem = simp (valid.accounts, valid.collators)

    is_yes-account : (s t : String) → is_yes (dec (account s) (account t)) ≡ str_eq s t
    is_yes-account s t = elim (dec (account s) (account t)) [
      | yes e ↦ ground (arith, eq_iff s t, valid.distinct s t)
      | no n ↦ ground (arith, eq_iff s t, λ (e : s ≡ t). n (ap account e))
    ]

    -- With valid seeds and the runtime's code at hand the development specification is built. It
    -- endows twelve different accounts, and those of the collators and of the sudo key are among
    -- them.
    development_config-total :
        {code : Code}
        → wasm_binary ≡ some code
        → (d : ChainSpec Code A K) × (development_config C ≡ some d)
          × IsDistinct dec (map (λ b. b.0) d.genesis.balances)
          × All
              (λ a. contains dec a (map (λ b. b.0) d.genesis.balances) ≡ true)
              d.genesis.invulnerables
          × (d.genesis.sudo_key ≡ some (account "Alice"))
          × (contains dec (account "Alice") (map (λ b. b.0) d.genesis.balances) ≡ true)
    unfolding development_config testnet_genesis
    development_config-total {code} w =
        let collators =
          (account "Alice", collator "Alice") ∷ (account "Bob", collator "Bob") ∷ [] in
        let endowed = map account endowed_seeds in
        let genesis = testnet_genesis C.xcm_version collators endowed (account "Alice") 2000 in
        (
          build_spec C "Development" "dev" development none code genesis,
          rw (config_genesis_lem, w),
          simp is_yes-account (ground arith),
          simp is_yes-account (ground arith),
          refl,
          simp is_yes-account (ground arith),
        )
