-- ===== src/Node/ChainSpec.antt =====
-- parachain/node/src/chain_spec.rs: the chain specifications and the genesis state that they patch.
-- The JSON object of `testnet_genesis` is a record of its entries; keys, accounts and the runtime's
-- code come from other crates. An Ethereum address is a number of 160 bits.
pub mod Balances
pub mod Specs
pub mod Deployers
pub mod Ungranted
use Prim.Native.String.{String, ◌++◌ as str_append}
use qnch_chain.Prelude.{ℕ, ◌*◌, ◌^◌, Option, none, some, List, [], ◌∷◌, map}
use qnch_chain.Prelude.Partial.{◌>>=◌, ◌>>◌, traverse}
use qnch_chain.Pallet.{GenesisConfig, default_genesis_config}
use qnch_chain.Runtime.Units.{existential_deposit}

-- `Extensions`
pub record Extensions : Type 0 where
  pub relay_chain : String
  pub para_id : ℕ

-- `SessionKeys`; `K` is `AuraId`
pub record SessionKeys (K : Type 0) : Type 0 where
  pub aura : K

-- an entry of `evm.accounts`
pub record EvmAccount : Type 0 where
  pub balance : ℕ
  pub code : List ℕ
  pub nonce : ℕ
  pub storage : List (ℕ × ℕ)

-- The patch of the genesis configuration. There is no entry for `evmDeploymentControl`.
pub record Genesis (A K : Type 0) : Type 0 where
  pub balances : List (A × ℕ)
  pub parachain_id : ℕ
  pub invulnerables : List A
  pub candidacy_bond : ℕ
  pub keys : List (A × A × SessionKeys K)
  pub safe_xcm_version : Option ℕ
  pub sudo_key : Option A
  pub evm_accounts : List (ℕ × EvmAccount)

-- The configuration of the deployment control pallet under a patch: the patch has no entry for it, so
-- it is the pallet's default.
unfoldable pub deployment_control_config : {A K : Type 0} → Genesis A K → GenesisConfig A
unfolding default_genesis_config
deployment_control_config genesis = default_genesis_config

abbrev evm_account : ℕ → EvmAccount
evm_account balance = record { balance = balance; code = []; nonce = 0; storage = [] }

unfoldable pub template_session_keys : {K : Type 0} → K → SessionKeys K
template_session_keys keys = record { aura = keys }

-- `testnet_genesis`; `xcm_version` is the constant `SAFE_XCM_VERSION`.
unfoldable pub testnet_genesis :
    {A K : Type 0} (xcm_version : ℕ) (invulnerables : List (A × K)) (endowed_accounts : List A)
    (root : A) (id : ℕ)
    → Genesis A K
unfolding template_session_keys
testnet_genesis xcm_version invulnerables endowed_accounts root id = record {
  balances = map (λ k. (k, 2 ^ 60)) endowed_accounts;
  parachain_id = id;
  invulnerables = map (λ e. e.0) invulnerables;
  candidacy_bond = existential_deposit * 16;
  keys = map (λ e. (e.0, e.0, template_session_keys e.1)) invulnerables;
  safe_xcm_version = some xcm_version;
  sudo_key = some root;
  evm_accounts =
      (0xd43593c715fdd31c61141abd04a99fd6822c8558, evm_account 0xffffffffffffffffffffffffffffffff)
      ∷ (0xf39Fd6e51aad88F6F4ce6aB8827279cffFb92266, evm_account 0x3635C9ADC5DEA00000)
      ∷ (0x70997970C51812dc3A010C7d01b50e0d17dc79C8, evm_account 0x3635C9ADC5DEA00000)
      ∷ (0x3C44CdDdB6a900fa2b585dd299e03d12FA4293BC, evm_account 0x3635C9ADC5DEA00000)
      ∷ (0x90F79bf6EB2c4f870365E785982E1f101E93b906, evm_account 0x3635C9ADC5DEA00000)
      ∷ [];
}

pub data ChainType : Type 0 where
  development local : ChainType

-- A value of the chain's properties.
pub data Property : Type 0 where
  text : String → Property
  number : ℕ → Property

pub record ChainSpec (Code A K : Type 0) : Type 0 where
  pub code : Code
  pub extensions : Extensions
  pub name : String
  pub id : String
  pub chain_type : ChainType
  pub genesis : Genesis A K
  pub protocol_id : Option String
  pub properties : List (String × Property)

abbrev chain_properties : List (String × Property)
chain_properties =
    ("tokenSymbol", text "UNIT")
    ∷ ("tokenDecimals", number 18)
    ∷ ("ss58Format", number 42)
    ∷ ("basedOn", text "r0gue-io/evm-parachain")
    ∷ []

-- What the specifications take from other crates: the pair of a seed (`none` where the text is no
-- seed), the public keys for accounts and for Aura, the account of a key, the code of the runtime
-- (`none` where it was not built) and the XCM version.
pub record Keys (Pair Public Code A K : Type 0) : Type 0 where
  pub from_string : String → Option Pair
  pub public : Pair → Public
  pub into_account : Public → A
  pub aura_from_string : String → Option Pair
  pub aura_public : Pair → K
  pub wasm_binary : Option Code
  pub xcm_version : ℕ

-- `get_from_seed`, for either kind of key; `none` is the panic of the `expect`.
unfoldable pub get_from_seed :
    {Pair Public : Type 0} → (String → Option Pair) → (Pair → Public) → String → Option Public
get_from_seed from_string public seed = do
  pair ← from_string (str_append "//" seed)
  some (public pair)

abbrev pub endowed_seeds : List String
endowed_seeds =
    "Alice" ∷ "Bob" ∷ "Charlie" ∷ "Dave" ∷ "Eve" ∷ "Ferdie" ∷ "Alice//stash" ∷ "Bob//stash"
    ∷ "Charlie//stash" ∷ "Dave//stash" ∷ "Eve//stash" ∷ "Ferdie//stash" ∷ []

module _ {Pair Public Code A K : Type 0} (C : Keys Pair Public Code A K) where
  open C use {from_string, public, into_account, aura_from_string, aura_public, wasm_binary}

  unfoldable pub get_collator_keys_from_seed : String → Option K
  unfolding get_from_seed
  get_collator_keys_from_seed = get_from_seed aura_from_string aura_public

  unfoldable pub get_account_id_from_seed : String → Option A
  unfolding get_from_seed
  get_account_id_from_seed seed = do
    key ← get_from_seed from_string public seed
    some (into_account key)

  -- The genesis that both specifications ask for.
  unfoldable pub config_genesis : Option (Genesis A K)
  config_genesis = do
    alice ← get_account_id_from_seed "Alice"
    alice_keys ← get_collator_keys_from_seed "Alice"
    bob ← get_account_id_from_seed "Bob"
    bob_keys ← get_collator_keys_from_seed "Bob"
    endowed ← traverse get_account_id_from_seed endowed_seeds
    root ← get_account_id_from_seed "Alice"
    some (
        testnet_genesis C.xcm_version ((alice, alice_keys) ∷ (bob, bob_keys) ∷ []) endowed root
          2000)

  -- What the builder is told beside the code and the genesis.
  abbrev pub build_spec :
      String → String → ChainType → Option String → Code → Genesis A K → ChainSpec Code A K
  build_spec name id chain_type protocol_id code genesis = record {
    code = code;
    extensions = record { relay_chain = "paseo-local"; para_id = 2000 };
    name = name;
    id = id;
    chain_type = chain_type;
    genesis = genesis;
    protocol_id = protocol_id;
    properties = chain_properties;
  }

  unfoldable pub development_config : Option (ChainSpec Code A K)
  development_config = do
    code ← wasm_binary
    genesis ← config_genesis
    some (build_spec "Development" "dev" development none code genesis)

  unfoldable pub local_testnet_config : Option (ChainSpec Code A K)
  local_testnet_config = do
    code ← wasm_binary
    genesis ← config_genesis
    some (build_spec "Local Testnet" "local_testnet" local (some "template-local") code genesis)
