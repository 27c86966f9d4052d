-- ===== src/Node/Command.antt =====
-- parachain/node/src/command.rs (`load_spec`, the configuration of the relay chain) and cli.rs
-- (`RelayChainCli`). Errors are of an arbitrary type, and `none` is a panic.
pub mod Relay
pub mod Subcommands
pub mod RelayConfig
pub mod Run
use Prim.Native.String.{String, ◌++◌ as str_append}
use text.Mathlib.Text.{◌==◌ as str_eq}
use qnch_chain.Prelude.{
  ℕ, Bool, true, false, Option, none, some, List, [], Result, ok, err, if◌then◌else◌, ◌||◌,
}
use qnch_chain.Node.ChainSpec.{
  Extensions, ChainSpec, Keys, development_config, local_testnet_config,
}

-- A `Box<dyn ChainSpec>`: one that the node builds, or one that was read from a file, with the
-- extensions that it has.
pub data LoadedSpec (Code A K Json : Type 0) : Type 0 where
  built : ChainSpec Code A K → LoadedSpec Code A K Json
  read : Json → Option Extensions → LoadedSpec Code A K Json

-- `Extensions::try_get`
unfoldable pub try_get : {Code A K Json : Type 0} → LoadedSpec Code A K Json → Option Extensions
try_get (built spec) = some spec.extensions
try_get (read json extensions) = extensions

module _ {Pair Public Code A K Json E : Type 0} (C : Keys Pair Public Code A K)
    (from_json_file : String → Result (LoadedSpec Code A K Json) E) where
  abbrev pub boxed : Option (ChainSpec Code A K) → Option (Result (LoadedSpec Code A K Json) E)
  boxed none = none
  boxed (some spec) = some (ok (built spec))

  -- `load_spec`
  unfoldable pub load_spec : String → Option (Result (LoadedSpec Code A K Json) E)
  load_spec id =
      if str_eq id "dev"
      then boxed (development_config C)
      else if str_eq id "template-rococo"
      then boxed (local_testnet_config C)
      else if str_eq id "" || str_eq id "local"
      then boxed (local_testnet_config C)
      else some (from_json_file id)

-- `polkadot_cli::RunCmd`, by the answers of its methods that are not passed on unchanged.
pub record RelayRun (PathBuf E : Type 0) : Type 0 where
  pub shared_base_path : Result (Option PathBuf) E
  pub chain_id : Bool → Result String E

-- `RelayChainCli`
pub record RelayChainCli (PathBuf E : Type 0) : Type 0 where
  pub base : RelayRun PathBuf E
  pub chain_id : Option String
  pub base_path : Option PathBuf

abbrev pub unwrap_or_default : Option String → String
unwrap_or_default none = ""
unwrap_or_default (some s) = s

module _ {PathBuf E : Type 0} where
  -- `RelayChainCli::new`, from the specification and the base path of the parachain
  unfoldable pub new :
      {Code A K Json : Type 0} (join : PathBuf → String → PathBuf)
      (parse_from : List String → RelayRun PathBuf E) (spec : LoadedSpec Code A K Json)
      (para_base_path : PathBuf) (relay_chain_args : List String)
      → RelayChainCli PathBuf E
  unfolding try_get
  new join parse_from spec para_base_path relay_chain_args = record {
    base_path = some (join para_base_path "polkadot");
    chain_id = elim (try_get spec) [ none ↦ none | some e ↦ some e.relay_chain ];
    base = parse_from relay_chain_args;
  }

  -- `base_path`
  unfoldable pub base_path : RelayChainCli PathBuf E → Result (Option PathBuf) E
  base_path cli = elim cli.base.shared_base_path [
    | err e ↦ err e
    | ok (some p) ↦ ok (some p)
    | ok none ↦ ok cli.base_path
  ]

  -- `chain_id`
  unfoldable pub chain_id : RelayChainCli PathBuf E → Bool → Result String E
  chain_id cli is_dev = elim (cli.base.chain_id is_dev) [
    | err e ↦ err e
    | ok id ↦ ok (if str_eq id "" then unwrap_or_default cli.chain_id else id)
  ]
