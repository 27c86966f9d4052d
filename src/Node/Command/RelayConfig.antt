-- ===== src/Node/Command/RelayConfig.antt =====
-- parachain/node/src/command.rs: the configuration of the relay chain node (`CliConfiguration` and
-- `DefaultConfigurationValues` for `RelayChainCli`), and what both command lines say of themselves
-- (`SubstrateCli`). The types of sc_cli and what the arguments of the relay chain answer are parameters.
use Prim.Native.String.{String, ◌++◌ as str_append}
use text.Mathlib.Text.{◌==◌ as str_eq}
use qnch_chain.Prelude.{
  sym, ◌∙◌, ℕ, ◌≡◌, refl, ap, fun_ext, Bool, false, Option, none, some, List, Result, ok,
}
use qnch_chain.Node.Command.{RelayChainCli, base_path, chain_id}

-- The types that the methods answer with.
pub record Types : Type 1 where
  pub SharedParams : Type 0
  pub ImportParams : Type 0
  pub NetworkParams : Type 0
  pub KeystoreParams : Type 0
  pub BasePath : Type 0
  pub SocketAddr : Type 0
  pub ChainSpec : Type 0
  pub PrometheusConfig : Type 0
  pub Role : Type 0
  pub TransactionPoolOptions : Type 0
  pub RpcMethods : Type 0
  pub TelemetryEndpoints : Type 0
  pub Error : Type 0

-- `CliConfiguration`: the answers of its methods. The base path of the shared parameters is theirs, and
-- `init` panics where it is `none`.
pub record CliConfiguration (T : Types) : Type 0 where
  pub shared_params : T.SharedParams
  pub shared_base_path : Result (Option T.BasePath) T.Error
  pub import_params : Option T.ImportParams
  pub network_params : Option T.NetworkParams
  pub keystore_params : Option T.KeystoreParams
  pub base_path : Result (Option T.BasePath) T.Error
  pub rpc_addr : ℕ → Result (Option T.SocketAddr) T.Error
  pub prometheus_config : ℕ → T.ChainSpec → Result (Option T.PrometheusConfig) T.Error
  pub init : Option (Result (Unit {0}) T.Error)
  pub chain_id : Bool → Result String T.Error
  pub role : Bool → Result T.Role T.Error
  pub transaction_pool : Bool → Result T.TransactionPoolOptions T.Error
  pub trie_cache_maximum_size : Result (Option ℕ) T.Error
  pub rpc_methods : Result T.RpcMethods T.Error
  pub rpc_max_connections : Result ℕ T.Error
  pub rpc_cors : Bool → Result (Option (List String)) T.Error
  pub default_heap_pages : Result (Option ℕ) T.Error
  pub force_authoring : Result Bool T.Error
  pub disable_grandpa : Result Bool T.Error
  pub max_runtime_instances : Result (Option ℕ) T.Error
  pub announce_block : Result Bool T.Error
  pub telemetry_endpoints : T.ChainSpec → Result (Option T.TelemetryEndpoints) T.Error
  pub node_name : Result String T.Error

-- `DefaultConfigurationValues`
pub record Ports : Type 0 where
  pub p2p_listen_port : ℕ
  pub rpc_listen_port : ℕ
  pub prometheus_listen_port : ℕ

abbrev pub relay_ports : Ports
relay_ports = record {
  p2p_listen_port = 30_334;
  rpc_listen_port = 9945;
  prometheus_listen_port = 9616;
}

-- `SubstrateCli`
pub record SubstrateCli : Type 0 where
  pub impl_name : String
  pub impl_version : String
  pub description : String
  pub author : String
  pub support_url : String
  pub copyright_start_year : ℕ

abbrev about : String → String
about executable_name =
    str_append
      "Parachain Collator Template\n\nThe command-line arguments provided first will be passed to the parachain node, while the arguments provided after -- will be passed to the relay chain node.\n\n"
      (str_append executable_name " <parachain-args> -- <relay-chain-args>")

-- `impl SubstrateCli for Cli`, from the version and the authors of the build and the executable's name
abbrev pub substrate_cli : String → String → String → SubstrateCli
substrate_cli version authors executable_name = record {
  impl_name = "Parachain Collator Template";
  impl_version = version;
  description = about executable_name;
  author = authors;
  support_url = "https://github.com/paritytech/polkadot-sdk/issues/new";
  copyright_start_year = 2020;
}

-- `impl SubstrateCli for RelayChainCli`
abbrev pub relay_substrate_cli : String → String → String → SubstrateCli
relay_substrate_cli version authors executable_name = record {
  impl_name = "Parachain Collator Template";
  impl_version = version;
  description = about executable_name;
  author = authors;
  support_url = "https://github.com/paritytech/polkadot-sdk/issues/new";
  copyright_start_year = 2020;
}

module _ (T : Types) where
  -- `RelayChainCli`, over what the arguments of the relay chain answer
  abbrev relay_cli :
      CliConfiguration T → Option String → Option T.BasePath → RelayChainCli T.BasePath T.Error
  relay_cli base named own = record {
    base = record { shared_base_path = base.shared_base_path; chain_id = base.chain_id };
    chain_id = named;
    base_path = own;
  }

  -- `impl CliConfiguration for RelayChainCli`, over the arguments of the relay chain, the chain that the
  -- specification of the parachain names, and the base path beside that of the parachain
  unfoldable pub relay_configuration :
      CliConfiguration T → Option String → Option T.BasePath → CliConfiguration T
  relay_configuration base named own = record {
    shared_params = base.shared_params;
    shared_base_path = base.shared_base_path;
    import_params = base.import_params;
    network_params = base.network_params;
    keystore_params = base.keystore_params;
    base_path = base_path (relay_cli base named own);
    rpc_addr = λ default_listen_port. base.rpc_addr default_listen_port;
    prometheus_config =
        λ default_listen_port chain_spec. base.prometheus_config default_listen_port chain_spec;
    init = none;
    chain_id = λ is_dev. chain_id (relay_cli base named own) is_dev;
    role = λ is_dev. base.role is_dev;
    transaction_pool = λ is_dev. base.transaction_pool is_dev;
    trie_cache_maximum_size = base.trie_cache_maximum_size;
    rpc_methods = base.rpc_methods;
    rpc_max_connections = base.rpc_max_connections;
    rpc_cors = λ is_dev. base.rpc_cors is_dev;
    default_heap_pages = base.default_heap_pages;
    force_authoring = base.force_authoring;
    disable_grandpa = base.disable_grandpa;
    max_runtime_instances = base.max_runtime_instances;
    announce_block = base.announce_block;
    telemetry_endpoints = λ chain_spec. base.telemetry_endpoints chain_spec;
    node_name = base.node_name;
  }

  -- What the node adds fills gaps only. If the arguments of the relay chain give a base path, which is
  -- the one of their shared parameters, and name a chain, then the configuration is exactly theirs,
  -- whatever the parachain would have added, but that it refuses to be initialized.
  pub relay_configuration_gaps :
      (base : CliConfiguration T) (named : Option String) (own : Option T.BasePath)
      (path : T.BasePath) (id : Bool → String)
      → base.shared_base_path ≡ ok (some path)
      → base.base_path ≡ base.shared_base_path
      → ((is_dev : Bool) → base.chain_id is_dev ≡ ok (id is_dev))
      → ((is_dev : Bool) → str_eq (id is_dev) "" ≡ false)
      → relay_configuration base named own ≡ record base { init = none }
  unfolding relay_configuration base_path chain_id
  relay_configuration_gaps base named own path id given same ids nonempty =
      let paths : (relay_configuration base named own).base_path ≡ base.base_path =
        rw given (sym (same ∙ given)) in
      let names : (relay_configuration base named own).chain_id ≡ base.chain_id =
        fun_ext (λ is_dev. rw (ids is_dev, nonempty is_dev) refl) in
      ap (λ p. record (relay_configuration base named own) { base_path = p }) paths
      ∙ ap (λ f. record base { init = none; chain_id = f }) names
