-- ===== src/Node/Service/Start.antt =====
-- parachain/node/src/service.rs: `start_consensus` and `start_parachain_node`. The task manager that the
-- latter returns is what the effects have spawned.
use qnch_chain.Prelude.{
  ℕ, ◌+◌, ◌%◌, ◌^◌, Bool, true, false, not, ◌&&◌, Option, none, some, List, [], ◌∷◌, Result,
  if◌then◌else◌,
}
use qnch_chain.Prelude.Exec.{Exec, pure, expect, emit, ◌>>=◌, ◌>>◌}
use qnch_chain.Node.Rpc
use qnch_chain.Node.Frontier.{EthConfiguration, FrontierPartialComponents}
use qnch_chain.Node.Service.{
  Types, Configuration, PartialComponents, Inherents, rpc_types, NetworkParams, SpawnTasksParams,
  RelayTasksParams, Effect, offchain_workers, print_hwbench, warn_hardware, telemetry_hwbench, aura,
}
use qnch_chain.Node.Service.Partial.{PartialCrates}

-- What `build_network` returns.
pub record NetworkParts (T : Types) : Type 0 where
  pub network : T.Network
  pub system_rpc_tx : T.RpcTx
  pub tx_handler_controller : T.TxController
  pub starter : T.NetworkStarter
  pub sync_service : T.parts.Sync

-- What starting a node takes from other crates. `R` are the errors of the relay chain interface, and
-- `slot_of` is the slot of a time at a slot duration.
pub record StartCrates (T : Types) (E X R : Type 0) : Type 1 where
  pub partial : PartialCrates T E X
  pub prepare_node_config : Configuration T → Configuration T
  pub full_network_config : T.NetworkConfig → T.NetworkConfig
  pub build_relay_chain_interface :
      T.RelayConfig
      → Configuration T
      → Option T.Worker
      → T.CollatorOptions
      → Option T.HwBench
      → List (Effect T)
      → Result (T.RelayInterface × Option T.CollatorKey) R
  pub application : R → E
  pub slot_duration : T.parts.Client → List (Effect T) → Result ℕ E
  pub build_network : NetworkParams T → List (Effect T) → Result (NetworkParts T) E
  pub pool_graph : T.TransactionPool → T.Graph
  pub new_block_data_cache : T.parts.Overrides → ℕ → ℕ → Option T.Registry → T.BlockDataCache
  pub slot_of : ℕ → ℕ → ℕ
  pub new_sinks : T.parts.Sinks
  pub spawn_tasks : SpawnTasksParams T → List (Effect T) → Result (Unit {0}) E
  pub check_hardware : T.HwBench → Bool
  pub overseer_handle : T.RelayInterface → List (Effect T) → Result T.Overseer R
  pub start_relay_chain_tasks : RelayTasksParams T → List (Effect T) → Result (Unit {0}) E

module _ {T : Types} {E X R : Type 0} (C : StartCrates T E X R) where
  abbrev pub Run : Type 0 → Type 0
  Run A = Exec (Effect T) E A

  unfoldable pub start_consensus :
      (client : T.parts.Client) (backend : T.parts.Backend) (block_import : T.BlockImport)
      (registry : Option T.Registry) (telemetry : Option T.Telemetry)
      (relay_chain_interface : T.RelayInterface) (transaction_pool : T.TransactionPool)
      (keystore : T.Keystore) (relay_chain_slot_duration para_id : ℕ) (collator_key : T.CollatorKey)
      (overseer_handle : T.Overseer) (announce_block : T.parts.Sync)
      → Run (Unit {0})
  start_consensus client backend block_import registry telemetry relay_chain_interface
        transaction_pool keystore relay_chain_slot_duration para_id collator_key overseer_handle
        announce_block =
      emit (
        aura (record {
          block_import = block_import;
          para_client = client;
          para_backend = backend;
          relay_client = relay_chain_interface;
          keystore = keystore;
          collator_key = collator_key;
          para_id = para_id;
          overseer_handle = overseer_handle;
          relay_chain_slot_duration = relay_chain_slot_duration;
          proposer = (client, transaction_pool, registry, telemetry);
          collator_service = (client, announce_block);
          authoring_duration = 2000;
          reinitialize = false;
        }))

  -- `pending_create_inherent_data_providers`, at a time: the sum of two u64 wraps around.
  unfoldable pub pending_inherents : ℕ → EthConfiguration → ℕ → Inherents
  pending_inherents slot_duration eth_config now =
      let next_slot = (now + slot_duration) % 2 ^ 64 in
      record {
        slot = C.slot_of next_slot slot_duration;
        timestamp = next_slot;
        dynamic_fee = eth_config.target_gas_price;
      }

  -- The arguments of the RPC module that `rpc_builder` creates.
  unfoldable pub rpc_deps :
      (config : Configuration T) (eth_config : EthConfiguration) (params : PartialComponents T)
      (frontier : FrontierPartialComponents T.parts) (slot_duration : ℕ) (net : NetworkParts T)
      (cache : T.BlockDataCache)
      → T.DenyUnsafe
      → Rpc.FullDeps (rpc_types T)
  unfolding pending_inherents
  rpc_deps config eth_config params frontier slot_duration net cache deny_unsafe = record {
    client = params.client;
    pool = params.transaction_pool;
    deny_unsafe = deny_unsafe;
    eth = record {
      client = params.client;
      pool = params.transaction_pool;
      graph = C.pool_graph params.transaction_pool;
      converter = some tt;
      is_authority = config.is_authority;
      enable_dev_signer = eth_config.enable_dev_signer;
      network = net.network;
      sync = net.sync_service;
      frontier_backend = params.frontier_backend;
      overrides = params.storage_override;
      block_data_cache = cache;
      filter_pool = frontier.filter_pool;
      max_past_logs = eth_config.max_past_logs;
      fee_history_cache = frontier.fee_history_cache;
      fee_history_cache_limit = frontier.fee_history_cache_limit;
      execute_gas_limit_multiplier = eth_config.execute_gas_limit_multiplier;
      forced_parent_hashes = none;
      pending_create_inherent_data_providers = pending_inherents slot_duration eth_config;
    };
  }

  unfoldable pub start_offchain_workers :
      Configuration T → PartialComponents T → NetworkParts T → Run (Unit {0})
  start_offchain_workers config params net =
      if config.offchain_worker_enabled
      then emit (
          offchain_workers (record {
            client = params.client;
            keystore = some params.keystore;
            backend = params.backend;
            transaction_pool = some params.transaction_pool;
            network_provider = net.network;
            is_validator = config.is_authority;
            enable_http_requests = false;
          }))
      else pure tt

  abbrev pub report : Option T.Telemetry → T.HwBench → Run (Unit {0})
  report none hwbench = pure tt
  report (some telemetry) hwbench = emit (telemetry_hwbench telemetry hwbench)

  abbrev warn_validator : T.HwBench → Bool → Run (Unit {0})
  warn_validator hwbench weak = if weak then emit (warn_hardware hwbench) else pure tt

  -- `if let Some(hwbench) = hwbench { … }`
  unfoldable pub check_hwbench : Option T.HwBench → Bool → Option T.Telemetry → Run (Unit {0})
  check_hwbench none validator telemetry = pure tt
  check_hwbench (some hwbench) validator telemetry = do
    emit (print_hwbench hwbench)
    warn_validator hwbench (not (C.check_hardware hwbench) && validator)
    report telemetry hwbench

  unfoldable pub emit_all : List (Effect T) → Run (Unit {0})
  emit_all [] = pure tt
  emit_all (v ∷ vs) = emit v >> emit_all vs

  -- `if validator { start_consensus(…)?; }`, whose key is expected
  unfoldable pub start_validator :
      (config : Configuration T) (params : PartialComponents T) (para_id : ℕ)
      (relay : T.RelayInterface) (key : Option T.CollatorKey) (overseer : T.Overseer)
      (net : NetworkParts T)
      → Bool
      → Run (Unit {0})
  unfolding start_consensus
  start_validator config params para_id relay key overseer net false = pure tt
  start_validator config params para_id relay key overseer net true = do
    collator_key ← expect key
    start_consensus params.client params.backend params.block_import config.prometheus_registry
        params.telemetry relay params.transaction_pool params.keystore 6 para_id collator_key
        overseer net.sync_service
