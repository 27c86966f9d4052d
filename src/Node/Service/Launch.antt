-- ===== src/Node/Service/Launch.antt =====
-- parachain/node/src/service.rs: `start_parachain_node`, from its steps. The task manager that it returns
-- is what the effects have spawned, and the client is what is returned here.
pub mod Steps
pub mod Order
use qnch_chain.Prelude.{
  ℕ, Bool, Option, none, some, List, [], ◌∷◌, map, Result, ok, err, map_err, if◌then◌else◌,
}
use qnch_chain.Prelude.Exec.{Exec, pure, attempt, consult, expect, emit, ◌>>=◌, ◌>>◌}
use qnch_chain.Node.Frontier.{
  EthConfiguration, FrontierPartialComponents, new_frontier_partial, Task, spawn_frontier_tasks,
}
use qnch_chain.Node.Service.{
  Types, Configuration, PartialComponents, resistant, collator, full_node, NetworkParams,
  SpawnTasksParams, RelayTasksParams, Effect, relay_interface, build_network, block_data_cache,
  spawn_tasks, relay_chain_tasks, frontier_task, start_network,
}
use qnch_chain.Node.Service.Partial.{new_partial}
use qnch_chain.Node.Service.Start.{
  NetworkParts, StartCrates, Run, rpc_deps, start_offchain_workers, check_hwbench, emit_all,
  start_validator,
}

module _ {T : Types} {E X R : Type 0} (C : StartCrates T E X R) where
  abbrev pub network_params :
      Configuration T → PartialComponents T → ℕ → T.RelayInterface → NetworkParams T
  network_params config params para_id relay = record {
    parachain_config = config;
    net_config = C.full_network_config config.network;
    client = params.client;
    transaction_pool = params.transaction_pool;
    para_id = para_id;
    relay_chain_interface = relay;
    import_queue = params.import_queue;
    sybil_resistance_level = resistant;
  }

  abbrev pub spawn_params :
      Configuration T
      → EthConfiguration
      → PartialComponents T
      → FrontierPartialComponents T.parts
      → ℕ
      → NetworkParts T
      → T.BlockDataCache
      → SpawnTasksParams T
  spawn_params config eth_config params frontier slot_duration net cache = record {
    rpc_deps = rpc_deps C config eth_config params frontier slot_duration net cache;
    rpc_sinks = C.new_sinks;
    client = params.client;
    transaction_pool = params.transaction_pool;
    config = config;
    keystore = params.keystore;
    backend = params.backend;
    network = net.network;
    sync_service = net.sync_service;
    system_rpc_tx = net.system_rpc_tx;
    tx_handler_controller = net.tx_handler_controller;
    telemetry = params.telemetry;
  }

  abbrev pub relay_tasks_params :
      Configuration T
      → PartialComponents T
      → ℕ
      → T.RelayInterface
      → T.Overseer
      → NetworkParts T
      → RelayTasksParams T
  relay_tasks_params config params para_id relay overseer net = record {
    client = params.client;
    announce_block = net.sync_service;
    para_id = para_id;
    relay_chain_interface = relay;
    da_recovery_profile = if config.is_authority then collator else full_node;
    import_queue = params.import_queue;
    relay_chain_slot_duration = 6;
    recovery_handle = overseer;
    sync_service = net.sync_service;
  }

  -- The tasks of `spawn_frontier_tasks`, which come behind those of the task manager.
  abbrev pub frontier_tasks :
      PartialComponents T → FrontierPartialComponents T.parts → NetworkParts T → List (Task T.parts)
  frontier_tasks params frontier net =
      spawn_frontier_tasks {T = T.parts} params.client params.backend params.frontier_backend
        frontier.filter_pool params.storage_override frontier.fee_history_cache
        frontier.fee_history_cache_limit net.sync_service C.new_sinks []

  -- The steps behind the network, with what was built before.
  unfoldable pub serve :
      (config : Configuration T) (eth_config : EthConfiguration) (params : PartialComponents T)
      (frontier : FrontierPartialComponents T.parts) (para_id : ℕ) (hwbench : Option T.HwBench)
      (relay : T.RelayInterface) (key : Option T.CollatorKey) (slot_duration : ℕ)
      (net : NetworkParts T)
      → Run C T.parts.Client
  unfolding start_offchain_workers check_hwbench emit_all start_validator
  serve config eth_config params frontier para_id hwbench relay key slot_duration net = do
    start_offchain_workers C config params net
    emit (
        block_data_cache params.storage_override eth_config.eth_log_block_cache
          eth_config.eth_statuses_cache config.prometheus_registry)
    let cache =
        C.new_block_data_cache params.storage_override eth_config.eth_log_block_cache
          eth_config.eth_statuses_cache config.prometheus_registry
    let spawned = spawn_params config eth_config params frontier slot_duration net cache
    attempt (spawn_tasks spawned) (C.spawn_tasks spawned)
    check_hwbench C hwbench config.is_authority params.telemetry
    overseer ← consult (λ s. map_err C.application (C.overseer_handle relay s))
    let relayed = relay_tasks_params config params para_id relay overseer net
    attempt (relay_chain_tasks relayed) (C.start_relay_chain_tasks relayed)
    emit_all C (map frontier_task (frontier_tasks params frontier net))
    start_validator C config params para_id relay key overseer net config.is_authority
    emit (start_network net.starter)
    pure params.client

  unfoldable pub start_parachain_node :
      (parachain_config : Configuration T) (polkadot_config : T.RelayConfig)
      (collator_options : T.CollatorOptions) (eth_config : EthConfiguration) (para_id : ℕ)
      (hwbench : Option T.HwBench)
      → Run C T.parts.Client
  unfolding serve
  start_parachain_node parachain_config polkadot_config collator_options eth_config para_id
        hwbench =
      do
        let config = C.prepare_node_config parachain_config
        params ← new_partial C.partial config eth_config
        frontier ← consult (λ s. new_frontier_partial eth_config)
        relay ←
            attempt
              (relay_interface polkadot_config config params.telemetry_worker collator_options
                hwbench)
              (λ s. map_err C.application (
                C.build_relay_chain_interface polkadot_config config params.telemetry_worker
                  collator_options hwbench s))
        slot_duration ← consult (C.slot_duration params.client)
        let wanted = network_params config params para_id relay.0
        net ← attempt (build_network wanted) (C.build_network wanted)
        serve config eth_config params frontier para_id hwbench relay.0 relay.1 slot_duration net
