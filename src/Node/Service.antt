-- ===== src/Node/Service.antt =====
-- parachain/node/src/service.rs: how a node is put together and started. This module has the types of
-- the parts, all of other crates, and the effects: the calls that spawn tasks or start something, and
-- the directory that is created, each with its arguments. Parts that only hand out handles of another stand for these handles.
pub mod Partial
pub mod Start
pub mod Launch
pub mod Pending
pub mod Timing
use Prim.Native.String.{String}
use qnch_chain.Prelude.{ℕ, Bool, Option, List, Result}
use qnch_chain.Node.Rpc
use qnch_chain.Node.Frontier.{Parts, Task, FrontierBackend, EthConfiguration}
use qnch_chain.Node.Frontier.Database.{Files}

pub record Types : Type 1 where
  pub parts : Parts
  pub Endpoints : Type 0
  pub Worker : Type 0
  pub Telemetry : Type 0
  pub WasmMethod : Type 0
  pub PoolOptions : Type 0
  pub Registry : Type 0
  pub Database : Type 0
  pub NetworkConfig : Type 0
  pub Keystore : Type 0
  pub TransactionPool : Type 0
  pub Graph : Type 0
  pub BlockImport : Type 0
  pub ImportQueue : Type 0
  pub RelayConfig : Type 0
  pub RelayInterface : Type 0
  pub CollatorKey : Type 0
  pub CollatorOptions : Type 0
  pub HwBench : Type 0
  pub Network : Type 0
  pub RpcTx : Type 0
  pub TxController : Type 0
  pub NetworkStarter : Type 0
  pub Overseer : Type 0
  pub BlockDataCache : Type 0
  pub DenyUnsafe : Type 0
  pub Executor : Type 0
  pub ParentHashes : Type 0

-- What a node reads of `sc_service::Configuration`.
pub record Configuration (T : Types) : Type 0 where
  pub telemetry_endpoints : Option T.Endpoints
  pub default_heap_pages : Option ℕ
  pub wasm_method : T.WasmMethod
  pub max_runtime_instances : ℕ
  pub runtime_cache_size : ℕ
  pub transaction_pool : T.PoolOptions
  pub is_authority : Bool
  pub prometheus_registry : Option T.Registry
  pub database : T.Database
  pub chain_id : String
  pub network : T.NetworkConfig
  pub offchain_worker_enabled : Bool

pub data HeapAllocStrategy : Type 0 where
  default_heap_alloc_strategy : HeapAllocStrategy
  fixed_heap : (extra_pages : ℕ) → HeapAllocStrategy

-- `ParachainExecutor`
pub record WasmExecutor (T : Types) : Type 0 where
  pub execution_method : T.WasmMethod
  pub onchain_heap : HeapAllocStrategy
  pub offchain_heap : HeapAllocStrategy
  pub max_runtime_instances : ℕ
  pub runtime_cache_size : ℕ

-- `Service`: the partial components and, in `other`, five more.
pub record PartialComponents (T : Types) : Type 0 where
  pub backend : T.parts.Backend
  pub client : T.parts.Client
  pub import_queue : T.ImportQueue
  pub keystore : T.Keystore
  pub transaction_pool : T.TransactionPool
  pub block_import : T.BlockImport
  pub telemetry : Option T.Telemetry
  pub telemetry_worker : Option T.Worker
  pub frontier_backend : FrontierBackend T.parts.Kv T.parts.Sql
  pub storage_override : T.parts.Overrides

-- The data that a pending block is given: its slot, its time, and the gas price of its author.
pub record Inherents : Type 0 where
  pub slot : ℕ
  pub timestamp : ℕ
  pub dynamic_fee : ℕ

-- What the RPC servers are made of. The provider of inherents for a pending block is a function of the
-- time.
abbrev pub rpc_types : Types → Rpc.Types
rpc_types T = record {
  Client = T.parts.Client;
  TransactionPool = T.TransactionPool;
  Graph = T.Graph;
  Converter = Unit {0};
  Network = T.Network;
  Sync = T.parts.Sync;
  Backend = FrontierBackend T.parts.Kv T.parts.Sql;
  Overrides = T.parts.Overrides;
  BlockDataCache = T.BlockDataCache;
  FilterPool = T.parts.FilterPool;
  FeeHistoryCache = T.parts.FeeHistoryCache;
  ParentHashes = T.ParentHashes;
  Providers = ℕ → Inherents;
  DenyUnsafe = T.DenyUnsafe;
  Executor = T.Executor;
  Sinks = T.parts.Sinks;
}

pub data SybilResistance : Type 0 where
  resistant unresistant : SybilResistance

pub data RecoveryProfile : Type 0 where
  collator full_node : RecoveryProfile

-- `BuildNetworkParams`
pub record NetworkParams (T : Types) : Type 0 where
  pub parachain_config : Configuration T
  pub net_config : T.NetworkConfig
  pub client : T.parts.Client
  pub transaction_pool : T.TransactionPool
  pub para_id : ℕ
  pub relay_chain_interface : T.RelayInterface
  pub import_queue : T.ImportQueue
  pub sybil_resistance_level : SybilResistance

-- `OffchainWorkerOptions`, with an empty list of extensions
pub record OffchainOptions (T : Types) : Type 0 where
  pub client : T.parts.Client
  pub keystore : Option T.Keystore
  pub backend : T.parts.Backend
  pub transaction_pool : Option T.TransactionPool
  pub network_provider : T.Network
  pub is_validator : Bool
  pub enable_http_requests : Bool

-- `SpawnTasksParams`; the builder of the RPC module takes what it serves and an executor.
pub record SpawnTasksParams (T : Types) : Type 0 where
  pub rpc_deps : T.DenyUnsafe → Rpc.FullDeps (rpc_types T)
  pub rpc_sinks : T.parts.Sinks
  pub client : T.parts.Client
  pub transaction_pool : T.TransactionPool
  pub config : Configuration T
  pub keystore : T.Keystore
  pub backend : T.parts.Backend
  pub network : T.Network
  pub sync_service : T.parts.Sync
  pub system_rpc_tx : T.RpcTx
  pub tx_handler_controller : T.TxController
  pub telemetry : Option T.Telemetry

-- `StartRelayChainTasksParams`; blocks are announced by the service for synchronization. Times are in
-- seconds.
pub record RelayTasksParams (T : Types) : Type 0 where
  pub client : T.parts.Client
  pub announce_block : T.parts.Sync
  pub para_id : ℕ
  pub relay_chain_interface : T.RelayInterface
  pub da_recovery_profile : RecoveryProfile
  pub import_queue : T.ImportQueue
  pub relay_chain_slot_duration : ℕ
  pub recovery_handle : T.Overseer
  pub sync_service : T.parts.Sync

-- `AuraParams`, with the proposer and the collator service by what they are made of. Durations are in
-- milliseconds.
pub record AuraParams (T : Types) : Type 0 where
  pub block_import : T.BlockImport
  pub para_client : T.parts.Client
  pub para_backend : T.parts.Backend
  pub relay_client : T.RelayInterface
  pub keystore : T.Keystore
  pub collator_key : T.CollatorKey
  pub para_id : ℕ
  pub overseer_handle : T.Overseer
  pub relay_chain_slot_duration : ℕ
  pub proposer : T.parts.Client × T.TransactionPool × Option T.Registry × Option T.Telemetry
  pub collator_service : T.parts.Client × T.parts.Sync
  pub authoring_duration : ℕ
  pub reinitialize : Bool

-- The effects of `new_partial` and of `start_parachain_node`.
pub data Effect (T : Types) : Type 0 where
  full_parts : Configuration T → Option T.Telemetry → WasmExecutor T → Bool → Effect T
  telemetry_worker : T.Worker → Effect T
  -- `BasicPool::new_full`, which spawns the tasks of the pool
  transaction_pool : T.PoolOptions → Bool → Option T.Registry → T.parts.Client → Effect T
  -- `create_dir_all` of the directory for the SQL database, by the id of the chain
  sql_directory : String → Effect T
  verifying_queue :
      T.parts.Client → T.BlockImport → Option T.Registry → Option T.Telemetry → Effect T
  relay_interface :
      T.RelayConfig
      → Configuration T
      → Option T.Worker
      → T.CollatorOptions
      → Option T.HwBench
      → Effect T
  build_network : NetworkParams T → Effect T
  offchain_workers : OffchainOptions T → Effect T
  block_data_cache : T.parts.Overrides → ℕ → ℕ → Option T.Registry → Effect T
  spawn_tasks : SpawnTasksParams T → Effect T
  print_hwbench : T.HwBench → Effect T
  warn_hardware : T.HwBench → Effect T
  telemetry_hwbench : T.Telemetry → T.HwBench → Effect T
  relay_chain_tasks : RelayTasksParams T → Effect T
  frontier_task : Task T.parts → Effect T
  aura : AuraParams T → Effect T
  start_network : T.NetworkStarter → Effect T
