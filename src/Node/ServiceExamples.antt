-- ===== src/Node/ServiceExamples.antt =====
-- The start of a node at concrete inputs: every part that other crates own is a number, and all of
-- them answer.
use qnch_chain.Prelude.{
  ℕ, ◌/◌, ◌≢◌, refl, true, false, Option, none, some, Result, ok, err, [], arith,
}
use qnch_chain.Prelude.Exec.{panicked}
use qnch_chain.Node.Examples.{parts, files}
use qnch_chain.Node.Frontier.{default_configuration, key_value_backend}
use qnch_chain.Node.Service.{PartialComponents, Types, Configuration}
use qnch_chain.Node.Service.Partial.{PartialCrates}
use qnch_chain.Node.Service.Start.{NetworkParts, StartCrates}
use qnch_chain.Node.Service.Launch.{start_parachain_node}
use qnch_chain.Node.Service.Launch.Order.{
  Ends, start_parachain_node-Ends, start_parachain_node-ne-panicked,
}

abbrev pub node_types : Types
node_types = record {
  parts = parts;
  Endpoints = ℕ;
  Worker = ℕ;
  Telemetry = ℕ;
  WasmMethod = ℕ;
  PoolOptions = ℕ;
  Registry = ℕ;
  Database = ℕ;
  NetworkConfig = ℕ;
  Keystore = ℕ;
  TransactionPool = ℕ;
  Graph = ℕ;
  BlockImport = ℕ;
  ImportQueue = ℕ;
  RelayConfig = ℕ;
  RelayInterface = ℕ;
  CollatorKey = ℕ;
  CollatorOptions = ℕ;
  HwBench = ℕ;
  Network = ℕ;
  RpcTx = ℕ;
  TxController = ℕ;
  NetworkStarter = ℕ;
  Overseer = ℕ;
  BlockDataCache = ℕ;
  DenyUnsafe = ℕ;
  Executor = ℕ;
  ParentHashes = ℕ;
}

-- A collator with telemetry.
abbrev pub node_config : Configuration node_types
node_config = record {
  telemetry_endpoints = some 1;
  default_heap_pages = none;
  wasm_method = 0;
  max_runtime_instances = 8;
  runtime_cache_size = 2;
  transaction_pool = 0;
  is_authority = true;
  prometheus_registry = none;
  database = 2;
  chain_id = "dev";
  network = 0;
  offchain_worker_enabled = true;
}

abbrev partial_crates : PartialCrates node_types ℕ ℕ
partial_crates = record {
  is_empty = λ e. false;
  new_worker = λ n s. ok 16;
  new_telemetry = λ w e. e;
  new_full_parts = λ c t w b s. ok (1, 2, 3);
  new_pool = λ o b r c. 4;
  new_block_import = λ c b. 5;
  fully_verifying_import_queue = λ c b r t. 6;
  new_storage_override = λ c. 7;
  files = files;
}

abbrev net_parts : NetworkParts node_types
net_parts = record {
  network = 11;
  system_rpc_tx = 12;
  tx_handler_controller = 13;
  starter = 14;
  sync_service = 15;
}

abbrev pub start_crates : StartCrates node_types ℕ ℕ ℕ
start_crates = record {
  partial = partial_crates;
  prepare_node_config = λ c. c;
  full_network_config = λ c. c;
  build_relay_chain_interface = λ r c w o h s. ok (8, some 9);
  application = λ e. e;
  slot_duration = λ c s. ok 12_000;
  build_network = λ p s. ok net_parts;
  pool_graph = λ p. p;
  new_block_data_cache = λ o a b r. 16;
  slot_of = λ t d. t / d;
  new_sinks = 17;
  spawn_tasks = λ p s. ok tt;
  check_hardware = λ h. false;
  overseer_handle = λ r s. ok 18;
  start_relay_chain_tasks = λ p s. ok tt;
}

no_key : (relay : ℕ) → ◌≢◌ {A = Result (ℕ × Option ℕ) ℕ} (ok (8, some 9)) (ok (relay, none))
no_key relay e = ground arith

start_parachain_node-Ends_example :
    Ends {T = node_types} true
      (Unit {0})
      ℕ
      (start_parachain_node start_crates node_config 0 0 default_configuration 2000 (some 0) [])
start_parachain_node-Ends_example =
    start_parachain_node-Ends start_crates node_config 0 0 default_configuration 2000 (some 0)

start_parachain_node-ne-panicked_example :
    (start_parachain_node start_crates node_config 0 0 default_configuration 2000 (some 0) []).0
    ≢ err panicked
start_parachain_node-ne-panicked_example =
    start_parachain_node-ne-panicked start_crates node_config 0 0 default_configuration 2000
      (some 0) refl (λ a w s relay e. no_key relay e)

abbrev node_parts : PartialComponents node_types
node_parts = record {
  backend = 2;
  client = 1;
  import_queue = 6;
  keystore = 3;
  transaction_pool = 4;
  block_import = 5;
  telemetry = none;
  telemetry_worker = none;
  frontier_backend = key_value_backend 3;
  storage_override = 7;
}
