-- ===== src/Node/Service/Partial.antt =====
-- parachain/node/src/service.rs: `new_partial` and `build_import_queue`.
use Prim.Native.String.{String}
use qnch_chain.Prelude.{ℕ, Bool, true, not, Option, none, some, List, Result, if◌then◌else◌}
use qnch_chain.Prelude.Exec.{Exec, pure, fail, panic, attempt, consult, emit, ◌>>=◌, ◌>>◌}
use qnch_chain.Node.Frontier.{BackendType, key_value, sql, EthConfiguration, FrontierBackend}
use qnch_chain.Node.Frontier.Database.{Files, Outcome, open_frontier_backend}
use qnch_chain.Node.Service.{
  Types, Configuration, HeapAllocStrategy, default_heap_alloc_strategy, fixed_heap, WasmExecutor,
  PartialComponents, Effect, full_parts, telemetry_worker, transaction_pool, sql_directory,
  verifying_queue,
}

-- What `new_partial` takes from other crates. A response may depend on the effects so far.
pub record PartialCrates (T : Types) (E X : Type 0) : Type 1 where
  pub is_empty : T.Endpoints → Bool
  pub new_worker : ℕ → List (Effect T) → Result T.Worker E
  pub new_telemetry : T.Worker → T.Endpoints → T.Telemetry
  pub new_full_parts :
      Configuration T
      → Option T.Telemetry
      → WasmExecutor T
      → Bool
      → List (Effect T)
      → Result (T.parts.Client × T.parts.Backend × T.Keystore) E
  pub new_pool : T.PoolOptions → Bool → Option T.Registry → T.parts.Client → T.TransactionPool
  pub new_block_import : T.parts.Client → T.parts.Backend → T.BlockImport
  pub fully_verifying_import_queue :
      T.parts.Client → T.BlockImport → Option T.Registry → Option T.Telemetry → T.ImportQueue
  pub new_storage_override : T.parts.Client → T.parts.Overrides
  pub files : Files T.parts T.Database E X

abbrev pub first {ℓ} : {A B : Type ℓ} → Option (A × B) → Option A
first none = none
first (some (a, b)) = some a

abbrev pub second {ℓ} : {A B : Type ℓ} → Option (A × B) → Option B
second none = none
second (some (a, b)) = some b

module _ {T : Types} {E X : Type 0} (C : PartialCrates T E X) where
  open C use {
    is_empty, new_worker, new_telemetry, new_full_parts, new_pool, new_block_import,
    fully_verifying_import_queue, new_storage_override, files,
  }

  abbrev pub Run : Type 0 → Type 0
  Run A = Exec (Effect T) E A

  -- the closure of the `map`, for endpoints that are not empty
  unfoldable pub start_telemetry : T.Endpoints → Run (Option (T.Worker × T.Telemetry))
  start_telemetry endpoints = do
    worker ← consult (new_worker 16)
    pure (some (worker, new_telemetry worker endpoints))

  -- `telemetry`, from `clone` to `transpose`
  unfoldable pub telemetry : Option T.Endpoints → Run (Option (T.Worker × T.Telemetry))
  unfolding start_telemetry
  telemetry none = pure none
  telemetry (some endpoints) =
      if not (is_empty endpoints) then start_telemetry endpoints else pure none

  abbrev heap_strategy : Option ℕ → HeapAllocStrategy
  heap_strategy none = default_heap_alloc_strategy
  heap_strategy (some h) = fixed_heap h

  abbrev pub executor : Configuration T → WasmExecutor T
  executor config = record {
    execution_method = config.wasm_method;
    onchain_heap = heap_strategy config.default_heap_pages;
    offchain_heap = heap_strategy config.default_heap_pages;
    max_runtime_instances = config.max_runtime_instances;
    runtime_cache_size = config.runtime_cache_size;
  }

  unfoldable pub spawn_worker : Option T.Worker → Run (Unit {0})
  spawn_worker none = pure tt
  spawn_worker (some worker) = emit (telemetry_worker worker)

  unfoldable pub build_import_queue :
      T.parts.Client → T.BlockImport → Configuration T → Option T.Telemetry → Run T.ImportQueue
  build_import_queue client block_import config telemetry = do
    emit (verifying_queue client block_import config.prometheus_registry telemetry)
    pure (fully_verifying_import_queue client block_import config.prometheus_registry telemetry)

  -- `create_dir_all`, of the SQL back end only; how it ends is part of opening the database.
  unfoldable pub create_directory : BackendType → String → Run (Unit {0})
  create_directory key_value chain_id = pure tt
  create_directory sql chain_id = emit (sql_directory chain_id)

  -- A database that was opened, or the way in which opening it ended.
  unfoldable pub opened :
      Outcome (FrontierBackend T.parts.Kv T.parts.Sql) E
      → Run (FrontierBackend T.parts.Kv T.parts.Sql)
  opened (Outcome.returned b) = pure b
  opened (Outcome.failed e) = fail e
  opened Outcome.panicked = panic

  -- The components, from what was built before them.
  abbrev pub components :
      T.parts.Client × T.parts.Backend × T.Keystore
      → T.ImportQueue
      → T.TransactionPool
      → T.BlockImport
      → Option (T.Worker × T.Telemetry)
      → FrontierBackend T.parts.Kv T.parts.Sql
      → T.parts.Overrides
      → PartialComponents T
  components (client, backend, keystore) queue pool block_import watched database overrides =
      record {
        backend = backend;
        client = client;
        import_queue = queue;
        keystore = keystore;
        transaction_pool = pool;
        block_import = block_import;
        telemetry = second watched;
        telemetry_worker = first watched;
        frontier_backend = database;
        storage_override = overrides;
      }

  unfoldable pub new_partial : Configuration T → EthConfiguration → Run (PartialComponents T)
  unfolding telemetry spawn_worker build_import_queue create_directory opened
  new_partial config eth_config = do
    watched ← telemetry config.telemetry_endpoints
    full ←
        attempt (full_parts config (second watched) (executor config) true)
          (new_full_parts config (second watched) (executor config) true)
    spawn_worker (first watched)
    emit (
        transaction_pool config.transaction_pool config.is_authority config.prometheus_registry
          full.0)
    let pool =
        new_pool config.transaction_pool config.is_authority config.prometheus_registry full.0
    let block_import = new_block_import full.0 full.1
    queue ← build_import_queue full.0 block_import config (second watched)
    let overrides = new_storage_override full.0
    create_directory eth_config.frontier_backend_type config.chain_id
    database ←
        opened
          (open_frontier_backend files eth_config config.chain_id full.0 config.database overrides)
    pure (components full queue pool block_import watched database overrides)
