-- ===== src/Node/Frontier.antt =====
-- parachain/node/src/eth.rs: the options of the Ethereum layer of the node, its shared caches and the
-- tasks that it spawns. A task manager is the list of the tasks spawned on it. Times are in seconds.
pub mod Tasks
pub mod Database
use Prim.Native.String.{String}
use qnch_chain.Prelude.{
  ℕ, Bool, true, false, Option, none, some, List, [], ◌∷◌, ◌++◌, Result, ok, err,
}

pub data BackendType : Type 0 where
  key_value sql : BackendType

-- `BackendType::default`
abbrev pub default_backend_type : BackendType
default_backend_type = key_value

pub record EthConfiguration : Type 0 where
  pub max_past_logs : ℕ
  pub fee_history_limit : ℕ
  pub enable_dev_signer : Bool
  pub target_gas_price : ℕ
  pub execute_gas_limit_multiplier : ℕ
  pub eth_log_block_cache : ℕ
  pub eth_statuses_cache : ℕ
  pub frontier_backend_type : BackendType
  pub frontier_sql_backend_pool_size : ℕ
  pub frontier_sql_backend_num_ops_timeout : ℕ
  pub frontier_sql_backend_thread_count : ℕ
  pub frontier_sql_backend_cache_size : ℕ

-- The options where the command line gives none.
abbrev pub default_configuration : EthConfiguration
default_configuration = record {
  max_past_logs = 10_000;
  fee_history_limit = 2048;
  enable_dev_signer = false;
  target_gas_price = 1;
  execute_gas_limit_multiplier = 10;
  eth_log_block_cache = 50;
  eth_statuses_cache = 50;
  frontier_backend_type = default_backend_type;
  frontier_sql_backend_pool_size = 100;
  frontier_sql_backend_num_ops_timeout = 10_000_000;
  frontier_sql_backend_thread_count = 4;
  frontier_sql_backend_cache_size = 209_715_200;
}

-- `fc_db::Backend`, of a key-value or a SQL database
pub data FrontierBackend (Kv Sql : Type 0) : Type 0 where
  key_value_backend : Kv → FrontierBackend Kv Sql
  sql_backend : Sql → FrontierBackend Kv Sql

-- The types of other crates that the tasks work on. `empty_pool` and `empty_cache` are new maps.
pub record Parts : Type 1 where
  pub Client : Type 0
  pub Backend : Type 0
  pub Kv : Type 0
  pub Sql : Type 0
  pub FilterPool : Type 0
  pub Overrides : Type 0
  pub FeeHistoryCache : Type 0
  pub Sync : Type 0
  pub Sinks : Type 0
  pub empty_pool : FilterPool
  pub empty_cache : FeeHistoryCache

pub data SyncStrategy : Type 0 where
  normal parachain : SyncStrategy

-- The futures that are spawned, with the arguments that they are made of.
pub data Job (T : Parts) : Type 0 where
  mapping_sync_worker :
      T.Client
      → ℕ
      → T.Backend
      → T.Overrides
      → T.Kv
      → ℕ
      → ℕ
      → SyncStrategy
      → T.Sync
      → T.Sinks
      → Job T
  sql_sync_worker : T.Client → T.Backend → T.Sql → ℕ → ℕ → SyncStrategy → T.Sync → T.Sinks → Job T
  filter_pool_task : T.Client → T.FilterPool → ℕ → Job T
  fee_history_task : T.Client → T.Overrides → T.FeeHistoryCache → ℕ → Job T

-- A call of `spawn` or `spawn_blocking` on one of the handles of the task manager.
pub record Task (T : Parts) : Type 0 where
  pub essential : Bool
  pub blocking : Bool
  pub name : String
  pub group : Option String
  pub job : Job T

pub record FrontierPartialComponents (T : Parts) : Type 0 where
  pub filter_pool : Option T.FilterPool
  pub fee_history_cache : T.FeeHistoryCache
  pub fee_history_cache_limit : ℕ

module _ {T : Parts} where
  unfoldable pub new_frontier_partial :
      {E : Type 0} → EthConfiguration → Result (FrontierPartialComponents T) E
  new_frontier_partial config = ok (record {
    filter_pool = some T.empty_pool;
    fee_history_cache = T.empty_cache;
    fee_history_cache_limit = config.fee_history_limit;
  })

  -- `spawn_essential_handle().spawn(…)`, in the group of the Frontier tasks
  abbrev spawn : String → Bool → Job T → List (Task T) → List (Task T)
  spawn name blocking job tasks =
      tasks
      ++ (record {
        essential = true;
        blocking = blocking;
        name = name;
        group = some "frontier";
        job = job;
      }
          ∷ [])

  unfoldable pub spawn_frontier_tasks :
      (client : T.Client) (backend : T.Backend) (frontier_backend : FrontierBackend T.Kv T.Sql)
      (filter_pool : Option T.FilterPool) (overrides : T.Overrides)
      (fee_history_cache : T.FeeHistoryCache) (fee_history_cache_limit : ℕ) (sync : T.Sync)
      (sinks : T.Sinks)
      → List (Task T)
      → List (Task T)
  spawn_frontier_tasks client backend frontier_backend filter_pool overrides fee_history_cache
        fee_history_cache_limit sync sinks tasks =
      let synced : List (Task T) = elim frontier_backend [
        | key_value_backend b ↦
            spawn "frontier-mapping-sync-worker" false
              (mapping_sync_worker client 6 backend overrides b 3 0 parachain sync sinks) tasks
        | sql_backend b ↦
            spawn "frontier-mapping-sync-worker" true
              (sql_sync_worker client backend b 10 60 parachain sync sinks) tasks
      ] in
      let filtered : List (Task T) = elim filter_pool [
        | none ↦ synced
        | some pool ↦ spawn "frontier-filter-pool" false (filter_pool_task client pool 100) synced
      ] in
      spawn "frontier-fee-history" false
        (fee_history_task client overrides fee_history_cache fee_history_cache_limit) filtered
