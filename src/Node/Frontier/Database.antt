-- ===== src/Node/Frontier/Database.antt =====
-- parachain/node/src/eth.rs (`db_config_dir`) and service.rs (`new_partial`): the database of the
-- Ethereum mapping that the node opens.
use Prim.Native.String.{String}
use qnch_chain.Prelude.{ℕ, Bool, true, Option, none, some, Result, ok, err, if◌then◌else◌, ◌==◌}
use qnch_chain.Node.Frontier.{
  Parts, key_value, sql, EthConfiguration, FrontierBackend, key_value_backend, sql_backend,
}

-- What a computation that may panic comes to.
pub data Outcome (A E : Type 0) : Type 0 where
  returned : A → Outcome A E
  failed : E → Outcome A E
  panicked : Outcome A E

-- `SqliteBackendConfig`
pub record SqliteBackendConfig : Type 0 where
  pub path : String
  pub create_if_missing : Bool
  pub thread_count : ℕ
  pub cache_size : ℕ

-- The file system, the paths and the two kinds of database, which come from other crates. A path
-- joined with an absolute one is the absolute one.
pub record Files (T : Parts) (Source E X : Type 0) : Type 1 where
  pub PathBuf : Type 0
  pub path : String → PathBuf
  pub join : PathBuf → PathBuf → PathBuf
  pub to_str : PathBuf → Option String
  pub config_dir : String → PathBuf
  pub create_dir_all : PathBuf → Bool
  pub open_kv : T.Client → Source → PathBuf → Result T.Kv E
  pub new_sql : SqliteBackendConfig → ℕ → Option ℕ → T.Overrides → Result T.Sql X

module _ {T : Parts} {Source E X : Type 0} (S : Files T Source E X) where
  open S use {PathBuf, path, join, to_str, config_dir, create_dir_all, open_kv, new_sql}

  -- `NonZeroU32::new`
  abbrev non_zero : ℕ → Option ℕ
  non_zero n = if n == 0 then none else some n

  unfoldable pub db_config_dir : String → PathBuf
  db_config_dir chain_id = config_dir chain_id

  abbrev sql_config : EthConfiguration → String → SqliteBackendConfig
  sql_config config file = record {
    path = file;
    create_if_missing = true;
    thread_count = config.frontier_sql_backend_thread_count;
    cache_size = config.frontier_sql_backend_cache_size;
  }

  abbrev open_sql :
      EthConfiguration → PathBuf → T.Overrides → Outcome (FrontierBackend T.Kv T.Sql) E
  open_sql config db_path overrides =
      if create_dir_all db_path
      then elim (to_str (join (join (path "sqlite:///") db_path) (path "frontier.db3"))) [
        | none ↦ panicked
        | some file ↦
            elim (new_sql (sql_config config file) config.frontier_sql_backend_pool_size
              (non_zero config.frontier_sql_backend_num_ops_timeout) overrides) [
                | ok b ↦ returned (sql_backend b)
                | err e ↦ panicked
              ]
      ]
      else panicked

  -- `frontier_backend` in `new_partial`
  unfoldable pub open_frontier_backend :
      EthConfiguration
      → String
      → T.Client
      → Source
      → T.Overrides
      → Outcome (FrontierBackend T.Kv T.Sql) E
  unfolding db_config_dir
  open_frontier_backend config chain_id client database overrides =
      elim config.frontier_backend_type [
        | key_value ↦ elim (open_kv client database (db_config_dir chain_id)) [
          | ok b ↦ returned (key_value_backend b)
          | err e ↦ failed e
        ]
        | sql ↦ open_sql config (join (db_config_dir chain_id) (path "sql")) overrides
      ]
