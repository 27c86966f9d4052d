-- ===== src/Node/Rpc/Copies.antt =====
-- parachain/node/src/rpc/eth.rs: `impl Clone for EthDeps`. What it clones are handles and lists of other
-- crates.
use qnch_chain.Prelude.{◌≡◌, refl}
use qnch_chain.Node.Rpc.{Types, EthDeps}

-- `clone` of the fields that are no plain numbers or Booleans.
module _ {T : Types} (clone : (A : Type 0) → A → A) where
  unfoldable pub clone_eth_deps : EthDeps T → EthDeps T
  clone_eth_deps deps = record {
    client = clone _ deps.client;
    pool = clone _ deps.pool;
    graph = clone _ deps.graph;
    converter = clone _ deps.converter;
    is_authority = deps.is_authority;
    enable_dev_signer = deps.enable_dev_signer;
    network = clone _ deps.network;
    sync = clone _ deps.sync;
    frontier_backend = clone _ deps.frontier_backend;
    overrides = clone _ deps.overrides;
    block_data_cache = clone _ deps.block_data_cache;
    filter_pool = clone _ deps.filter_pool;
    max_past_logs = deps.max_past_logs;
    fee_history_cache = clone _ deps.fee_history_cache;
    fee_history_cache_limit = deps.fee_history_cache_limit;
    execute_gas_limit_multiplier = deps.execute_gas_limit_multiplier;
    forced_parent_hashes = clone _ deps.forced_parent_hashes;
    pending_create_inherent_data_providers = clone _ deps.pending_create_inherent_data_providers;
  }

  -- Where a clone is a handle of the same thing, the clone of the whole is the whole.
  clone_eth_deps_same :
      ((A : Type 0) (x : A) → clone A x ≡ x) → (deps : EthDeps T) → clone_eth_deps deps ≡ deps
  unfolding clone_eth_deps
  clone_eth_deps_same same deps = simp same refl
