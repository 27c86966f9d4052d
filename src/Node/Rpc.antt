-- ===== src/Node/Rpc.antt =====
-- parachain/node/src/rpc/mod.rs (`create_full`) and rpc/eth.rs (`create_eth`): which servers the node
-- merges into its RPC module, from what, and in which order.
pub mod Copies
pub mod Names
use qnch_chain.Prelude.{
  ℕ, Bool, true, false, Option, none, some, List, [], ◌∷◌, ◌++◌, Result, ok, err, Action, ◌>>=◌,
  ◌>>◌, pure, if◌then◌else◌,
}

-- The types of what the servers share, all of other crates.
pub record Types : Type 1 where
  pub Client : Type 0
  pub TransactionPool : Type 0
  pub Graph : Type 0
  pub Converter : Type 0
  pub Network : Type 0
  pub Sync : Type 0
  pub Backend : Type 0
  pub Overrides : Type 0
  pub BlockDataCache : Type 0
  pub FilterPool : Type 0
  pub FeeHistoryCache : Type 0
  pub ParentHashes : Type 0
  pub Providers : Type 0
  pub DenyUnsafe : Type 0
  pub Executor : Type 0
  pub Sinks : Type 0

-- `EthDeps`
pub record EthDeps (T : Types) : Type 0 where
  pub client : T.Client
  pub pool : T.TransactionPool
  pub graph : T.Graph
  pub converter : Option T.Converter
  pub is_authority : Bool
  pub enable_dev_signer : Bool
  pub network : T.Network
  pub sync : T.Sync
  pub frontier_backend : T.Backend
  pub overrides : T.Overrides
  pub block_data_cache : T.BlockDataCache
  pub filter_pool : Option T.FilterPool
  pub max_past_logs : ℕ
  pub fee_history_cache : T.FeeHistoryCache
  pub fee_history_cache_limit : ℕ
  pub execute_gas_limit_multiplier : ℕ
  pub forced_parent_hashes : Option T.ParentHashes
  pub pending_create_inherent_data_providers : T.Providers

-- `FullDeps`
pub record FullDeps (T : Types) : Type 0 where
  pub client : T.Client
  pub pool : T.TransactionPool
  pub deny_unsafe : T.DenyUnsafe
  pub eth : EthDeps T

pub data Signer : Type 0 where
  dev_signer : Signer

-- The arguments of `Eth::new`; the data provider for consensus is made of the client.
pub record EthArgs (T : Types) : Type 0 where
  pub client : T.Client
  pub pool : T.TransactionPool
  pub graph : T.Graph
  pub converter : Option T.Converter
  pub sync : T.Sync
  pub signers : List Signer
  pub overrides : T.Overrides
  pub frontier_backend : T.Backend
  pub is_authority : Bool
  pub block_data_cache : T.BlockDataCache
  pub fee_history_cache : T.FeeHistoryCache
  pub fee_history_cache_limit : ℕ
  pub execute_gas_limit_multiplier : ℕ
  pub forced_parent_hashes : Option T.ParentHashes
  pub pending_create_inherent_data_providers : T.Providers
  pub consensus_data_provider : Option T.Client

-- The servers, with the arguments of their constructors in order.
pub data Server (T : Types) : Type 0 where
  system : T.Client → T.TransactionPool → T.DenyUnsafe → Server T
  transaction_payment : T.Client → Server T
  eth : EthArgs T → Server T
  eth_filter : T.Client → T.Backend → T.Graph → T.FilterPool → ℕ → ℕ → T.BlockDataCache → Server T
  eth_pub_sub :
      T.TransactionPool → T.Client → T.Sync → T.Executor → T.Overrides → T.Sinks → Server T
  net : T.Client → T.Network → Bool → Server T
  web3 : T.Client → Server T
  tx_pool : T.Client → T.Graph → Server T

-- The servers that `create_eth` builds.
module _ {T : Types} (deps : EthDeps T) (executor : T.Executor) (sinks : T.Sinks) where
  abbrev signers : List Signer
  signers = if deps.enable_dev_signer then dev_signer ∷ [] else []

  abbrev pub eth_server : Server T
  eth_server = eth (record {
    client = deps.client;
    pool = deps.pool;
    graph = deps.graph;
    converter = deps.converter;
    sync = deps.sync;
    signers = signers;
    overrides = deps.overrides;
    frontier_backend = deps.frontier_backend;
    is_authority = deps.is_authority;
    block_data_cache = deps.block_data_cache;
    fee_history_cache = deps.fee_history_cache;
    fee_history_cache_limit = deps.fee_history_cache_limit;
    execute_gas_limit_multiplier = deps.execute_gas_limit_multiplier;
    forced_parent_hashes = deps.forced_parent_hashes;
    pending_create_inherent_data_providers = deps.pending_create_inherent_data_providers;
    consensus_data_provider = some deps.client;
  })

  abbrev pub filter_server : T.FilterPool → Server T
  filter_server pool =
      eth_filter deps.client deps.frontier_backend deps.graph pool 500 deps.max_past_logs
        deps.block_data_cache

  abbrev pub pub_sub_server : Server T
  pub_sub_server = eth_pub_sub deps.pool deps.client deps.sync executor deps.overrides sinks

-- The merges, by the method `merge` of the RPC module `Io`. `txpool` is the feature of that name.
module _ {T : Types} {Io E : Type 0} (merge : Server T → Action Io E (Unit {0}))
    (txpool : Bool) where
  abbrev pub merge_filter : EthDeps T → T.Executor → T.Sinks → Action Io E (Unit {0})
  merge_filter deps executor sinks = elim deps.filter_pool [
    | none ↦ pure tt
    | some pool ↦ merge (filter_server deps executor sinks pool)
  ]

  abbrev merge_tx_pool : EthDeps T → Action Io E (Unit {0})
  merge_tx_pool deps = if txpool then merge (tx_pool deps.client deps.graph) else pure tt

  unfoldable pub create_eth : EthDeps T → T.Executor → T.Sinks → Action Io E (Unit {0})
  create_eth deps executor sinks = do
    merge (eth_server deps executor sinks)
    merge_filter deps executor sinks
    merge (pub_sub_server deps executor sinks)
    merge (net deps.client deps.network true)
    merge (web3 deps.client)
    merge_tx_pool deps

  abbrev pub returned : Result (Unit {0}) E × Io → Result Io E
  returned (ok u, io) = ok io
  returned (err e, io) = err e

  -- what `create_full` merges
  abbrev pub merge_full : FullDeps T → T.Executor → T.Sinks → Action Io E (Unit {0})
  unfolding create_eth
  merge_full deps executor sinks = do
    merge (system deps.client deps.pool deps.deny_unsafe)
    merge (transaction_payment deps.client)
    create_eth deps.eth executor sinks

  -- `create_full`, from the empty module `new`
  unfoldable pub create_full : Io → FullDeps T → T.Executor → T.Sinks → Result Io E
  create_full new deps executor sinks = returned (merge_full deps executor sinks new)
