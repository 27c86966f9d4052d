-- ===== src/Node/Examples.antt =====
-- The RPC module, the tasks and the command line of the node at concrete inputs: everything that
-- other crates own is a number or a text.
use Prim.Native.String.{String, ◌++◌ as str_append}
use qnch_chain.Prelude.{
  ℕ, ◌≡◌, ◌⊎◌, refl, true, false, none, some, Result, ok, err, List, [], ◌∷◌, map, ℕ_discrete,
  if◌then◌else◌, arith, Bool, contains,
}
use qnch_chain.Node.ChainSpec.{
  Keys, ChainSpec, config_genesis, development_config, build_spec, development, testnet_genesis,
  endowed_seeds, get_account_id_from_seed, get_collator_keys_from_seed,
}
use qnch_chain.Node.Rpc.{
  Types, FullDeps, Server, system, transaction_payment, eth, eth_filter, eth_pub_sub, net, web3,
  tx_pool, create_full,
}
use qnch_chain.Node.Rpc.Names.{
  RpcModule, fresh, adds, servers, compatible, all_methods, create_full-names,
}
use qnch_chain.Node.Frontier.{
  Parts, Task, EthConfiguration, default_configuration, sql, key_value_backend,
  spawn_frontier_tasks,
}
use qnch_chain.Node.Frontier.Database.{Files}
use qnch_chain.Node.Command.{LoadedSpec, built, read, RelayRun, load_spec}

abbrev numbers : Types
numbers = record {
  Client = ℕ;
  TransactionPool = ℕ;
  Graph = ℕ;
  Converter = ℕ;
  Network = ℕ;
  Sync = ℕ;
  Backend = ℕ;
  Overrides = ℕ;
  BlockDataCache = ℕ;
  FilterPool = ℕ;
  FeeHistoryCache = ℕ;
  ParentHashes = ℕ;
  Providers = ℕ;
  DenyUnsafe = ℕ;
  Executor = ℕ;
  Sinks = ℕ;
}

-- Each server has one method, and `eth` has two.
abbrev methods : Server numbers → List ℕ
methods (system c p d) = 1 ∷ []
methods (transaction_payment c) = 2 ∷ []
methods (eth a) = 3 ∷ 4 ∷ []
methods (eth_filter c b g p n m k) = 5 ∷ []
methods (eth_pub_sub p c s e o k) = 6 ∷ []
methods (net c n b) = 7 ∷ []
methods (web3 c) = 8 ∷ []
methods (tx_pool c g) = 9 ∷ []

-- A module is the set of its names.
abbrev Names : Type 0
Names = ℕ → Bool

abbrev merge : Server numbers → Names → Result (Unit {0}) ℕ × Names
merge m io = if fresh io (methods m) then (ok tt, adds ℕ_discrete io (methods m)) else (err 0, io)

merge-fresh :
    (m : Server numbers) (io : Names)
    → fresh io (methods m) ≡ true
    → (after : Names) × (merge m io ≡ (ok tt, after)) × (after ≡ adds ℕ_discrete io (methods m))
merge-fresh m io d = (adds ℕ_discrete io (methods m), ground (arith, d), refl)

merge-clash :
    (m : Server numbers) (io : Names)
    → fresh io (methods m) ≡ false
    → (e : ℕ) × ((merge m io).0 ≡ err e)
merge-clash m io d = (0, ground (arith, d))

abbrev rpc : RpcModule numbers ℕ ℕ_discrete
rpc = record {
  Io = Names;
  new = λ n. false;
  merge = merge;
  names = λ io. io;
  methods = methods;
  names-new = refl;
  merge-fresh = merge-fresh;
  merge-clash = merge-clash;
}

abbrev deps : FullDeps numbers
deps = record {
  client = 0;
  pool = 0;
  deny_unsafe = 0;
  eth = record {
    client = 0;
    pool = 0;
    graph = 0;
    converter = some 0;
    is_authority = true;
    enable_dev_signer = true;
    network = 0;
    sync = 0;
    frontier_backend = 0;
    overrides = 0;
    block_data_cache = 0;
    filter_pool = some 0;
    max_past_logs = 10_000;
    fee_history_cache = 0;
    fee_history_cache_limit = 2048;
    execute_gas_limit_multiplier = 10;
    forced_parent_hashes = none;
    pending_create_inherent_data_providers = 0;
  };
}

create_full-names_example :
    let all = servers rpc false deps 0 0 in
    ((compatible rpc false (λ n. false) all ≡ true)
      × ((io : Names) × (create_full merge false (λ n. false) deps 0 0 ≡ ok io)
          × ((n : ℕ) → io n ≡ contains ℕ_discrete n (all_methods rpc false all))))
    ⊎ ((compatible rpc false (λ n. false) all ≡ false)
        × ((e : ℕ) × (create_full merge false (λ n. false) deps 0 0 ≡ err e)))
create_full-names_example = create_full-names rpc false deps 0 0

abbrev pub parts : Parts
parts = record {
  Client = ℕ;
  Backend = ℕ;
  Kv = ℕ;
  Sql = ℕ;
  FilterPool = ℕ;
  Overrides = ℕ;
  FeeHistoryCache = ℕ;
  Sync = ℕ;
  Sinks = ℕ;
  empty_pool = 0;
  empty_cache = 0;
}

abbrev spawned : List (Task parts) → List (Task parts)
spawned before =
    spawn_frontier_tasks {T = parts} 1 2 (key_value_backend 3) (some 4) 5 6 7 8 9 before

-- Paths are texts, and no SQL database is there.
abbrev pub files : Files parts ℕ ℕ ℕ
files = record {
  PathBuf = String;
  path = λ s. s;
  join = λ a b. str_append a b;
  to_str = λ p. some p;
  config_dir = λ c. c;
  create_dir_all = λ p. true;
  open_kv = λ c s p. ok 3;
  new_sql = λ c n t o. err 1;
}

abbrev with_sql : EthConfiguration
with_sql = record default_configuration { frontier_backend_type = sql }

abbrev pub keys : Keys String String ℕ String String
keys = record {
  from_string = λ s. some s;
  public = λ p. p;
  into_account = λ k. k;
  aura_from_string = λ s. some s;
  aura_public = λ p. p;
  wasm_binary = some 77;
  xcm_version = 4;
}

abbrev from_json_file : String → Result (LoadedSpec ℕ String String ℕ) ℕ
from_json_file s = ok (read 0 none)

abbrev from_json : ℕ → LoadedSpec ℕ String String ℕ
from_json n = read n none

-- Relay chain arguments that name no chain and no base path.
abbrev pub parse_from : List String → RelayRun String ℕ
parse_from args = record { shared_base_path = ok none; chain_id = λ is_dev. ok "" }

abbrev pub join : String → String → String
join a b = str_append a b

abbrev pub dev_spec : ChainSpec ℕ String String
dev_spec = build_spec keys "Development" "dev" development none 77 (
    testnet_genesis 4 (("//Alice", "//Alice") ∷ ("//Bob", "//Bob") ∷ [])
      (map (λ s. str_append "//" s) endowed_seeds) "//Alice" 2000)

load_dev : load_spec keys from_json_file "dev" ≡ some (ok (built dev_spec))
unfolding load_spec development_config config_genesis get_account_id_from_seed
    get_collator_keys_from_seed
load_dev = refl
