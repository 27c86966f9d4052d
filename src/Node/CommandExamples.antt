-- ===== src/Node/CommandExamples.antt =====
-- The command line at concrete inputs, over the node of ServiceExamples. Every job succeeds.
use Prim.Native.String.{String}
use qnch_chain.Prelude.{ℕ, refl, true, false, Option, none, some, ok, err, []}
use qnch_chain.Node.Examples.{keys, join, parse_from, dev_spec}
use qnch_chain.Node.ServiceExamples.{node_types, node_config, start_crates}
use qnch_chain.Node.Frontier.{default_configuration, sql, EthConfiguration}
use qnch_chain.Node.Command.{built, read}
use qnch_chain.Node.Command.Subcommands.{
  CommandTypes, Subcommand, Cli, RunnerConfig, check_block, frontier_db,
}
use qnch_chain.Node.Command.Run.{CommandCrates, run_subcommand, run}
use qnch_chain.Node.Command.Run.Jobs.{Ends, run_subcommand-Ends}
use qnch_chain.Node.Command.Run.Database.{EndsFor, frontier_db-EndsFor}
use qnch_chain.Node.Command.Run.Returned.{Returned, run-Returned}

abbrev command_types : CommandTypes
command_types = record {
  node = node_types;
  Pair = String;
  Public = String;
  Code = ℕ;
  AccountId = String;
  Keys = String;
  Json = ℕ;
  PathBuf = String;
  TokioHandle = ℕ;
  RunCmd = ℕ;
  NormalizedRunCmd = ℕ;
  BuildSpecCmd = ℕ;
  CheckBlockCmd = ℕ;
  ExportBlocksCmd = ℕ;
  ExportStateCmd = ℕ;
  ImportBlocksCmd = ℕ;
  RevertCmd = ℕ;
  PurgeChainCmd = ℕ;
  ExportGenesisHeadCommand = ℕ;
  ExportGenesisWasmCommand = ℕ;
  PalletCmd = ℕ;
  BlockCmd = ℕ;
  StorageCmd = ℕ;
  MachineCmd = ℕ;
  OtherBenchmarkCmd = ℕ;
  FrontierDbCmd = ℕ;
  Db = ℕ;
  Storage = ℕ;
  Account = ℕ;
}

abbrev dev_given : RunnerConfig command_types
dev_given = record {
  config = node_config;
  chain_spec = built dev_spec;
  base_path = "/data";
  tokio_handle = 0;
}

-- A specification that was read from a file, without extensions.
abbrev bare_given : RunnerConfig command_types
bare_given = record dev_given { chain_spec = read 0 none }

abbrev crates : RunnerConfig command_types → CommandCrates command_types ℕ ℕ ℕ ℕ
crates given = record {
  start = start_crates;
  keys = keys;
  from_json_file = λ s. err "no such file";
  runtime_benchmarks = false;
  service_error = λ e. e;
  input = λ t. 1;
  display = λ e. "error";
  executable_name = "node";
  create_runner = λ r s. ok given;
  normalize = λ r. r;
  collator_options = λ r. r;
  join = join;
  parse_from = parse_from;
  create_configuration = λ c h s. ok 0;
  chain_of = λ c. none;
  expose_db = λ b. b;
  expose_storage = λ b. b;
  run_job = λ j s. ok tt;
  database_path = λ d. some "/data/db";
  gather_hwbench = λ p s. 0;
  into_account_truncating = λ id. id;
  until_exit = λ s. ok tt;
}

abbrev cli_of : Option (Subcommand command_types) → EthConfiguration → Cli command_types
cli_of sub eth = record {
  subcommand = sub;
  run = 0;
  no_hardware_benchmarks = true;
  relay_chain_args = [];
  eth = eth;
}

abbrev plain_cli : Cli command_types
plain_cli = cli_of none default_configuration

run_subcommand-Ends_example : Ends (crates dev_given) (check_block 3) (
    run_subcommand
      (crates dev_given)
      (cli_of (some (check_block 3)) default_configuration)
      (check_block 3)
      [])
run_subcommand-Ends_example =
    run_subcommand-Ends (crates dev_given) (cli_of (some (check_block 3)) default_configuration)
      (check_block 3)

abbrev sql_cli : Cli command_types
sql_cli =
    cli_of (some (frontier_db 5)) (record default_configuration { frontier_backend_type = sql })

frontier_db-EndsFor_example :
    EndsFor
      (crates dev_given)
      sql_cli
      true
      (run_subcommand (crates dev_given) sql_cli (frontier_db 5) [])
frontier_db-EndsFor_example = frontier_db-EndsFor (crates dev_given) sql_cli 5

run-Returned_example : Returned command_types (run (crates dev_given) plain_cli [])
run-Returned_example = run-Returned (crates dev_given) plain_cli refl
