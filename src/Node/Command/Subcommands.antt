-- ===== src/Node/Command/Subcommands.antt =====
-- parachain/node/src/cli.rs (`Subcommand` and `Cli`), and the types for `run` in command.rs: the options
-- of each subcommand come from the crate that runs it. The effects of a run are those of the node,
-- and what the subcommands execute.
use Prim.Native.String.{String}
use qnch_chain.Prelude.{Bool, Option, List}
use qnch_chain.Node.Frontier.{EthConfiguration}
use qnch_chain.Node.Service.{Types, Configuration, Effect}
use qnch_chain.Node.Command.{LoadedSpec}

-- What `run` takes from other crates, as types.
pub record CommandTypes : Type 1 where
  pub node : Types
  pub Pair : Type 0
  pub Public : Type 0
  pub Code : Type 0
  pub AccountId : Type 0
  pub Keys : Type 0
  pub Json : Type 0
  pub PathBuf : Type 0
  pub TokioHandle : Type 0
  pub RunCmd : Type 0
  pub NormalizedRunCmd : Type 0
  pub BuildSpecCmd : Type 0
  pub CheckBlockCmd : Type 0
  pub ExportBlocksCmd : Type 0
  pub ExportStateCmd : Type 0
  pub ImportBlocksCmd : Type 0
  pub RevertCmd : Type 0
  pub PurgeChainCmd : Type 0
  pub ExportGenesisHeadCommand : Type 0
  pub ExportGenesisWasmCommand : Type 0
  pub PalletCmd : Type 0
  pub BlockCmd : Type 0
  pub StorageCmd : Type 0
  pub MachineCmd : Type 0
  pub OtherBenchmarkCmd : Type 0
  pub FrontierDbCmd : Type 0
  pub Db : Type 0
  pub Storage : Type 0
  pub Account : Type 0

-- `BenchmarkCmd` of frame_benchmarking_cli, by the cases that `run` tells apart
pub data BenchmarkCmd (K : CommandTypes) : Type 0 where
  pallet : K.PalletCmd → BenchmarkCmd K
  block : K.BlockCmd → BenchmarkCmd K
  storage : K.StorageCmd → BenchmarkCmd K
  machine : K.MachineCmd → BenchmarkCmd K
  other_benchmark : K.OtherBenchmarkCmd → BenchmarkCmd K

pub data Subcommand (K : CommandTypes) : Type 0 where
  build_spec : K.BuildSpecCmd → Subcommand K
  check_block : K.CheckBlockCmd → Subcommand K
  export_blocks : K.ExportBlocksCmd → Subcommand K
  export_state : K.ExportStateCmd → Subcommand K
  import_blocks : K.ImportBlocksCmd → Subcommand K
  revert : K.RevertCmd → Subcommand K
  purge_chain : K.PurgeChainCmd → Subcommand K
  export_genesis_head : K.ExportGenesisHeadCommand → Subcommand K
  export_genesis_wasm : K.ExportGenesisWasmCommand → Subcommand K
  benchmark : BenchmarkCmd K → Subcommand K
  frontier_db : K.FrontierDbCmd → Subcommand K

pub record Cli (K : CommandTypes) : Type 0 where
  pub subcommand : Option (Subcommand K)
  pub run : K.RunCmd
  pub no_hardware_benchmarks : Bool
  pub relay_chain_args : List String
  pub eth : EthConfiguration

abbrev pub Spec : CommandTypes → Type 0
Spec K = LoadedSpec K.Code K.AccountId K.Keys K.Json

-- The configuration that a runner hands over, with what only `run` reads beside the node's part.
pub record RunnerConfig (K : CommandTypes) : Type 0 where
  pub config : Configuration K.node
  pub chain_spec : Spec K
  pub base_path : K.PathBuf
  pub tokio_handle : K.TokioHandle

-- What a runner is created for.
pub data RunnerOf (K : CommandTypes) : Type 0 where
  runner_of_subcommand : Subcommand K → RunnerOf K
  runner_of_run : K.NormalizedRunCmd → RunnerOf K

-- A call of `run` on the options of a subcommand, with its other arguments. Nothing else is reverted
-- with the blocks, and machines are compared with the reference hardware.
pub data Job (K : CommandTypes) : Type 0 where
  run_build_spec : K.BuildSpecCmd → Spec K → K.node.NetworkConfig → Job K
  run_check_block : K.CheckBlockCmd → K.node.parts.Client → K.node.ImportQueue → Job K
  run_export_blocks : K.ExportBlocksCmd → K.node.parts.Client → K.node.Database → Job K
  run_export_state : K.ExportStateCmd → K.node.parts.Client → Spec K → Job K
  run_import_blocks : K.ImportBlocksCmd → K.node.parts.Client → K.node.ImportQueue → Job K
  run_revert : K.RevertCmd → K.node.parts.Client → K.node.parts.Backend → Job K
  run_purge_chain : K.PurgeChainCmd → RunnerConfig K → K.node.RelayConfig → Job K
  run_export_genesis_head : K.ExportGenesisHeadCommand → K.node.parts.Client → Job K
  run_export_genesis_wasm : K.ExportGenesisWasmCommand → Spec K → Job K
  run_pallet : K.PalletCmd → Option (Spec K) → Job K
  run_block : K.BlockCmd → K.node.parts.Client → Job K
  run_storage : K.StorageCmd → RunnerConfig K → K.node.parts.Client → K.Db → K.Storage → Job K
  run_machine : K.MachineCmd → RunnerConfig K → Job K
  run_frontier_db : K.FrontierDbCmd → K.node.parts.Client → K.node.parts.Kv → Job K

-- The effects of `run`: a runner is created, an effect of the node, a job, the directory of the
-- database is created, the hardware is measured, the relay chain is configured, two lines are
-- logged, and the node runs until it is told to exit.
pub data Action (K : CommandTypes) : Type 0 where
  runner_created : RunnerOf K → Action K
  node_effect : Effect K.node → Action K
  job : Job K → Action K
  directory_created : K.PathBuf → Action K
  hwbench_gathered : K.PathBuf → Action K
  account_logged : K.Account → Action K
  collating_logged : String → Action K
  run_until_exit : Action K
