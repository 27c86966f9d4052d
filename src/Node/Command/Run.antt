-- ===== src/Node/Command/Run.antt =====
-- parachain/node/src/command.rs: `run`, from the parsed command line. The closures that a runner is
-- given run on the configuration that it was created with, and the runner waits for what they start.
pub mod Kinds
pub mod Jobs
pub mod Database
pub mod Returned
use Prim.Native.String.{String, ◌++◌ as str_append}
use qnch_chain.Prelude.{
  ℕ, Bool, true, false, not, Option, none, some, List, [], ◌∷◌, ◌++◌, map, Result, ok, err, map_err,
  if◌then◌else◌,
}
use qnch_chain.Prelude.Exec.{
  Exec, Stop, failed, panicked, pure, fail, panic, attempt, consult, expect, emit, ◌>>=◌, ◌>>◌,
}
use qnch_chain.Node.ChainSpec.{Extensions, Keys}
use qnch_chain.Node.Frontier.{FrontierBackend}
use qnch_chain.Node.Service.{Configuration, PartialComponents, Effect}
use qnch_chain.Node.Service.Partial.{new_partial}
use qnch_chain.Node.Service.Start.{StartCrates}
use qnch_chain.Node.Service.Launch.{start_parachain_node}
use qnch_chain.Node.Command.{load_spec, try_get, RelayRun, RelayChainCli, new, unwrap_or_default}
use qnch_chain.Node.Command.Subcommands.{
  CommandTypes, BenchmarkCmd, Subcommand, Cli, Spec, RunnerConfig, RunnerOf, Job, Action, pallet,
  block, storage, machine, other_benchmark, build_spec, check_block, export_blocks, export_state,
  import_blocks, revert, purge_chain, export_genesis_head, export_genesis_wasm, benchmark,
  frontier_db, runner_of_subcommand, runner_of_run, run_build_spec, run_check_block,
  run_export_blocks, run_export_state, run_import_blocks, run_revert, run_purge_chain,
  run_export_genesis_head, run_export_genesis_wasm, run_pallet, run_block, run_storage, run_machine,
  run_frontier_db, runner_created, node_effect, job, directory_created, hwbench_gathered,
  account_logged, collating_logged, run_until_exit,
}

-- What `run` takes from other crates. `E` are its errors and `S` those of the service; `input` is the
-- error of a text. `runtime_benchmarks` is the feature of that name.
pub record CommandCrates (K : CommandTypes) (E S X R : Type 0) : Type 1 where
  pub start : StartCrates K.node S X R
  pub keys : Keys K.Pair K.Public K.Code K.AccountId K.Keys
  pub from_json_file : String → Result (Spec K) String
  pub runtime_benchmarks : Bool
  pub service_error : S → E
  pub input : String → E
  pub display : E → String
  pub executable_name : String
  pub create_runner : RunnerOf K → List (Action K) → Result (RunnerConfig K) E
  pub normalize : K.RunCmd → K.NormalizedRunCmd
  pub collator_options : K.RunCmd → K.node.CollatorOptions
  pub join : K.PathBuf → String → K.PathBuf
  pub parse_from : List String → RelayRun K.PathBuf E
  pub create_configuration :
      RelayChainCli K.PathBuf E → K.TokioHandle → List (Action K) → Result K.node.RelayConfig E
  pub chain_of : K.ExportGenesisWasmCommand → Option String
  pub expose_db : K.node.parts.Backend → K.Db
  pub expose_storage : K.node.parts.Backend → K.Storage
  pub run_job : Job K → List (Action K) → Result (Unit {0}) E
  pub database_path : K.node.Database → Option K.PathBuf
  pub gather_hwbench : K.PathBuf → List (Action K) → K.node.HwBench
  pub into_account_truncating : ℕ → K.Account
  pub until_exit : List (Action K) → Result (Unit {0}) E

module _ {K : CommandTypes} {E S X R : Type 0} (C : CommandCrates K E S X R) where
  abbrev pub Run : Type 0 → Type 0
  Run A = Exec (Action K) E A

  abbrev pub convert : {A : Type 0} → Result A (Stop S) → Result A (Stop E)
  convert (ok a) = ok a
  convert (err (failed e)) = err (failed (C.service_error e))
  convert (err panicked) = err panicked

  -- An action of the service, whose errors are converted by `?`. A run has at most one.
  unfoldable pub within : {A : Type 0} → Exec (Effect K.node) S A → Run A
  within m s = let r = m [] in (convert r.0, s ++ map node_effect r.1)

  abbrev pub create_runner : RunnerOf K → Run (RunnerConfig K)
  create_runner for = attempt (runner_created for) (C.create_runner for)

  -- `cmd.run(…)`, and for a future that it returns, waiting for the result.
  abbrev pub run_cmd : Job K → Run (Unit {0})
  run_cmd j = attempt (job j) (C.run_job j)

  -- `new_partial(&config, &eth_cfg)?`
  abbrev pub partials : Cli K → RunnerConfig K → Run (PartialComponents K.node)
  partials cli given = within (new_partial C.start.partial given.config cli.eth)

  abbrev pub polkadot_cli : Cli K → RunnerConfig K → RelayChainCli K.PathBuf E
  polkadot_cli cli given =
      new C.join C.parse_from given.chain_spec given.base_path
        (C.executable_name ∷ cli.relay_chain_args)

  -- The configuration of the relay chain, with its error.
  unfoldable pub polkadot_config : Cli K → RunnerConfig K → Run K.node.RelayConfig
  polkadot_config cli given = consult (λ s.
      map_err (λ e. C.input (str_append "Relay chain argument error: " (C.display e)))
        (C.create_configuration (polkadot_cli cli given) given.tokio_handle s))

  -- `cli.load_spec(…)?`
  abbrev pub loaded : Option (Result (Spec K) String) → Run (Spec K)
  loaded none = panic
  loaded (some (ok spec)) = pure spec
  loaded (some (err e)) = fail (C.input e)

  -- `construct_async_run!` and the closures that build the components before their job
  abbrev pub with_partials :
      Cli K → Subcommand K → (RunnerConfig K → PartialComponents K.node → Job K) → Run (Unit {0})
  with_partials cli cmd code = do
    given ← create_runner (runner_of_subcommand cmd)
    components ← partials cli given
    run_cmd (code given components)

  -- `sync_run` with a closure that only runs the job
  abbrev pub sync_run : Subcommand K → (RunnerConfig K → Job K) → Run (Unit {0})
  sync_run cmd code = do given ← create_runner (runner_of_subcommand cmd); run_cmd (code given)

  abbrev refuse : Subcommand K → E → Run (Unit {0})
  refuse cmd e = do given ← create_runner (runner_of_subcommand cmd); fail e

  unfoldable pub run_benchmark : Cli K → BenchmarkCmd K → Run (Unit {0})
  run_benchmark cli (pallet cmd) =
      if C.runtime_benchmarks
      then sync_run (benchmark (pallet cmd)) (λ given. run_pallet cmd (some given.chain_spec))
      else refuse (benchmark (pallet cmd)) (
          C.input
            "Benchmarking wasn't enabled when building the node. You can enable it with `--features runtime-benchmarks`.")
  run_benchmark cli (block cmd) =
      with_partials cli (benchmark (block cmd))
        (λ given components. run_block cmd components.client)
  run_benchmark cli (storage cmd) =
      if C.runtime_benchmarks
      then with_partials cli (benchmark (storage cmd)) (λ given components.
        run_storage cmd given components.client (C.expose_db components.backend)
          (C.expose_storage components.backend))
      else refuse (benchmark (storage cmd))
          (C.input "Compile with --features=runtime-benchmarks to enable storage benchmarks.")
  run_benchmark cli (machine cmd) =
      sync_run (benchmark (machine cmd)) (λ given. run_machine cmd given)
  run_benchmark cli (other_benchmark cmd) =
      refuse (benchmark (other_benchmark cmd)) (C.input "Benchmarking sub-command unsupported")

  unfoldable pub key_value_only :
      FrontierBackend K.node.parts.Kv K.node.parts.Sql → Run K.node.parts.Kv
  key_value_only (FrontierBackend.key_value_backend kv) = pure kv
  key_value_only (FrontierBackend.sql_backend b) = panic

  unfoldable pub run_subcommand : Cli K → Subcommand K → Run (Unit {0})
  unfolding polkadot_config run_benchmark key_value_only
  run_subcommand cli (build_spec cmd) =
      sync_run (build_spec cmd) (λ given. run_build_spec cmd given.chain_spec given.config.network)
  run_subcommand cli (check_block cmd) =
      with_partials cli (check_block cmd)
        (λ given components. run_check_block cmd components.client components.import_queue)
  run_subcommand cli (export_blocks cmd) =
      with_partials cli (export_blocks cmd)
        (λ given components. run_export_blocks cmd components.client given.config.database)
  run_subcommand cli (export_state cmd) =
      with_partials cli (export_state cmd)
        (λ given components. run_export_state cmd components.client given.chain_spec)
  run_subcommand cli (import_blocks cmd) =
      with_partials cli (import_blocks cmd)
        (λ given components. run_import_blocks cmd components.client components.import_queue)
  run_subcommand cli (revert cmd) =
      with_partials cli (revert cmd)
        (λ given components. run_revert cmd components.client components.backend)
  run_subcommand cli (purge_chain cmd) = do
    given ← create_runner (runner_of_subcommand (purge_chain cmd))
    relay ← polkadot_config cli given
    run_cmd (run_purge_chain cmd given relay)
  run_subcommand cli (export_genesis_head cmd) =
      with_partials cli (export_genesis_head cmd)
        (λ given components. run_export_genesis_head cmd components.client)
  run_subcommand cli (export_genesis_wasm cmd) = do
    given ← create_runner (runner_of_subcommand (export_genesis_wasm cmd))
    spec ← loaded (load_spec C.keys C.from_json_file (unwrap_or_default (C.chain_of cmd)))
    run_cmd (run_export_genesis_wasm cmd spec)
  run_subcommand cli (benchmark cmd) = run_benchmark cli cmd
  run_subcommand cli (frontier_db cmd) = do
    given ← create_runner (runner_of_subcommand (frontier_db cmd))
    components ← partials cli given
    kv ← key_value_only components.frontier_backend
    run_cmd (run_frontier_db cmd components.client kv)

  -- The directory is created and the hardware measured, if the database has a path.
  unfoldable pub measure : Option K.PathBuf → Run (Option K.node.HwBench)
  measure none = pure none
  measure (some path) = do
    emit (directory_created path)
    hwbench ← attempt (hwbench_gathered path) (λ s. ok (C.gather_hwbench path s))
    pure (some hwbench)

  -- `hwbench`: the argument of `then_some` is evaluated first, in any case.
  unfoldable pub hwbench_of : Bool → Option K.PathBuf → Run (Option K.node.HwBench)
  unfolding measure
  hwbench_of no_hardware_benchmarks path = do
    measured ← measure path
    pure (if not no_hardware_benchmarks then measured else none)

  -- `para_id`
  abbrev pub para_id_in : Option Extensions → Run ℕ
  para_id_in none = fail (C.input "Could not find parachain ID in chain-spec.")
  para_id_in (some e) = pure e.para_id

  -- The closure of `run_node_until_exit`.
  unfoldable pub run_node : Cli K → K.node.CollatorOptions → RunnerConfig K → Run (Unit {0})
  unfolding hwbench_of polkadot_config
  run_node cli collator_options given = do
    hwbench ← hwbench_of cli.no_hardware_benchmarks (C.database_path given.config.database)
    id ← para_id_in (try_get given.chain_spec)
    relay ← polkadot_config cli given
    emit (account_logged (C.into_account_truncating id))
    emit (collating_logged (if given.config.is_authority then "yes" else "no"))
    client ←
        within (start_parachain_node C.start given.config relay collator_options cli.eth id hwbench)
    pure tt

  unfoldable pub run : Cli K → Run (Unit {0})
  unfolding run_subcommand run_node
  run cli = elim cli.subcommand [
    | some cmd ↦ run_subcommand cli cmd
    | none ↦ do
      given ← create_runner (runner_of_run (C.normalize cli.run))
      run_node cli (C.collator_options cli.run) given
      attempt run_until_exit C.until_exit
  ]
