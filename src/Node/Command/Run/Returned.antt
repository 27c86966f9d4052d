-- ===== src/Node/Command/Run/Returned.antt =====
-- A run without a subcommand that returns has started a node.
use qnch_chain.Prelude.{
  ℕ, ◌≡◌, refl, sym, ap, ◌∙◌, Bool, true, false, Option, none, some, List, [], ◌∷◌, ◌++◌, map,
  Result, ok, err, All, append_assoc, if◌then◌else◌,
}
use mathlib.Core.List.{map-append}
use qnch_chain.Prelude.Exec.{
  Exec, Stop, failed, panicked, pure, attempt, emit, ◌>>=◌, ◌>>◌, respond, continue,
}
use qnch_chain.Prelude.Exec.Rules.{
  Keeps, Leads, Leads-bind, Keeps-consult, Keeps-pure, Keeps-fail, Keeps-attempt, Keeps-emit,
  Keeps-bind,
}
use qnch_chain.Node.ChainSpec.{Extensions}
use qnch_chain.Node.Command.{try_get}
use qnch_chain.Node.Service.{
  Types, Effect, aura, start_network, warn_hardware, frontier_task, full_parts, telemetry_worker,
  transaction_pool, sql_directory, verifying_queue, relay_interface, build_network,
  offchain_workers, block_data_cache, spawn_tasks, print_hwbench, telemetry_hwbench,
  relay_chain_tasks,
}
use qnch_chain.Node.Service.Launch.{start_parachain_node}
use qnch_chain.Node.Service.Launch.Steps.{allowed, Allowed}
use qnch_chain.Node.Service.Launch.Order.{Ends, start_parachain_node-Ends}
use qnch_chain.Node.Command.Subcommands.{
  CommandTypes, Cli, RunnerConfig, Action, runner_of_run, runner_created, node_effect, job,
  directory_created, hwbench_gathered, account_logged, collating_logged, run_until_exit,
}
use qnch_chain.Node.Command.Run.{
  CommandCrates, within, polkadot_config, measure, hwbench_of, para_id_in, run_node, run, convert,
}
use qnch_chain.Node.Command.Run.Kinds.{All-append}

-- An effect that may precede the start of the network: no job, and no wait for the exit.
abbrev pub early : {K : CommandTypes} → Action K → Bool
early (runner_created r) = true
early (node_effect v) = allowed true v
early (job j) = false
early (directory_created p) = true
early (hwbench_gathered p) = true
early (account_logged a) = true
early (collating_logged t) = true
early run_until_exit = false

abbrev pub Early : {K : CommandTypes} → List (Action K) → Type 0
Early s = All (λ a. early a ≡ true) s

allowed_for_authority :
    {T : Types} (a : Bool) (v : Effect T) → allowed a v ≡ true → allowed true v ≡ true
allowed_for_authority a (aura p) h = refl
allowed_for_authority a (warn_hardware w) h = refl
allowed_for_authority a (start_network n) h = h
allowed_for_authority a (full_parts c t w b) h = refl
allowed_for_authority a (telemetry_worker w) h = refl
allowed_for_authority a (transaction_pool o b r c) h = refl
allowed_for_authority a (sql_directory i) h = refl
allowed_for_authority a (verifying_queue c b r t) h = refl
allowed_for_authority a (relay_interface r c w o p) h = refl
allowed_for_authority a (build_network p) h = refl
allowed_for_authority a (offchain_workers o) h = refl
allowed_for_authority a (block_data_cache o b c r) h = refl
allowed_for_authority a (spawn_tasks p) h = refl
allowed_for_authority a (print_hwbench p) h = refl
allowed_for_authority a (telemetry_hwbench t p) h = refl
allowed_for_authority a (relay_chain_tasks p) h = refl
allowed_for_authority a (frontier_task t) h = refl

module _ (K : CommandTypes) where
  nodes-Early :
      (a : Bool) (vs : List (Effect K.node)) → Allowed a vs → Early {K = K} (map node_effect vs)
  nodes-Early a [] h = tt
  nodes-Early a (v ∷ vs) h = (allowed_for_authority a v h.0, nodes-Early a vs h.1)

  -- The network was started last, and only then.
  abbrev pub Started : List (Action K) → Type 0
  Started s =
      (before : List (Action K)) × (starter : K.node.NetworkStarter) × (s
        ≡ before ++ (node_effect (start_network starter) ∷ []))
      × Early before

  abbrev AfterNode : {E A : Type 0} → Result A (Stop E) × List (Action K) → Type 0
  AfterNode (ok a, s) = Started s
  AfterNode (err e, s) = Unit

  -- If a run returns, then the network was started, and after it there is only the wait for the exit.
  abbrev pub Returned : {E : Type 0} → Result (Unit {0}) (Stop E) × List (Action K) → Type 0
  Returned (ok u, s) =
      (before : List (Action K)) × (starter : K.node.NetworkStarter) × (s
        ≡ before ++ (node_effect (start_network starter) ∷ run_until_exit ∷ []))
      × Early before
  Returned (err e, s) = Unit

module _ {K : CommandTypes} {E S X R : Type 0} (C : CommandCrates K E S X R) (cli : Cli K) where
  abbrev KeepsEarly : {A : Type 0} → Exec (Action K) E A → Type 0
  KeepsEarly m = Keeps Early (λ e. Unit {0}) m

  emit-Early : (v : Action K) → early v ≡ true → KeepsEarly (emit v)
  emit-Early v h = Keeps-emit v (λ s p. All-append _ s (v ∷ []) p (h, tt))

  attempt-Early :
      {A : Type 0} (v : Action K) (f : List (Action K) → Result A E)
      → early v ≡ true
      → KeepsEarly (attempt v f)
  attempt-Early v f h = Keeps-attempt v f (λ e. tt) (λ s p. All-append _ s (v ∷ []) p (h, tt))

  measure-Early : (path : Option K.PathBuf) → KeepsEarly (measure C path)
  unfolding measure
  measure-Early none = Keeps-pure none
  measure-Early (some path) =
      Keeps-bind _ _ (emit-Early _ refl)
        λ u. Keeps-bind _ _ (attempt-Early _ _ refl) λ h. Keeps-pure _

  hwbench_of-Early : (off : Bool) (path : Option K.PathBuf) → KeepsEarly (hwbench_of C off path)
  unfolding hwbench_of
  hwbench_of-Early off path = Keeps-bind _ _ (measure-Early path) λ h. Keeps-pure _

  para_id_in-Early : (e : Option Extensions) → KeepsEarly (para_id_in C e)
  para_id_in-Early none = Keeps-fail _ tt
  para_id_in-Early (some e) = Keeps-pure _

  polkadot_config-Early : (given : RunnerConfig K) → KeepsEarly (polkadot_config C cli given)
  unfolding polkadot_config
  polkadot_config-Early given = Keeps-consult _ (λ e. tt)

  quits :
      (e : Stop E) (s : List (Action K))
      → Early s
      → Unit {0}
      → AfterNode K {A = Unit {0}} (err e, s)
  quits e s p g = tt

  node-AfterNode :
      (a : Bool) (r : Result K.node.parts.Client (Stop S) × List (Effect K.node))
      (s : List (Action K))
      → Ends a (Unit {0}) K.node.parts.Client r
      → Early s
      → AfterNode K
          (continue (convert C r.0) (λ client. pure {E = E} tt) (s ++ map node_effect r.1))
  unfolding pure
  node-AfterNode a (ok client, vs) s (before, starter, e, h) p = (
    s ++ map node_effect before,
    starter,
    ap (λ l. s ++ map node_effect l) e
        ∙ ap (λ l. s ++ l) (map-append _ before _)
        ∙ sym (append_assoc s _ _),
    All-append _ s _ p (nodes-Early K a before h),
  )
  node-AfterNode a (err (failed e), vs) s h p = tt
  node-AfterNode a (err panicked, vs) s h p = tt

  started :
      (given : RunnerConfig K) (relay : K.node.RelayConfig) (id : ℕ)
      (hwbench : Option K.node.HwBench)
      → Leads Early (AfterNode K) (
          within C (
            start_parachain_node C.start given.config relay
              (C.collator_options cli.run)
              cli.eth
              id
              hwbench)
          >>= λ client. pure tt)
  unfolding within ◌>>=◌
  started given relay id hwbench = record {
    to = λ s p.
        node-AfterNode _ _ s
          (start_parachain_node-Ends C.start given.config relay (C.collator_options cli.run) cli.eth
            id hwbench)
          p;
  }

  run_node-AfterNode :
      (given : RunnerConfig K)
      → Leads Early (AfterNode K) (run_node C cli (C.collator_options cli.run) given)
  unfolding run_node
  run_node-AfterNode given =
      Leads-bind _ _
        (hwbench_of-Early cli.no_hardware_benchmarks (C.database_path given.config.database)) quits
        λ hwbench. Leads-bind _ _ (para_id_in-Early (try_get given.chain_spec)) quits λ id.
          Leads-bind _ _ (polkadot_config-Early given) quits λ relay.
            Leads-bind _ _ (emit-Early (account_logged (C.into_account_truncating id)) refl) quits
              λ u.
                Leads-bind _ _
                  (emit-Early (collating_logged (if given.config.is_authority then "yes" else "no"))
                    refl)
                  quits λ u. started given relay id hwbench

  exits :
      (q : Result (Unit {0}) E) (s : List (Action K))
      → Started K s
      → Returned K (respond q, s ++ (run_until_exit ∷ []))
  exits (ok u) s (before, starter, e, h) =
      (before, starter, ap (λ l. l ++ (run_until_exit ∷ [])) e ∙ append_assoc before _ _, h)
  exits (err x) s h = tt

  after_node :
      (r : Result (Unit {0}) (Stop E) × List (Action K))
      → AfterNode K r
      → Returned K (continue r.0 (λ u. attempt run_until_exit C.until_exit) r.1)
  unfolding attempt
  after_node (ok u, s) h = exits (C.until_exit s) s h
  after_node (err e, s) h = tt

  waited :
      (given : RunnerConfig K)
      → Leads Early
          (Returned K)
          (run_node C cli (C.collator_options cli.run) given >> attempt run_until_exit C.until_exit)
  unfolding ◌>>=◌
  waited given = record {
    to = λ s p.
        after_node (run_node C cli (C.collator_options cli.run) given s)
          ((run_node-AfterNode given).to s p);
  }

  -- If a run without a subcommand returns, whatever the other crates answered, then it has started the
  -- network of a node, once and after everything else of the node, has executed no job, and has then
  -- waited for the exit.
  pub run-Returned : cli.subcommand ≡ none → Returned K (run C cli [])
  unfolding run
  run-Returned sub = rw sub (
      (Leads-bind {Q = Returned K} _ _
          (attempt-Early (runner_created (runner_of_run (C.normalize cli.run))) _ refl)
          (λ e s p g. tt) waited).to
        [] tt)
