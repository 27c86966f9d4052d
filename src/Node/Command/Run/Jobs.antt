-- ===== src/Node/Command/Run/Jobs.antt =====
-- What the subcommands execute.
use Prim.Native.String.{String}
use qnch_chain.Prelude.{
  ◌≡◌, ◌⊎◌, inl, inr, refl, Bool, true, false, Option, none, some, List, [], ◌∷◌, ◌++◌, Result, ok,
  err, if◌then◌else◌,
}
use qnch_chain.Prelude.Exec.{Exec, Stop, fail, attempt, ◌>>=◌, respond}
use qnch_chain.Prelude.Exec.Rules.{
  Keeps, Leads, Leads-bind, Keeps-consult, Keeps-pure, Keeps-fail, Keeps-panic, Keeps-attempt,
  EndsBy,
}
use qnch_chain.Node.Frontier.{FrontierBackend}
use qnch_chain.Node.Service.{PartialComponents, Effect}
use qnch_chain.Node.Command.Subcommands.{
  CommandTypes, BenchmarkCmd, Subcommand, Cli, Spec, RunnerConfig, Job, Action, pallet, block,
  storage, machine, other_benchmark, build_spec, check_block, export_blocks, export_state,
  import_blocks, revert, purge_chain, export_genesis_head, export_genesis_wasm, benchmark,
  frontier_db, runner_of_subcommand, job,
}
use qnch_chain.Node.Command.Run.{
  CommandCrates, within, create_runner, run_cmd, with_partials, sync_run, polkadot_config, loaded,
  key_value_only, run_benchmark, run_subcommand,
}
use qnch_chain.Node.Command.Run.Kinds.{
  command_of, needs_parts, Prepares, All-append, nodes-Prepares,
}

module _ {K : CommandTypes} {E S X R : Type 0} (C : CommandCrates K E S X R) where
  -- The job of `cmd` was executed behind `before`, and its result is the result.
  pub record Executed (cmd : Subcommand K) (result : Result (Unit {0}) (Stop E))
      (s : List (Action K)) : Type 0 where
    pub before : List (Action K)
    pub executed : Job K
    pub prepared : Prepares (needs_parts cmd) before
    pub own : command_of executed ≡ cmd
    pub last : s ≡ before ++ (job executed ∷ [])
    pub answered : result ≡ respond (C.run_job executed before)

  -- How a subcommand may end: either after its job, or with an error or a panic before it.
  abbrev pub Ends : Subcommand K → Result (Unit {0}) (Stop E) × List (Action K) → Type 0
  Ends cmd (ok u, s) = Executed cmd (ok u) s
  Ends cmd (err e, s) = Executed cmd (err e) s ⊎ Prepares (needs_parts cmd) s

  module _ (cmd : Subcommand K) where
    abbrev Prepared : {A : Type 0} → Exec (Action K) E A → Type 0
    Prepared m = Keeps (Prepares (needs_parts cmd)) (λ e. Unit {0}) m

    abbrev Ending : Exec (Action K) E (Unit {0}) → Type 0
    Ending m = Leads (Prepares (needs_parts cmd)) (Ends cmd) m

    stop :
        (e : Stop E) (s : List (Action K))
        → Prepares (needs_parts cmd) s
        → Unit {0}
        → Ends cmd (err e, s)
    stop e s h g = inr h

    after_job :
        (r : Result (Unit {0}) (Stop E)) (s : List (Action K)) → Executed cmd r s → Ends cmd (r, s)
    after_job (ok u) s h = h
    after_job (err e) s h = inl h

    run_cmd-Ending : (j : Job K) → command_of j ≡ cmd → Ending (run_cmd C j)
    unfolding attempt
    run_cmd-Ending j own = record {
      to = λ s h. after_job _ _ (record {
        before = s;
        executed = j;
        prepared = h;
        own = own;
        last = refl;
        answered = refl;
      });
    }

    pub create_runner-Prepared : Prepared (create_runner C (runner_of_subcommand cmd))
    create_runner-Prepared =
        Keeps-attempt _ _ (λ e. tt) (λ s h. All-append _ s (_ ∷ []) h (refl, tt))

    any_end : {A : Type 0} (r : Result A (Stop E)) → EndsBy (λ e. Unit {0}) r
    any_end (ok a) = tt
    any_end (err e) = tt

    pub within-Prepared :
        {A : Type 0} (m : Exec (Effect K.node) S A) → needs_parts cmd ≡ true → Prepared (within C m)
    unfolding within
    within-Prepared m need = record {
      at = λ s h. (All-append _ s _ h (rw need (nodes-Prepares K (m []).1)), any_end _);
    }

    polkadot_config-Prepared :
        (cli : Cli K) (given : RunnerConfig K) → Prepared (polkadot_config C cli given)
    unfolding polkadot_config
    polkadot_config-Prepared cli given = Keeps-consult _ (λ e. tt)

    loaded-Prepared : (o : Option (Result (Spec K) String)) → Prepared (loaded C o)
    loaded-Prepared none = Keeps-panic tt
    loaded-Prepared (some (ok spec)) = Keeps-pure spec
    loaded-Prepared (some (err e)) = Keeps-fail _ tt

    key_value_only-Prepared :
        (b : FrontierBackend K.node.parts.Kv K.node.parts.Sql) → Prepared (key_value_only C b)
    unfolding key_value_only
    key_value_only-Prepared (FrontierBackend.key_value_backend kv) = Keeps-pure kv
    key_value_only-Prepared (FrontierBackend.sql_backend b) = Keeps-panic tt

    created :
        (f : RunnerConfig K → Exec (Action K) E (Unit {0}))
        → ((given : RunnerConfig K) → Ending (f given))
        → Ending (create_runner C (runner_of_subcommand cmd) >>= f)
    created f h = Leads-bind _ _ create_runner-Prepared stop h

    fail-Ending : (e : E) → Ending (fail e)
    unfolding fail
    fail-Ending e = record { to = λ s h. inr h }

    if-Ending :
        (b : Bool) (m n : Exec (Action K) E (Unit {0}))
        → Ending m
        → Ending n
        → Ending (if b then m else n)
    if-Ending true m n h k = h
    if-Ending false m n h k = k

    with_partials-Ending :
        (cli : Cli K) (code : RunnerConfig K → PartialComponents K.node → Job K)
        → needs_parts cmd ≡ true
        → ((given : RunnerConfig K) (p : PartialComponents K.node)
            → command_of (code given p) ≡ cmd)
        → Ending (with_partials C cli cmd code)
    with_partials-Ending cli code need own =
        created _
          λ given. Leads-bind _ _ (within-Prepared _ need) stop λ p. run_cmd-Ending _ (own given p)

    sync_run-Ending :
        (code : RunnerConfig K → Job K)
        → ((given : RunnerConfig K) → command_of (code given) ≡ cmd)
        → Ending (sync_run C cmd code)
    sync_run-Ending code own = created _ λ given. run_cmd-Ending _ (own given)

  run_benchmark-Ends :
      (cli : Cli K) (cmd : BenchmarkCmd K) → Ending (benchmark cmd) (run_benchmark C cli cmd)
  unfolding run_benchmark
  run_benchmark-Ends cli (pallet cmd) =
      if-Ending _ _ _ _ (sync_run-Ending _ _ (λ given. refl)) (created _ _ λ given. fail-Ending _ _)
  run_benchmark-Ends cli (block cmd) = with_partials-Ending _ cli _ refl (λ given p. refl)
  run_benchmark-Ends cli (storage cmd) =
      if-Ending _ _ _ _ (with_partials-Ending _ cli _ refl (λ given p. refl))
        (created _ _ λ given. fail-Ending _ _)
  run_benchmark-Ends cli (machine cmd) = sync_run-Ending _ _ (λ given. refl)
  run_benchmark-Ends cli (other_benchmark cmd) = created _ _ λ given. fail-Ending _ _

  run_subcommand-Ending : (cli : Cli K) (cmd : Subcommand K) → Ending cmd (run_subcommand C cli cmd)
  unfolding run_subcommand
  run_subcommand-Ending cli (build_spec cmd) = sync_run-Ending _ _ (λ given. refl)
  run_subcommand-Ending cli (check_block cmd) = with_partials-Ending _ cli _ refl (λ given p. refl)
  run_subcommand-Ending cli (export_blocks cmd) =
      with_partials-Ending _ cli _ refl (λ given p. refl)
  run_subcommand-Ending cli (export_state cmd) = with_partials-Ending _ cli _ refl (λ given p. refl)
  run_subcommand-Ending cli (import_blocks cmd) =
      with_partials-Ending _ cli _ refl (λ given p. refl)
  run_subcommand-Ending cli (revert cmd) = with_partials-Ending _ cli _ refl (λ given p. refl)
  run_subcommand-Ending cli (purge_chain cmd) = created _ _ λ given.
      Leads-bind _ _ (polkadot_config-Prepared (purge_chain cmd) cli given) (stop _)
        λ relay. run_cmd-Ending _ _ refl
  run_subcommand-Ending cli (export_genesis_head cmd) =
      with_partials-Ending _ cli _ refl (λ given p. refl)
  run_subcommand-Ending cli (export_genesis_wasm cmd) = created _ _ λ given.
      Leads-bind _ _ (loaded-Prepared (export_genesis_wasm cmd) _) (stop _)
        λ spec. run_cmd-Ending _ _ refl
  run_subcommand-Ending cli (benchmark cmd) = run_benchmark-Ends cli cmd
  run_subcommand-Ending cli (frontier_db cmd) = created _ _ λ given.
      Leads-bind _ _ (within-Prepared (frontier_db cmd) _ refl) (stop _) λ p.
        Leads-bind _ _ (key_value_only-Prepared (frontier_db cmd) p.frontier_backend) (stop _)
          λ kv. run_cmd-Ending _ _ refl

  -- Whatever the other crates answer, a run of a subcommand executes at most one job, its own, as the
  -- last effect. If it does, the result of the job is the result of the run; if it does not, the run
  -- fails or panics. The subcommands that do not work on the parts of a node have no effect of the node.
  pub run_subcommand-Ends :
      (cli : Cli K) (cmd : Subcommand K) → Ends cmd (run_subcommand C cli cmd [])
  run_subcommand-Ends cli cmd = (run_subcommand-Ending cli cmd).to [] tt
