-- ===== src/Node/Command/Run/Database.antt =====
-- The subcommand frontier-db, which works on a key-value database only.
use qnch_chain.Prelude.{
  ◌≡◌, ◌≢◌, refl, ◌∙◌, subst, Bool, true, false, List, [], Result, ok, err, arith,
}
use qnch_chain.Prelude.Exec.{Exec, Stop, failed, panicked, panic, ◌>>=◌}
use qnch_chain.Prelude.Exec.Rules.{Keeps, Leads, Leads-bind, Keeps-attempt, Keeps-pure, EndsBy}
use qnch_chain.Prelude.Exec.Gives.{
  Gives, same_value, Gives-pure, Gives-fail, Gives-panic, Gives-bind, Gives-bind_with,
  Leads-bind_with,
}
use qnch_chain.Node.Frontier.{EthConfiguration, FrontierBackend}
use qnch_chain.Node.Frontier.Database.{Outcome}
use qnch_chain.Node.Frontier.Tasks.{is_sql, wants_sql, Fits, open_frontier_backend-Fits}
use qnch_chain.Node.Service.{Types, Configuration, PartialComponents, Effect}
use qnch_chain.Node.Service.Partial.{PartialCrates, opened, new_partial}
use qnch_chain.Node.Service.Launch.Steps.{MayStop, new_partial-Tame}
use qnch_chain.Node.Command.Subcommands.{
  CommandTypes, Cli, RunnerConfig, Action, frontier_db, run_frontier_db,
}
use qnch_chain.Node.Command.Run.{
  CommandCrates, within, run_cmd, partials, key_value_only, run_subcommand, convert,
}
use qnch_chain.Node.Command.Run.Kinds.{Prepares}
use qnch_chain.Node.Command.Run.Jobs.{create_runner-Prepared, within-Prepared}

module _ {T : Types} {E X : Type 0} (C : PartialCrates T E X) (eth_config : EthConfiguration) where
  -- The database is of the kind that the options ask for.
  abbrev pub Wanted : FrontierBackend T.parts.Kv T.parts.Sql → Type 0
  Wanted b = is_sql b ≡ wants_sql eth_config.frontier_backend_type

  opened-Wanted :
      (config : Configuration T) (client : T.parts.Client)
      (o : Outcome (FrontierBackend T.parts.Kv T.parts.Sql) E)
      → Fits C.files eth_config config.chain_id client config.database o
      → Gives Wanted (opened C o)
  unfolding opened
  opened-Wanted config client (Outcome.returned b) h = Gives-pure b h
  opened-Wanted config client (Outcome.failed e) h = Gives-fail e
  opened-Wanted config client Outcome.panicked h = Gives-panic

  new_partial-Wanted :
      (config : Configuration T)
      → Gives (λ p. Wanted p.frontier_backend) (new_partial C config eth_config)
  unfolding new_partial
  new_partial-Wanted config = Gives-bind _ _ λ watched. Gives-bind _ _ λ full. Gives-bind _ _ λ u.
      Gives-bind _ _ λ v. Gives-bind _ _ λ queue. Gives-bind _ _ λ w.
        Gives-bind_with _ _
          (opened-Wanted config full.0 _ (
            open_frontier_backend-Fits C.files eth_config config.chain_id full.0 config.database _))
          λ database h. Gives-pure _ h

module _ {K : CommandTypes} {E S X R : Type 0} (C : CommandCrates K E S X R) (cli : Cli K) where
  converted :
      {A : Type 0} (P : A → Type 0) (r : Result A (Stop S)) (a : A)
      → ((a : A) → r ≡ ok a → P a)
      → convert C r ≡ ok a
      → P a
  converted P (ok b) a g h = same_value P b a h (g b refl)
  converted P (err (failed e)) a g h = cc
  converted P (err panicked) a g h = cc

  within-Gives :
      {A : Type 0} {P : A → Type 0} (m : Exec (Effect K.node) S A)
      → Gives P m
      → Gives P (within C m)
  unfolding within
  within-Gives m g = record { given = λ s a h. converted _ (m []).0 a (g.given []) h }

  converted-MayStop :
      {A : Type 0} (Panic : Type 0) (r : Result A (Stop S))
      → EndsBy (MayStop Panic) r
      → EndsBy (MayStop Panic) (convert C r)
  converted-MayStop Panic (ok a) h = tt
  converted-MayStop Panic (err (failed e)) h = tt
  converted-MayStop Panic (err panicked) h = h

  -- How frontier-db ends, by whether the options ask for SQL: with SQL it never succeeds, and executes
  -- nothing, and without it never panics.
  abbrev pub EndsFor : Bool → Result (Unit {0}) (Stop E) × List (Action K) → Type 0
  EndsFor true (ok u, s) = ⊥
  EndsFor true (err e, s) = Prepares true s
  EndsFor false (r, s) = r ≢ err panicked

  module _ (cmd : K.FrontierDbCmd) where
    stops :
        (e : Stop E) (s : List (Action K)) → Prepares true s → Unit {0} → EndsFor true (err e, s)
    stops e s h g = h

    only_sql :
        (b : FrontierBackend K.node.parts.Kv K.node.parts.Sql)
        (f : K.node.parts.Kv → Exec (Action K) E (Unit {0}))
        → is_sql b ≡ true
        → Leads (Prepares true) (EndsFor true) (key_value_only C b >>= f)
    unfolding key_value_only panic ◌>>=◌
    only_sql (FrontierBackend.key_value_backend b) f h = cc
    only_sql (FrontierBackend.sql_backend b) f h = record { to = λ s p. p }

    sql_run :
        wants_sql cli.eth.frontier_backend_type ≡ true
        → Leads (Prepares true) (EndsFor true) (run_subcommand C cli (frontier_db cmd))
    unfolding run_subcommand
    sql_run sql = Leads-bind _ _ (create_runner-Prepared C (frontier_db cmd)) stops λ given.
        Leads-bind_with _ _ (within-Prepared C (frontier_db cmd) _ refl)
          (within-Gives _ (new_partial-Wanted C.start.partial cli.eth given.config)) stops
          λ components wanted. only_sql components.frontier_backend _ (wanted ∙ sql)

    abbrev Calm : {A : Type 0} → Result A (Stop E) × List (Action K) → Type 0
    Calm (r, s) = EndsBy (MayStop ⊥) r

    stays :
        (e : Stop E) (s : List (Action K)) → Unit {0} → MayStop ⊥ e → Calm {A = Unit {0}} (err e, s)
    stays e s u h = h

    not_both : (b : Bool) → b ≡ false → b ≡ true → ⊥
    not_both b f t = ground arith

    partials-Calm :
        (given : RunnerConfig K)
        → wants_sql cli.eth.frontier_backend_type ≡ false
        → Keeps (λ s. Unit {0}) (MayStop ⊥) (partials C cli given)
    unfolding within
    partials-Calm given kv = record {
      at = λ s h. (
        tt,
        converted-MayStop ⊥ _
            ((new_partial-Tame C.start.partial true ⊥ given.config cli.eth (λ client overrides p.
                not_both _ kv (
                  subst (Fits C.start.partial.files cli.eth _ client _) p (
                    open_frontier_backend-Fits C.start.partial.files cli.eth given.config.chain_id
                      client given.config.database overrides)))).at
              [] tt).1,
      );
    }

    only_kv :
        (b : FrontierBackend K.node.parts.Kv K.node.parts.Sql)
        → is_sql b ≡ false
        → Keeps (λ s. Unit {0}) (MayStop ⊥) (key_value_only C b)
    unfolding key_value_only
    only_kv (FrontierBackend.key_value_backend b) h = Keeps-pure b
    only_kv (FrontierBackend.sql_backend b) h = cc

    executed_calmly :
        (components : PartialComponents K.node) (kv : K.node.parts.Kv)
        → Leads (λ s. Unit {0}) Calm (run_cmd C (run_frontier_db cmd components.client kv))
    executed_calmly components kv =
        let k : Keeps (λ s. Unit {0}) (MayStop ⊥)
            (run_cmd C (run_frontier_db cmd components.client kv)) =
          Keeps-attempt _ _ (λ e. tt) (λ s h. tt) in
        record { to = λ s h. (k.at s h).1 }

    kv_run :
        wants_sql cli.eth.frontier_backend_type ≡ false
        → Leads (λ s. Unit {0}) Calm (run_subcommand C cli (frontier_db cmd))
    unfolding run_subcommand
    kv_run kv = Leads-bind _ _ (Keeps-attempt _ _ (λ e. tt) (λ s h. tt)) stays λ given.
        Leads-bind_with _ _ (partials-Calm given kv)
          (within-Gives _ (new_partial-Wanted C.start.partial cli.eth given.config)) stays
          λ components wanted.
            Leads-bind _ _ (only_kv components.frontier_backend (wanted ∙ kv)) stays
              λ b. executed_calmly components b

    no_panic : (r : Result (Unit {0}) (Stop E) × List (Action K)) → Calm r → EndsFor false r
    no_panic (ok u, s) h = λ e. cc
    no_panic (err (failed e), s) h = λ q. ground arith
    no_panic (err panicked, s) h = λ e. h

    ends_by :
        (b : Bool)
        → wants_sql cli.eth.frontier_backend_type ≡ b
        → EndsFor b (run_subcommand C cli (frontier_db cmd) [])
    ends_by true h = (sql_run h).to [] tt
    ends_by false h = no_panic (run_subcommand C cli (frontier_db cmd) []) ((kv_run h).to [] tt)

    -- The subcommand frontier-db, whatever the other crates answer: if the options ask for a SQL
    -- database, it fails or panics, and executes no job, and otherwise it does not panic.
    pub frontier_db-EndsFor :
        EndsFor
          (wants_sql cli.eth.frontier_backend_type)
          (run_subcommand C cli (frontier_db cmd) [])
    frontier_db-EndsFor = ends_by _ refl
