-- ===== src/Node/Service/Launch/Steps.antt =====
-- The steps of starting a node keep to the rules for its effects, and panic only where they may.
use Prim.Native.String.{String}
use qnch_chain.Prelude.{
  ℕ, ◌≡◌, refl, sym, Bool, true, false, not, ◌&&◌, Option, none, some, List, [], ◌∷◌, ◌++◌, map,
  Result, All, arith,
}
use qnch_chain.Prelude.Exec.{Exec, Stop, failed, panicked, attempt, consult, emit}
use qnch_chain.Prelude.Exec.Rules.{
  Keeps, Keeps-pure, Keeps-fail, Keeps-panic, Keeps-attempt, Keeps-consult, Keeps-if, Keeps-emit,
  Keeps-expect, Keeps-bind,
}
use qnch_chain.Node.Frontier.{BackendType, key_value, sql, EthConfiguration, FrontierBackend, Task}
use qnch_chain.Node.Frontier.Database.{Outcome, open_frontier_backend}
use qnch_chain.Node.Service.{
  Types, Configuration, PartialComponents, Effect, aura, start_network, warn_hardware,
  frontier_task, full_parts, telemetry_worker, transaction_pool, sql_directory, verifying_queue,
  relay_interface, build_network, offchain_workers, block_data_cache, spawn_tasks, print_hwbench,
  telemetry_hwbench, relay_chain_tasks,
}
use qnch_chain.Node.Service.Partial.{
  PartialCrates, telemetry, spawn_worker, create_directory, opened, new_partial,
}
use qnch_chain.Node.Service.Start.{
  NetworkParts, StartCrates, start_offchain_workers, check_hwbench, emit_all, start_validator,
  report,
}

-- Effects before the network starts: consensus and the warning about weak hardware are for authorities.
abbrev pub allowed : {T : Types} → Bool → Effect T → Bool
allowed authority (aura p) = authority
allowed authority (warn_hardware h) = authority
allowed authority (start_network n) = false
allowed authority (full_parts c t w b) = true
allowed authority (telemetry_worker w) = true
allowed authority (transaction_pool o a r c) = true
allowed authority (sql_directory i) = true
allowed authority (verifying_queue c b r t) = true
allowed authority (relay_interface r c w o h) = true
allowed authority (build_network p) = true
allowed authority (offchain_workers o) = true
allowed authority (block_data_cache o a b r) = true
allowed authority (spawn_tasks p) = true
allowed authority (print_hwbench h) = true
allowed authority (telemetry_hwbench t h) = true
allowed authority (relay_chain_tasks p) = true
allowed authority (frontier_task t) = true

-- The effects so far are such.
abbrev pub Allowed : {T : Types} → Bool → List (Effect T) → Type 0
Allowed authority s = All (λ v. allowed authority v ≡ true) s

-- Failures are always possible, and a panic is if `Panic` holds.
abbrev pub MayStop : {E : Type 0} → Type 0 → Stop E → Type 0
MayStop Panic (failed e) = Unit
MayStop Panic panicked = Panic

All-snoc :
    {V : Type 0} (P : V → Type 0) (v : V) → P v → (s : List V) → All P s → All P (s ++ (v ∷ []))
All-snoc P v p [] h = (p, tt)
All-snoc P v p (x ∷ s) h = (h.0, All-snoc P v p s h.1)

module _ {T : Types} {E : Type 0} (authority : Bool) (Panic : Type 0) where
  abbrev pub Tame : {A : Type 0} → Exec (Effect T) E A → Type 0
  Tame m = Keeps (Allowed authority) (MayStop Panic) m

  pub emit-Tame : (v : Effect T) → allowed authority v ≡ true → Tame (emit v)
  emit-Tame v a = Keeps-emit v (λ s h. All-snoc _ v a s h)

  pub attempt-Tame :
      {A : Type 0} (v : Effect T) (f : List (Effect T) → Result A E)
      → allowed authority v ≡ true
      → Tame (attempt v f)
  attempt-Tame v f a = Keeps-attempt v f (λ e. tt) (λ s h. All-snoc _ v a s h)

  pub consult-Tame : {A : Type 0} (f : List (Effect T) → Result A E) → Tame (consult f)
  consult-Tame f = Keeps-consult f (λ e. tt)

module _ {T : Types} {E X : Type 0} (C : PartialCrates T E X) (authority : Bool)
    (Panic : Type 0) where
  abbrev Tamed : {A : Type 0} → Exec (Effect T) E A → Type 0
  Tamed m = Tame authority Panic m

  telemetry-Tame : (endpoints : Option T.Endpoints) → Tamed (telemetry C endpoints)
  unfolding telemetry
  telemetry-Tame none = Keeps-pure none
  telemetry-Tame (some endpoints) =
      Keeps-if (not (C.is_empty endpoints)) _ _
        (λ _. Keeps-bind _ _ (consult-Tame authority Panic (C.new_worker 16)) (λ w. Keeps-pure _))
        (λ _. Keeps-pure none)

  spawn_worker-Tame : (worker : Option T.Worker) → Tamed (spawn_worker C worker)
  unfolding spawn_worker
  spawn_worker-Tame none = Keeps-pure tt
  spawn_worker-Tame (some worker) = emit-Tame authority Panic (telemetry_worker worker) refl

  create_directory-Tame :
      (kind : BackendType) (chain_id : String) → Tamed (create_directory C kind chain_id)
  unfolding create_directory
  create_directory-Tame key_value chain_id = Keeps-pure tt
  create_directory-Tame sql chain_id = emit-Tame authority Panic (sql_directory chain_id) refl

  opened-Tame :
      (o : Outcome (FrontierBackend T.parts.Kv T.parts.Sql) E)
      → (o ≡ Outcome.panicked → Panic)
      → Tamed (opened C o)
  unfolding opened
  opened-Tame (Outcome.returned b) p = Keeps-pure b
  opened-Tame (Outcome.failed e) p = Keeps-fail e tt
  opened-Tame Outcome.panicked p = Keeps-panic (p refl)

  pub new_partial-Tame :
      (config : Configuration T) (eth_config : EthConfiguration)
      → ((client : T.parts.Client) (overrides : T.parts.Overrides)
          → open_frontier_backend C.files eth_config config.chain_id client config.database
              overrides
            ≡ Outcome.panicked
          → Panic)
      → Tamed (new_partial C config eth_config)
  unfolding new_partial
  new_partial-Tame config eth_config may =
      Keeps-bind _ _ (telemetry-Tame config.telemetry_endpoints) λ watched.
        Keeps-bind _ _ (attempt-Tame authority Panic _ _ refl) λ full.
          Keeps-bind _ _ (spawn_worker-Tame _) λ _.
            Keeps-bind _ _ (emit-Tame authority Panic _ refl) λ _.
              Keeps-bind _ _ (Keeps-bind _ _ (emit-Tame authority Panic _ refl) λ _. Keeps-pure _)
                λ queue.
                  Keeps-bind _ _ (create_directory-Tame _ _)
                    λ _. Keeps-bind _ _ (opened-Tame _ (may full.0 _)) λ database. Keeps-pure _

module _ {T : Types} {E X R : Type 0} (C : StartCrates T E X R) (config : Configuration T)
    (Panic : Type 0) where
  abbrev Served : {A : Type 0} → Exec (Effect T) E A → Type 0
  Served m = Tame config.is_authority Panic m

  pub start_offchain_workers-Tame :
      (params : PartialComponents T) (net : NetworkParts T)
      → Served (start_offchain_workers C config params net)
  unfolding start_offchain_workers
  start_offchain_workers-Tame params net =
      Keeps-if config.offchain_worker_enabled _ _ (λ _. emit-Tame config.is_authority Panic _ refl)
        (λ _. Keeps-pure tt)

  report-Tame :
      (watched : Option T.Telemetry) (hwbench : T.HwBench) → Served (report C watched hwbench)
  report-Tame none hwbench = Keeps-pure tt
  report-Tame (some t) hwbench = emit-Tame config.is_authority Panic _ refl

  pub check_hwbench-Tame :
      (hwbench : Option T.HwBench) (watched : Option T.Telemetry)
      → Served (check_hwbench C hwbench config.is_authority watched)
  unfolding check_hwbench
  check_hwbench-Tame none watched = Keeps-pure tt
  check_hwbench-Tame (some hwbench) watched =
      Keeps-bind _ _ (emit-Tame config.is_authority Panic _ refl) λ _.
        Keeps-bind _ _
          (Keeps-if (not (C.check_hardware hwbench) && config.is_authority) _ _
            (λ weak. emit-Tame config.is_authority Panic _ (ground (arith, weak)))
            (λ _. Keeps-pure tt))
          λ _. report-Tame watched hwbench

  pub emit_all-Tame : (tasks : List (Task T.parts)) → Served (emit_all C (map frontier_task tasks))
  unfolding emit_all
  emit_all-Tame [] = Keeps-pure tt
  emit_all-Tame (t ∷ tasks) =
      Keeps-bind _ _ (emit-Tame config.is_authority Panic (frontier_task t) refl)
        λ _. emit_all-Tame tasks

  start_validator-Tame_by :
      (b : Bool) (params : PartialComponents T) (para_id : ℕ) (relay : T.RelayInterface)
      (key : Option T.CollatorKey) (overseer : T.Overseer) (net : NetworkParts T)
      → b ≡ config.is_authority
      → (b ≡ true → key ≡ none → Panic)
      → Served (start_validator C config params para_id relay key overseer net b)
  unfolding start_validator
  start_validator-Tame_by false params para_id relay key overseer net e may = Keeps-pure tt
  start_validator-Tame_by true params para_id relay key overseer net e may =
      Keeps-bind _ _ (Keeps-expect key (may refl))
        λ k. emit-Tame config.is_authority Panic _ (sym e)

  pub start_validator-Tame :
      (params : PartialComponents T) (para_id : ℕ) (relay : T.RelayInterface)
      (key : Option T.CollatorKey) (overseer : T.Overseer) (net : NetworkParts T)
      → (config.is_authority ≡ true → key ≡ none → Panic)
      → Served (start_validator C config params para_id relay key overseer net config.is_authority)
  start_validator-Tame params para_id relay key overseer net may =
      start_validator-Tame_by config.is_authority params para_id relay key overseer net refl may
