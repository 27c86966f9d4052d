-- ===== src/Node/Frontier/Tasks.antt =====
-- The tasks that the Ethereum layer spawns.
use Prim.Native.String.{String}
use qnch_chain.Prelude.{
  ℕ, ◌≡◌, ◌⊎◌, refl, Bool, true, false, Option, none, some, List, [], ◌∷◌, ◌++◌, map, append_assoc,
  err, All, arith, inl, inr, Result-cases,
}
use qnch_chain.Node.Frontier.{
  Parts, BackendType, key_value, sql, EthConfiguration, FrontierBackend, key_value_backend,
  sql_backend, Task, spawn_frontier_tasks,
}
use qnch_chain.Node.Frontier.Database.{
  Outcome, returned, failed, panicked, Files, open_frontier_backend,
}

abbrev pub is_sql : {Kv Sql : Type 0} → FrontierBackend Kv Sql → Bool
is_sql (key_value_backend b) = false
is_sql (sql_backend b) = true

abbrev pub wants_sql : BackendType → Bool
wants_sql key_value = false
wants_sql sql = true

type_cases : (t : BackendType) → (t ≡ key_value) ⊎ (t ≡ sql)
type_cases key_value = inl refl
type_cases sql = inr refl

-- The names of the tasks, and whether each may block, in the order of their start.
abbrev pub expected : {P : Type 0} → Bool → Option P → List (String × Bool)
expected blocking none =
    ("frontier-mapping-sync-worker", blocking) ∷ ("frontier-fee-history", false) ∷ []
expected blocking (some pool) =
    ("frontier-mapping-sync-worker", blocking)
    ∷ ("frontier-filter-pool", false)
    ∷ ("frontier-fee-history", false)
    ∷ []

module _ {T : Parts} (client : T.Client) (backend : T.Backend) (overrides : T.Overrides)
    (sync : T.Sync) (sinks : T.Sinks) where
  -- What the function spawns on a task manager comes after the tasks that are there. All of it is
  -- essential and in the group of Frontier: the worker that synchronizes the mapping, which may block
  -- exactly if the database is SQL, the task for the filter pool, if there is one, and the one for
  -- the fee history, in this order.
  spawn_frontier_tasks_lem :
      (b : FrontierBackend T.Kv T.Sql) (pool : Option T.FilterPool) (cache : T.FeeHistoryCache)
      (limit : ℕ) (tasks : List (Task T))
      → let spawned = λ (before : List (Task T)).
        spawn_frontier_tasks client backend b pool overrides cache limit sync sinks before in
        (spawned tasks ≡ tasks ++ spawned [])
        × All (λ t. (t.essential ≡ true) × (t.group ≡ some "frontier")) (spawned [])
        × (map (λ t. (t.name, t.blocking)) (spawned []) ≡ expected (is_sql b) pool)
  unfolding spawn_frontier_tasks
  spawn_frontier_tasks_lem (key_value_backend b) none cache limit tasks =
      (append_assoc tasks _ _, ((refl, refl), ((refl, refl), tt)), refl)
  spawn_frontier_tasks_lem (key_value_backend b) (some p) cache limit tasks = (
    rw (append_assoc, append_assoc) refl,
    ((refl, refl), ((refl, refl), ((refl, refl), tt))),
    refl,
  )
  spawn_frontier_tasks_lem (sql_backend b) none cache limit tasks =
      (append_assoc tasks _ _, ((refl, refl), ((refl, refl), tt)), refl)
  spawn_frontier_tasks_lem (sql_backend b) (some p) cache limit tasks = (
    rw (append_assoc, append_assoc) refl,
    ((refl, refl), ((refl, refl), ((refl, refl), tt))),
    refl,
  )

module _ {T : Parts} {Source E X : Type 0} (S : Files T Source E X) where
  -- What the result of opening the database says of the options.
  abbrev pub Fits :
      EthConfiguration
      → String
      → T.Client
      → Source
      → Outcome (FrontierBackend T.Kv T.Sql) E
      → Type 0
  Fits config chain_id client database (returned b) =
      is_sql b ≡ wants_sql config.frontier_backend_type
  Fits config chain_id client database (failed e) =
      (wants_sql config.frontier_backend_type ≡ false)
      × (S.open_kv client database (S.config_dir chain_id) ≡ err e)
  Fits config chain_id client database panicked = wants_sql config.frontier_backend_type ≡ true

  -- The database that is opened is SQL exactly if the options ask for SQL. If opening it fails, this
  -- is an error of the key-value database, which is passed on, or a panic, for a SQL database only.
  pub open_frontier_backend-Fits :
      (config : EthConfiguration) (chain_id : String) (client : T.Client) (database : Source)
      (overrides : T.Overrides)
      → Fits config chain_id client database
          (open_frontier_backend S config chain_id client database overrides)
  unfolding open_frontier_backend
  open_frontier_backend-Fits config chain_id client database overrides =
      elim (type_cases config.frontier_backend_type) [
        | inl k ↦ elim (Result-cases (S.open_kv client database (S.config_dir chain_id))) [
          | inl (b, o) ↦ ground arith
          | inr (e, o) ↦ ground arith
        ]
        | inr q ↦ ground arith
      ]
