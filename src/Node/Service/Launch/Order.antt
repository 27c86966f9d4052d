-- ===== src/Node/Service/Launch/Order.antt =====
-- The order of the effects of a start, and how it may end.
use qnch_chain.Prelude.{
  ℕ, ◌≡◌, ◌≢◌, refl, ap, ◌∙◌, subst, Bool, true, Option, none, List, [], ◌∷◌, ◌++◌, Result, ok, err,
  map_err, arith,
}
use qnch_chain.Prelude.Exec.{Stop, failed, panicked, pure, emit, ◌>>=◌, ◌>>◌}
use qnch_chain.Prelude.Exec.Rules.{Leads, Leads-bind, Leads-bind_attempt}
use qnch_chain.Node.Frontier.{BackendType, EthConfiguration, FrontierPartialComponents, key_value}
use qnch_chain.Node.Frontier.Database.{Outcome, open_frontier_backend}
use qnch_chain.Node.Frontier.Tasks.{Fits, open_frontier_backend-Fits, wants_sql}
use qnch_chain.Node.Service.{Types, Configuration, PartialComponents, Effect, start_network}
use qnch_chain.Node.Service.Start.{NetworkParts, StartCrates}
use qnch_chain.Node.Service.Launch.{serve, start_parachain_node, frontier_tasks}
use qnch_chain.Node.Service.Launch.Steps.{
  Allowed, MayStop, emit-Tame, attempt-Tame, consult-Tame, new_partial-Tame,
  start_offchain_workers-Tame, check_hwbench-Tame, emit_all-Tame, start_validator-Tame,
}

map_err-ok : {A E F : Type 0} (f : E → F) (r : Result A E) (a : A) → map_err f r ≡ ok a → r ≡ ok a
map_err-ok f (ok b) a h = ground arith
map_err-ok f (err e) a h = cc

no_sql : (t : BackendType) → t ≡ key_value → wants_sql t ≡ true → ⊥
no_sql t kv w = ground arith

module _ {T : Types} {E : Type 0} (authority : Bool) (Panic : Type 0) (A : Type 0) where
  -- How a start may end, and after which effects.
  abbrev pub Ends : Result A (Stop E) × List (Effect T) → Type 0
  Ends (ok a, s) =
      (before : List (Effect T)) × (starter : T.NetworkStarter) × (s
        ≡ before ++ (start_network starter ∷ []))
      × Allowed authority before
  Ends (err e, s) = Allowed authority s × MayStop Panic e

  stops :
      (e : Stop E) (s : List (Effect T)) → Allowed authority s → MayStop Panic e → Ends (err e, s)
  stops e s a m = (a, m)

  launch-Ends :
      (starter : T.NetworkStarter) (a : A)
      → Leads (Allowed authority) Ends (emit (start_network starter) >> pure a)
  unfolding ◌>>=◌ emit pure
  launch-Ends starter a = record { to = λ s h. (s, starter, refl, h) }

module _ {T : Types} {E X R : Type 0} (C : StartCrates T E X R) (Panic : Type 0) where
  serve-Ends :
      (config : Configuration T) (eth_config : EthConfiguration) (params : PartialComponents T)
      (frontier : FrontierPartialComponents T.parts) (para_id : ℕ) (hwbench : Option T.HwBench)
      (relay : T.RelayInterface) (key : Option T.CollatorKey) (slot_duration : ℕ)
      (net : NetworkParts T)
      → (config.is_authority ≡ true → key ≡ none → Panic)
      → Leads
          (Allowed config.is_authority)
          (Ends config.is_authority Panic T.parts.Client)
          (serve C config eth_config params frontier para_id hwbench relay key slot_duration net)
  unfolding serve
  serve-Ends config eth_config params frontier para_id hwbench relay key slot_duration net may =
      let a = config.is_authority in
      let stop = stops a Panic T.parts.Client in
      Leads-bind _ _ (start_offchain_workers-Tame C config Panic params net) stop λ _.
        Leads-bind _ _ (emit-Tame a Panic _ refl) stop λ _.
          Leads-bind _ _ (attempt-Tame a Panic _ _ refl) stop λ _.
            Leads-bind _ _ (check_hwbench-Tame C config Panic hwbench params.telemetry) stop λ _.
              Leads-bind _ _ (consult-Tame a Panic _) stop λ overseer.
                Leads-bind _ _ (attempt-Tame a Panic _ _ refl) stop λ _.
                  Leads-bind _ _
                    (emit_all-Tame C config Panic (frontier_tasks C params frontier net)) stop
                    λ _.
                      Leads-bind _ _
                        (start_validator-Tame C config Panic params para_id relay key overseer net
                          may)
                        stop λ _. launch-Ends a Panic T.parts.Client net.starter params.client

  launched-Ends :
      (parachain_config : Configuration T) (polkadot_config : T.RelayConfig)
      (collator_options : T.CollatorOptions) (eth_config : EthConfiguration) (para_id : ℕ)
      (hwbench : Option T.HwBench)
      → let config = C.prepare_node_config parachain_config in
        ((client : T.parts.Client) (overrides : T.parts.Overrides)
          → open_frontier_backend C.partial.files eth_config config.chain_id client config.database
              overrides
            ≡ Outcome.panicked
          → Panic)
        → ((watched : Option T.Worker) (s : List (Effect T)) (relay : T.RelayInterface)
            → C.build_relay_chain_interface polkadot_config
                (C.prepare_node_config parachain_config)
                watched
                collator_options
                hwbench
                s
              ≡ ok (relay, none)
            → (C.prepare_node_config parachain_config).is_authority ≡ true
            → Panic)
        → let a = (C.prepare_node_config parachain_config).is_authority in
          Leads (Allowed a) (Ends a Panic T.parts.Client) (
            start_parachain_node C parachain_config polkadot_config collator_options eth_config
              para_id hwbench)
  unfolding start_parachain_node
  launched-Ends parachain_config polkadot_config collator_options eth_config para_id hwbench
        database key =
      let config = C.prepare_node_config parachain_config in
      let a = config.is_authority in
      let stop = stops a Panic T.parts.Client in
      Leads-bind _ _ (new_partial-Tame C.partial a Panic config eth_config database) stop λ params.
        Leads-bind _ _ (consult-Tame a Panic _) stop λ frontier.
          Leads-bind_attempt _ _ _ (attempt-Tame a Panic _ _ refl) stop λ relay s answered.
            Leads-bind _ _ (consult-Tame a Panic _) stop λ slot_duration.
              Leads-bind _ _ (attempt-Tame a Panic _ _ refl) stop λ net.
                serve-Ends config eth_config params frontier para_id hwbench relay.0 relay.1
                  slot_duration net
                  (λ authority missing.
                    key params.telemetry_worker s relay.0
                      (map_err-ok C.application _ relay answered
                        ∙ ap (λ k. ok (relay.0, k)) missing)
                      authority)

module _ {T : Types} {E X R : Type 0} (C : StartCrates T E X R) where
  -- Whatever the other crates answer, and when, a start ends in one of two ways. Either it returns the
  -- client: then starting the network is the last effect, and nothing before it starts the network. Or
  -- it fails or panics, and nothing has started the network. In both cases the consensus is started, and
  -- a warning about weak hardware is given, only if the node is an authority.
  pub start_parachain_node-Ends :
      (parachain_config : Configuration T) (polkadot_config : T.RelayConfig)
      (collator_options : T.CollatorOptions) (eth_config : EthConfiguration) (para_id : ℕ)
      (hwbench : Option T.HwBench)
      → Ends (C.prepare_node_config parachain_config).is_authority (Unit {0}) T.parts.Client (
          start_parachain_node C parachain_config polkadot_config collator_options eth_config
            para_id hwbench [])
  start_parachain_node-Ends parachain_config polkadot_config collator_options eth_config para_id
        hwbench =
      (launched-Ends C (Unit {0}) parachain_config polkadot_config collator_options eth_config
          para_id hwbench (λ client overrides p. tt) (λ watched s relay p a. tt)).to
        [] tt

  no_panic :
      {A : Type 0} (a : Bool) (r : Result A (Stop E) × List (Effect T))
      → Ends a ⊥ A r
      → r.0 ≢ err panicked
  no_panic a (ok x, s) h e = cc
  no_panic a (err (failed x), s) h e = ground arith
  no_panic a (err panicked, s) h e = h.1

  -- A start never panics, whatever else fails, if the options ask for the key-value database and the
  -- relay chain interface of an authority always comes with a collator key.
  pub start_parachain_node-ne-panicked :
      (parachain_config : Configuration T) (polkadot_config : T.RelayConfig)
      (collator_options : T.CollatorOptions) (eth_config : EthConfiguration) (para_id : ℕ)
      (hwbench : Option T.HwBench)
      → eth_config.frontier_backend_type ≡ key_value
      → let config = C.prepare_node_config parachain_config in
        (config.is_authority ≡ true
          → (watched : Option T.Worker) (s : List (Effect T)) (relay : T.RelayInterface)
          → C.build_relay_chain_interface polkadot_config config watched collator_options hwbench s
            ≢ ok (relay, none))
        → (start_parachain_node C parachain_config polkadot_config collator_options eth_config
            para_id hwbench []).0
          ≢ err panicked
  start_parachain_node-ne-panicked parachain_config polkadot_config collator_options eth_config
        para_id hwbench kv key =
      no_panic (C.prepare_node_config parachain_config).is_authority _ (
        (launched-Ends C ⊥ parachain_config polkadot_config collator_options eth_config para_id
            hwbench
            (λ client overrides p. no_sql eth_config.frontier_backend_type kv (
              subst (Fits C.partial.files eth_config _ client _) p
                (open_frontier_backend-Fits C.partial.files eth_config _ client _ overrides)))
            (λ watched s relay p a. key a watched s relay p)).to
          [] tt)
