-- ===== src/Node/Command/Relay.antt =====
-- Which chain a node joins, and where it keeps the data of the relay chain.
use Prim.Native.String.{String}
use text.Mathlib.Text.{◌==◌ as str_eq}
use qnch_chain.Prelude.{
  ◌≡◌, ◌≢◌, ◌⊎◌, refl, Bool, Option, none, some, List, Result, ok, if◌then◌else◌, arith, inl, inr,
  Result-cases, subst,
}
use qnch_chain.Node.ChainSpec.{ChainSpec, Keys, development_config, local_testnet_config}
use qnch_chain.Node.Command.{
  boxed, LoadedSpec, try_get, load_spec, RelayRun, new, base_path, chain_id,
}

-- The relay chain that a specification names.
abbrev relay_of : {Code A K Json : Type 0} → LoadedSpec Code A K Json → Option String
relay_of spec = elim (try_get spec) [ none ↦ none | some e ↦ some e.relay_chain ]

module _ {Pair Public Code A K Json PathBuf E : Type 0} (C : Keys Pair Public Code A K)
    (from_json_file : String → Result (LoadedSpec Code A K Json) E)
    (join : PathBuf → String → PathBuf) (parse_from : List String → RelayRun PathBuf E) where
  development-relay :
      (spec : ChainSpec Code A K)
      → development_config C ≡ some spec
      → spec.extensions.relay_chain ≡ "paseo-local"
  unfolding development_config
  development-relay spec h = ground arith

  local-relay :
      (spec : ChainSpec Code A K)
      → local_testnet_config C ≡ some spec
      → spec.extensions.relay_chain ≡ "paseo-local"
  unfolding local_testnet_config
  local-relay spec h = ground arith

  boxed-relay :
      (o : Option (ChainSpec Code A K)) (spec : LoadedSpec Code A K Json)
      → ((s : ChainSpec Code A K) → o ≡ some s → s.extensions.relay_chain ≡ "paseo-local")
      → boxed C from_json_file o ≡ some (ok spec)
      → relay_of spec ≡ some "paseo-local"
  unfolding try_get
  boxed-relay none spec all h = ground arith
  boxed-relay (some s) spec all h = ground (arith, all s refl)

  moved :
      {id name : String} {spec : LoadedSpec Code A K Json}
      → id ≡ name
      → load_spec C from_json_file id ≡ some (ok spec)
      → load_spec C from_json_file name ≡ some (ok spec)
  moved {spec} e h = subst (λ i. load_spec C from_json_file i ≡ some (ok spec)) e h

  load_spec-relay :
      (id : String) (spec : LoadedSpec Code A K Json)
      → (id ≡ "dev") ⊎ ((id ≡ "local") ⊎ ((id ≡ "template-rococo") ⊎ (id ≡ "")))
      → load_spec C from_json_file id ≡ some (ok spec)
      → relay_of spec ≡ some "paseo-local"
  unfolding load_spec
  load_spec-relay id spec (inl e) h =
      boxed-relay (development_config C) spec development-relay (moved e h)
  load_spec-relay id spec (inr (inl e)) h =
      boxed-relay (local_testnet_config C) spec local-relay (moved e h)
  load_spec-relay id spec (inr (inr (inl e))) h =
      boxed-relay (local_testnet_config C) spec local-relay (moved e h)
  load_spec-relay id spec (inr (inr (inr e))) h =
      boxed-relay (local_testnet_config C) spec local-relay (moved e h)

  -- A built-in specification, which the names `dev`, `local`, `template-rococo` and the empty name
  -- load, names the relay chain paseo-local: that is the chain that the node joins if the relay
  -- chain arguments name none, and otherwise it joins the one that they name.
  load_spec-chain_id :
      (id given : String) (spec : LoadedSpec Code A K Json) (para_base_path : PathBuf)
      (args : List String) (is_dev : Bool)
      → (id ≡ "dev") ⊎ ((id ≡ "local") ⊎ ((id ≡ "template-rococo") ⊎ (id ≡ "")))
      → load_spec C from_json_file id ≡ some (ok spec)
      → (parse_from args).chain_id is_dev ≡ ok given
      → chain_id (new join parse_from spec para_base_path args) is_dev
        ≡ ok (if str_eq given "" then "paseo-local" else given)
  unfolding load_spec chain_id new
  load_spec-chain_id id given spec para_base_path args is_dev which loaded named =
      ground (arith, named, load_spec-relay id spec which loaded)

  -- The relay chain always has a base path, unless the arguments for it are wrong: that of the
  -- arguments, or else the directory `polkadot` in the base path of the parachain.
  new-base_path :
      (spec : LoadedSpec Code A K Json) (para_base_path : PathBuf) (args : List String)
      → let cli = new join parse_from spec para_base_path args in
        let asked = (parse_from args).shared_base_path in
        ((asked ≡ ok none) × (base_path cli ≡ ok (some (join para_base_path "polkadot"))))
        ⊎ ((asked ≢ ok none) × (base_path cli ≡ asked))
  unfolding base_path new
  new-base_path spec para_base_path args = elim (Result-cases (parse_from args).shared_base_path) [
    | inr (e, h) ↦ inr (ground arith, ground arith)
    | inl (none, h) ↦ inl (h, ground arith)
    | inl (some p, h) ↦ inr (ground arith, ground arith)
  ]
