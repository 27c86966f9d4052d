-- ===== src/Runtime/Apis/Tooling.antt =====
-- The runtime APIs of parachain/runtime/src/apis.rs for tools and nodes: the version, benchmarks, upgrades on trial, metadata,
-- keys, genesis presets and collators.
use Prim.Native.String.{String}
use qnch_chain.Prelude.{ℕ, Bool, Option, none, some, List, [], ◌∷◌, Result, ok, err}

-- `dispatch_benchmark`, from the batches that `add_benchmarks!` adds
abbrev pub api_dispatch_benchmark : {Batch E : Type 0} → E → List Batch → Result (List Batch) E
api_dispatch_benchmark not_found batches = elim batches [
  | [] ↦ err not_found
  | b ∷ bs ↦ ok (b ∷ bs)
]

-- What is only there for some features, and `unwrap`, with `none` for its panic
abbrev unwrap : {A E S : Type 0} → Result A E × S → Option (A × S)
unwrap (ok a, s) = some (a, s)
unwrap (err e, s) = none

-- The methods of `Executive` for the feature `try-runtime`
pub record TryExecutive (S Block Checks Select Weight E : Type 0) : Type 0 where
  pub try_runtime_upgrade : Checks → S → Result Weight E × S
  pub try_execute_block : Block → Bool → Bool → Select → S → Result Weight E × S

module _ {S Block Checks Select Weight E : Type 0} (X : TryExecutive S Block Checks Select Weight E)
    (max_block : Weight) where
  -- `TryRuntime::on_runtime_upgrade`
  abbrev pub api_on_runtime_upgrade : Checks → S → Option ((Weight × Weight) × S)
  api_on_runtime_upgrade checks s = elim (unwrap (X.try_runtime_upgrade checks s)) [
    | none ↦ none
    | some (weight, t) ↦ some ((weight, max_block), t)
  ]

  -- `TryRuntime::execute_block`
  abbrev pub api_try_execute_block : Block → Bool → Bool → Select → S → Option (Weight × S)
  api_try_execute_block block state_root_check signature_check select s =
      unwrap (X.try_execute_block block state_root_check signature_check select s)

-- Metadata, session keys, the genesis builder and the queries of collators, of which the runtime's
-- macros and other crates make the answers. A preset is made by `preset_for`.
pub record Builders (S Bytes Keys Metadata Name Hash Slot Header Info Outcome : Type 0)
    : Type 0 where
  pub metadata : Metadata
  pub metadata_at_version : ℕ → Option Metadata
  pub metadata_versions : List ℕ
  pub generate : Option Bytes → S → Bytes × S
  pub decode_into_raw_public_keys : Bytes → Option (List Keys)
  pub build_state : Bytes → S → Outcome × S
  pub get_preset : Option Name → (preset_for : Name → Option Bytes) → Option Bytes
  pub can_build_upon : Hash → Slot → S → Bool
  pub collect_collation_info : Header → S → Info

module _ {S Bytes Keys Metadata Name Hash Slot Header Info Outcome : Type 0}
    (B : Builders S Bytes Keys Metadata Name Hash Slot Header Info Outcome) where
  -- `Metadata`: `metadata`, `metadata_at_version` and `metadata_versions`
  abbrev pub api_metadata : Metadata
  api_metadata = B.metadata

  abbrev pub api_metadata_at_version : ℕ → Option Metadata
  api_metadata_at_version version = B.metadata_at_version version

  abbrev pub api_metadata_versions : List ℕ
  api_metadata_versions = B.metadata_versions

  -- `SessionKeys`: `generate_session_keys` and `decode_session_keys`
  abbrev pub api_generate_session_keys : Option Bytes → S → Bytes × S
  api_generate_session_keys seed = B.generate seed

  abbrev pub api_decode_session_keys : Bytes → Option (List Keys)
  api_decode_session_keys encoded = B.decode_into_raw_public_keys encoded

  -- `GenesisBuilder`: `build_state`, `get_preset` and `preset_names`
  abbrev pub api_build_state : Bytes → S → Outcome × S
  api_build_state config = B.build_state config

  abbrev pub api_get_preset : Option Name → Option Bytes
  api_get_preset id = B.get_preset id (λ name. none)

  abbrev pub api_preset_names : List Name
  api_preset_names = []

  -- `AuraUnincludedSegmentApi::can_build_upon`
  abbrev pub api_can_build_upon : Hash → Slot → S → Bool
  api_can_build_upon included_hash slot = B.can_build_upon included_hash slot

  -- `CollectCollationInfo::collect_collation_info`
  abbrev pub api_collect_collation_info : Header → S → Info
  api_collect_collation_info header = B.collect_collation_info header

-- `RuntimeVersion`, with the versions of the APIs that the macro lists
pub record RuntimeVersion (Apis : Type 0) : Type 0 where
  pub spec_name : String
  pub impl_name : String
  pub authoring_version : ℕ
  pub spec_version : ℕ
  pub impl_version : ℕ
  pub apis : Apis
  pub transaction_version : ℕ
  pub state_version : ℕ

-- `VERSION` in lib.rs
abbrev pub version_of : {Apis : Type 0} → Apis → RuntimeVersion Apis
version_of apis = record {
  spec_name = "parachain-template-runtime";
  impl_name = "parachain-template-runtime";
  authoring_version = 1;
  spec_version = 1;
  impl_version = 0;
  apis = apis;
  transaction_version = 1;
  state_version = 1;
}

-- `Core::version`
abbrev pub api_version : {Apis : Type 0} → Apis → RuntimeVersion Apis
api_version apis = version_of apis
