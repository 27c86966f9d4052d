-- ===== src/Node/Command/Run/Kinds.antt =====
-- To which subcommand a job belongs, and what may precede it.
use qnch_chain.Prelude.{◌≡◌, refl, Bool, true, false, List, [], ◌∷◌, ◌++◌, map, All}
use qnch_chain.Node.Service.{Effect}
use qnch_chain.Node.Command.Subcommands.{
  CommandTypes, Subcommand, Job, Action, pallet, block, storage, machine, other_benchmark,
  build_spec, check_block, export_blocks, export_state, import_blocks, revert, purge_chain,
  export_genesis_head, export_genesis_wasm, benchmark, frontier_db, run_build_spec, run_check_block,
  run_export_blocks, run_export_state, run_import_blocks, run_revert, run_purge_chain,
  run_export_genesis_head, run_export_genesis_wasm, run_pallet, run_block, run_storage, run_machine,
  run_frontier_db, runner_created, node_effect, job, directory_created, hwbench_gathered,
  account_logged, collating_logged, run_until_exit,
}

-- The subcommand that a job belongs to.
abbrev pub command_of : {K : CommandTypes} → Job K → Subcommand K
command_of (run_build_spec cmd s n) = build_spec cmd
command_of (run_check_block cmd c q) = check_block cmd
command_of (run_export_blocks cmd c d) = export_blocks cmd
command_of (run_export_state cmd c s) = export_state cmd
command_of (run_import_blocks cmd c q) = import_blocks cmd
command_of (run_revert cmd c b) = revert cmd
command_of (run_purge_chain cmd g r) = purge_chain cmd
command_of (run_export_genesis_head cmd c) = export_genesis_head cmd
command_of (run_export_genesis_wasm cmd s) = export_genesis_wasm cmd
command_of (run_pallet cmd s) = benchmark (pallet cmd)
command_of (run_block cmd c) = benchmark (block cmd)
command_of (run_storage cmd g c d s) = benchmark (storage cmd)
command_of (run_machine cmd g) = benchmark (machine cmd)
command_of (run_frontier_db cmd c k) = frontier_db cmd

-- Whether a subcommand works on the parts of a node.
abbrev pub needs_parts : {K : CommandTypes} → Subcommand K → Bool
needs_parts (build_spec cmd) = false
needs_parts (check_block cmd) = true
needs_parts (export_blocks cmd) = true
needs_parts (export_state cmd) = true
needs_parts (import_blocks cmd) = true
needs_parts (revert cmd) = true
needs_parts (purge_chain cmd) = false
needs_parts (export_genesis_head cmd) = true
needs_parts (export_genesis_wasm cmd) = false
needs_parts (benchmark (pallet cmd)) = false
needs_parts (benchmark (block cmd)) = true
needs_parts (benchmark (storage cmd)) = true
needs_parts (benchmark (machine cmd)) = false
needs_parts (benchmark (other_benchmark cmd)) = false
needs_parts (frontier_db cmd) = true

-- What may precede the job of a subcommand.
abbrev pub prepares : {K : CommandTypes} → Bool → Action K → Bool
prepares parts (runner_created r) = true
prepares parts (node_effect v) = parts
prepares parts (job j) = false
prepares parts (directory_created p) = false
prepares parts (hwbench_gathered p) = false
prepares parts (account_logged a) = false
prepares parts (collating_logged t) = false
prepares parts run_until_exit = false

abbrev pub Prepares : {K : CommandTypes} → Bool → List (Action K) → Type 0
Prepares parts s = All (λ a. prepares parts a ≡ true) s

pub All-append : {V : Type 0} (P : V → Type 0) (s t : List V) → All P s → All P t → All P (s ++ t)
All-append P [] t h k = k
All-append P (v ∷ s) t h k = (h.0, All-append P s t h.1 k)

pub nodes-Prepares :
    (K : CommandTypes) (vs : List (Effect K.node)) → Prepares {K = K} true (map node_effect vs)
nodes-Prepares K [] = tt
nodes-Prepares K (v ∷ vs) = (refl, nodes-Prepares K vs)
