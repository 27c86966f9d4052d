-- ===== src/Lib.antt =====
-- A model of qnch-chain, a parachain with an EVM in which only authorized accounts may deploy
-- contracts, and the theorems on it.
--
-- The program has three crates. The pallet `evm-deployment-control` keeps a whitelist of accounts,
-- which root changes by two calls. The runtime composes it with the pallets of Substrate, Cumulus and
-- Frontier: when it validates an Ethereum transaction that creates a contract, it maps the sender's
-- address to an account and asks the pallet whether this account is authorized. It also fixes fees,
-- limits, precompiles and the runtime APIs. The node builds the chain specifications and runs the
-- chain.
--
-- Files, with the code they model:
-- - Prelude and its children: Booleans, numbers, lists, results and the monads for do blocks. No code.
-- - Frame: the interface of frame_support and frame_system that the pallet uses, namely origins, the
--   storage map and the deposit of events, with the laws that are documented of them. Frame/Sample is
--   an instance, by lists.
-- - Weights: the interface of sp_weights. Weights/Database: parachain/runtime/src/weights.
-- - Pallet: parachain/pallets/evm-deployment-control/src/lib.rs. A call is an action on the pallet's
--   `State`, which keeps what was written before an error, so that a theorem can say that nothing
--   was. Pallet/Whitelist and Pallet/History compare it with a set of accounts, Pallet/Genesis is
--   about the genesis build, Pallet/Weights about src/weights.rs and Pallet/Benchmarks
--   about src/benchmarking.rs of the pallet.
-- - Runtime/Ethereum: the types and methods of pallet_ethereum that the runtime uses, as parameters.
-- - Runtime/SelfContained: `impl SelfContainedCall for RuntimeCall` in parachain/runtime/src/lib.rs,
--   with `check_deployment` for the part behind the standard validation. Runtime/DeploymentControl:
--   parachain/runtime/src/deployment_control.rs. Runtime/Gates: the theorems on both.
-- - Runtime/Lifecycle: the way of an Ethereum transaction through a chain with this runtime, from its
--   validation by the pool to its execution in a block, with calls of the pallet in between, as a step
--   relation. The pool and the builder of blocks are not part of the repository. The runtime asks for no
--   validation of what a block contains, so the steps let the author of a block include a transaction that
--   was never in the pool, and let root write raw storage. Theorems on what the whitelist is worth are
--   about ordinary runs, without these two, and say so. Its children are about what the steps do to the
--   whitelist, who creates contracts, what a revocation is worth, what the author of a block can include,
--   who can get through, and the policy that the chain follows.
-- - Runtime/Units, Runtime/Fees, Runtime/Limits: the constants, the fee polynomial, the block weights
--   and the gas limit of parachain/runtime/src/lib.rs and configs/mod.rs.
-- - Runtime/Pallets: the pallets that `mod runtime` of lib.rs composes, with their indices.
-- - Runtime/Precompiles: parachain/runtime/src/precompiles.rs. Runtime/Author: `FindAuthorTruncated`
--   in configs/mod.rs. Runtime/Locations: the location filter in configs/xcm.rs;
--   Runtime/Origins and Runtime/Barrier: the conversion of XCM origins and the barrier there, whose
--   converters and rules are interfaces.
-- - Runtime/Router: the router of XCM messages in configs/xcm.rs. Runtime/UpdateOrigin: the origins that
--   may change the collators, in configs/mod.rs, and the messages that do. Runtime/Assets: the asset
--   transactor of xcm.rs and the asset of the delivery fees of configs/mod.rs. Runtime/Config: the numbers that configure the
--   pallets, in both files; its child Evm is the configuration of pallet_evm, Messages is about
--   the weights of XCM messages.
-- - Runtime/XcmConfig: `impl xcm_executor::Config for XcmConfig` in configs/xcm.rs, over an interface for
--   the executor; Incoming is about the assets that XCM messages bring. Runtime/PalletXcm: `LocalOriginToLocation` and the configuration of
--   pallet_xcm there; Local is about what the accounts of this chain may do with it.
-- - Runtime/Inbound: the way of messages of other chains to the executor, by the configurations of the
--   parachain system and the two queues in configs/mod.rs. Delivery has the deliveries and the service of
--   the queue as a step relation.
-- - Runtime/Sessions: the configurations of pallet_authorship and pallet_session in configs/mod.rs, with
--   their order in `mod runtime`; Kicks is about the collators that new sessions remove.
-- - Runtime/Time: the configurations of pallet_timestamp and pallet_aura in configs/mod.rs; Slots is about
--   how many blocks a slot has room for.
-- - Runtime/Extensions: `SignedExtra` in lib.rs, the checks of signed extrinsics; Fees and Replay are about
--   the balances and the nonces. Runtime/Extrinsics: `UncheckedExtrinsic` and `CheckedExtrinsic` in lib.rs,
--   over an interface for fp_self_contained; Deployers is about those that carry Ethereum transactions.
-- - Runtime/Apis: the APIs of apis.rs that pass a call on, and in its child Tooling those for tools.
-- - Runtime/Conversion, Runtime/EthereumRpc, Runtime/Pending: `TransactionConverter` in lib.rs, and
--   the APIs of parachain/runtime/src/apis.rs that do more than pass a call on.
-- - Node/ChainSpec: parachain/node/src/chain_spec.rs. Its children are about the balances and keys of
--   the genesis, the two specifications, who may deploy after genesis, and who deploys later.
-- - Node/Rpc: parachain/node/src/rpc/mod.rs and rpc/eth.rs, the servers of the node's RPC module.
--   `create_eth` is an action on the module, Node/Rpc/Names has the interface of the module, and Node/Rpc/Copies is the
--   clone of the dependencies.
-- - Node/Frontier: parachain/node/src/eth.rs, where a task manager is the list of its tasks;
--   Node/Frontier/Database: the database that `new_partial` in service.rs opens.
-- - Node/Service: parachain/node/src/service.rs. The functions are actions of Prelude/Exec, which write
--   down each call that spawns or starts something, and that creates a directory, in order, and end with a value, an error or a
--   panic. Partial is `new_partial`, Start has the steps of `start_parachain_node`, which Launch puts
--   together, Pending is about the inherents of a pending block, and Timing compares the times of the
--   consensus with the runtime's. The task manager is what was written down. A response of another crate may depend on all that happened before.
-- - Node/Command: `load_spec` in parachain/node/src/command.rs, and `RelayChainCli` in command.rs and
--   cli.rs; RelayConfig is the rest of the configuration of the relay chain node, and what both
--   command lines say of themselves. Node/Command/Subcommands has the data of cli.rs, and Node/Command/Run is `run`, with
--   files for the subcommands, for frontier-db and for a run that returns.
--   Code under `cfg(feature = "runtime-benchmarks")` is chosen by a Boolean.
-- - Tests, Examples: runs at concrete inputs.
--
-- Code of other crates (pallet_ethereum, pallet_evm, frame_system, sp_weights, sp_arithmetic, xcm, key
-- types, the SCALE codec) is a parameter, with laws only where the code relies on them. An account, an
-- address and a key are arbitrary types; a Boolean test on them comes from `Discrete`. A u64 or u128 is
-- a natural number, and where the source saturates or may overflow, the model writes it out. A panic is
-- `none`, or `panicked` where errors are values too. All loops run over lists and are structural, so
-- no definition needs fuel.
--
-- Not modelled: associated types of the configurations that name code of other crates, what the benchmark
-- macros generate, the parser of the command line, and the contracts.
pub mod Prelude
pub mod Frame
pub mod Weights
pub mod Pallet
pub mod Runtime
pub mod Node
