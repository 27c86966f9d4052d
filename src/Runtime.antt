-- ===== src/Runtime.antt =====
-- The runtime crate (parachain/runtime/src), by the part of it that each child module models.
pub mod Ethereum
pub mod SelfContained
pub mod DeploymentControl
pub mod Gates
pub mod Lifecycle
pub mod Units
pub mod Fees
pub mod Limits
pub mod Precompiles
pub mod Author
pub mod Locations
pub mod Origins
pub mod Barrier
pub mod Router
pub mod Assets
pub mod Apis
pub mod UpdateOrigin
pub mod Config
pub mod XcmConfig
pub mod PalletXcm
pub mod Extensions
pub mod Extrinsics
pub mod Inbound
pub mod Sessions
pub mod Time
pub mod Conversion
pub mod EthereumRpc
pub mod Pending
pub mod Pallets
mod Tests
pub mod Examples
mod RpcExamples
mod ConfigExamples
mod EvmExamples
mod OriginExamples
mod BarrierExamples
mod XcmExamples
mod PalletXcmExamples
mod ExtensionExamples
mod ExtrinsicExamples
mod InboundExamples
mod SessionExamples
mod TimeExamples
