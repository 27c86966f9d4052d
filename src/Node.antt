-- ===== src/Node.antt =====
-- The node crate (parachain/node/src), by the part of it that each child module models.
pub mod ChainSpec
pub mod Rpc
pub mod Frontier
pub mod Service
pub mod Command
mod Tests
mod Examples
mod ServiceExamples
mod CommandExamples
