-- ===== src/Tests.antt =====
-- Small concrete inputs, with a checksum in place of SHA-256, on which the theorems' hypotheses hold.
pub mod Data
pub mod Proofs
mod Validation
mod Sources
pub mod Period
pub mod Payload
pub mod Blocks
pub mod Archive
mod EndToEnd
mod Provider
mod Receipts
mod State
mod Forks
mod Rpc
mod Portal
