-- ===== src/Types.antt =====
-- src/portal_types: fork activation, headers with their proofs, and the historical commitments.
pub mod Network
pub mod Header
pub mod Summaries
pub mod Codec
pub mod Decode
pub mod Encode
