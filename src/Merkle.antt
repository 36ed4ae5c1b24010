-- ===== src/Merkle.antt =====
-- src/merkle/proof.rs: sparse Merkle trees, the proofs that they produce, and the check of a proof.
-- `Hashing` is the interface to the crate `ethereum_hashing`; `Tree` and `Verify` are the code; the
-- other children prove what these promise to the rest of the program.
pub mod Hashing
pub mod Tree
pub mod Verify
pub mod Climb
pub mod Binding
pub mod Shape
pub mod Walk
pub mod Create
pub mod EndToEnd
pub mod LowBits
