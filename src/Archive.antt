-- ===== src/Archive.antt =====
-- src/sources/archive_rpc.rs: headers from an execution RPC, with proofs that are built here. `Text` is
-- the parsing of the RPC's hexadecimal text, `RawBlock` the header made of it, and `Source` the data
-- source; the other children prove what these promise.
pub mod Text
pub mod RawBlock
pub mod Bounds
pub mod Source
pub mod Quantity
pub mod Rendered
pub mod Verified
pub mod PostMerge
