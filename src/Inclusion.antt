-- ===== src/Inclusion.antt =====
-- src/inclusion.rs and the three methods of `VerifiedBlock` in src/api.rs that call it: `Receipt` has the
-- decoded receipts, `Trie` the checks of a proof, and `Decode` the decoder; the other children prove what
-- these promise.
pub mod Receipt
pub mod Trie
pub mod Decode
pub mod RoundTrip
pub mod ReadBack
