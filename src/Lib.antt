-- ===== src/Lib.antt =====
-- A verification library for eth-historian, which authenticates historical Ethereum block headers
-- against embedded accumulators.
--
-- The program's parts, and where each is modelled:
--   * Merkle (src/merkle/proof.rs): trees, the proofs they produce, and the check of a proof. Tree
--     and Verify hold the code; `climb` of Climb describes a branch without indices; Shape, Walk
--     and Create relate a tree to the complete tree over its padded leaves.
--   * Types: the eras and constants (Network; src/portal_types/network_spec.rs and
--     consensus/constants.rs), headers with their proofs (Header; execution/header_with_proof.rs),
--     the summaries and their look-up (Summaries; consensus/historical_summaries.rs and
--     src/historical_summaries_provider.rs), the decoder (Codec, Decode) and the encoder (Encode).
--   * Validator (src/header_validator.rs, src/accumulator.rs, src/historical_roots_acc.rs): the
--     check of a header with its proof. Accept says what is accepted, Unique what an acceptance
--     commits to, Panics when a table is indexed out of range.
--   * Fingerprints (src/lib.rs, src/constants.rs): the check of the embedded tables.
--   * Api (src/api.rs, the trait of src/sources/mod.rs, src/errors.rs as Errors): the builder, and
--     the verifier that asks its sources in turn, decodes, compares and validates.
--   * ProofConstruction (src/proof_construction.rs): proofs for blocks before the merge.
--   * Beacon (src/portal_types/consensus/proof.rs, and HistoricalBatch of
--     src/portal_types/consensus/beacon_state.rs): the proof of a beacon block root in the roots of
--     its period (Index, Accepted). execution_payload.rs, body.rs and beacon_block.rs there:
--     payloads, bodies and blocks of each fork and the three proofs from the block hash to the
--     block root (Payload, BlockHash, Operations, Body, Block, InBlock), and their decoding
--     (Signed). Builders (src/portal_types/execution/header_with_proof.rs): the proofs for blocks
--     after the merge, which PostMerge relates to the validator. Rpc and Provider
--     (src/sources/beacon_rpc.rs): the fork of a slot, the batch of its period, and the provider of
--     blocks and batches.
--   * Archive (src/sources/archive_rpc.rs): the parsers of an RPC's text (Text, Quantity), the
--     block that renders a header (Bounds, Rendered), the header made of its answer (RawBlock), the
--     source that builds proofs (Source), and the verifier on that source (Verified, PostMerge).
--   * State (src/portal_types/consensus/beacon_state.rs, and the headers of execution_payload.rs
--     there): the beacon state of each fork (Data holds the parts), and the proof of its historical
--     summaries (Summaries).
--   * Inclusion (src/inclusion.rs, and the methods of `VerifiedBlock` in src/api.rs): proofs of
--     transactions and receipts against the roots of a header (Trie), receipts and their bytes
--     (Receipt, Decode), and how these belong together (RoundTrip, ReadBack). The methods have the
--     suffix `_in_block`.
--   * Portal (src/sources/portal.rs as History, src/sources/portal_beacon.rs as Beacon): content
--     keys, the source of headers, the verifier on it (Verified), and the fetch of the latest
--     summaries.
--   * Era1 (src/sources/era1.rs): the source over Era1 files, a scaffold.
--   * Fork (src/portal_types/consensus/fork.rs): the names and digests of the forks.
--   * Base: shared names, Boolean tests, lists, results and bytes. Tests: concrete inputs.
--
-- A verifier asks a source for bytes (Api), decodes them (Types.Codec), and hands header and proof
-- to the validator, which walks the proof's branches (Merkle) up to an entry of one of its tables.
-- The construction of proofs uses the trees of Merkle, and its output is what the validator reads.
--
-- Numbers are natural numbers; where the code computes in `usize` on values that can be large, the
-- model keeps the bound: shifts of an index are by less than 64, `2usize.pow` wraps at 2 ^ 64, and
-- a parsed `u64` is refused from 2 ^ 64 on. A result is an `Outcome`: a value, an `Err`, or a
-- panic. All recursion is on a list or on the depth of a tree, but for `next_power_of_two`, which
-- doubles at most 63 times, as often as a `usize` can, and for printed numbers, which have at most
-- 20 decimal and 16 hexadecimal digits. Trees have at most 33 levels, as the table of zero nodes
-- allows, and branches at most 64 nodes. Byte strings are lists of numbers.
--
-- Code from other crates is a parameter: SHA-256 and the zero hashes (`Hashing`, with `IsLawful`),
-- the Keccak hash of a header (`hash_slow`), SSZ and RLP (`Ssz`, with `DecodesSized`; `SszEncode`,
-- with `ReadsBack`; `BlockSsz`), the trees of rs_merkle (`RootsHashing`, with `IsSound`), tree_hash
-- (`TreeHash`, with `IsChunked`; `OperationHash`, `PayloadHash`, `BodyHash` and `BlockHash`, with
-- `IsDerived`: the root of a struct is that of its declared fields, which Beacon.Fields lists),
-- hexadecimal text (with `Reads` of single byte strings), HTTP and files (`PortalClient` among
-- them), the clock, the Merkle-Patricia trie (`Trie`), the RLP of receipts (`Rlp`, with
-- `AreCanonical` and `AreInverse`), the hashes and decoders of a beacon state (`StateHash`,
-- `StateSsz`, and `StateRoots` with `AreDerived`, over the fields that State.Fields lists), and the
-- embedded files with their digests (`Assets`). The records in brackets are what the theorems
-- assume of them. SHA-256 is not assumed to be injective: the theorems on uniqueness name the
-- collision instead.
--
-- Not modelled: the text forms of keys, serde, logging, the bindings, the construction of HTTP
-- clients, and the `Arc` and `RwLock` around the shared state, of which one call sees one value.
pub mod Base
pub mod Merkle
pub mod Types
pub mod Validator
pub mod Errors
pub mod Fingerprints
pub mod Api
pub mod ProofConstruction
pub mod Beacon
pub mod Fork
pub mod Archive
pub mod Inclusion
pub mod State
pub mod Portal
pub mod Era1
mod Tests
