-- ===== src/Archive/Bounds.antt =====
-- The ranges of the types of a header (`alloy::consensus::Header`), which src/sources/archive_rpc.rs makes of
-- the texts of an RPC.
use eth_historian.Base.{ℕ, ◌^◌, ◌<◌, ◌≡◌, true, ltb, length, Option, none, some, Bytes, arith}
use eth_historian.Types.Header.{Header}

abbrev pub IsU64 : ℕ → Type 0
IsU64 n = n < 2 ^ 64

abbrev pub IsU256 : ℕ → Type 0
IsU256 n = n < 256 ^ 32

abbrev pub HasSize : ℕ → Bytes → Type 0
HasSize n bytes = length bytes ≡ n

abbrev pub IsOptional : {A : Type 0} → (A → Type 0) → Option A → Type 0
IsOptional P none = Unit
IsOptional P (some a) = P a

-- A header within its types.
abbrev pub InRange : Header → Type 0
InRange h =
    HasSize 32 h.parent_hash
    × HasSize 32 h.ommers_hash
    × HasSize 20 h.beneficiary
    × HasSize 32 h.state_root
    × HasSize 32 h.transactions_root
    × HasSize 32 h.receipts_root
    × HasSize 256 h.logs_bloom
    × IsU256 h.difficulty
    × IsU64 h.number
    × IsU64 h.gas_limit
    × IsU64 h.gas_used
    × IsU64 h.timestamp
    × HasSize 32 h.mix_hash
    × HasSize 8 h.nonce
    × IsOptional IsU64 h.base_fee_per_gas
    × IsOptional (HasSize 32) h.withdrawals_root
    × IsOptional IsU64 h.blob_gas_used
    × IsOptional IsU64 h.excess_blob_gas
    × IsOptional (HasSize 32) h.parent_beacon_block_root

pub ltb→lt : (a b : ℕ) → ltb a b ≡ true → a < b
ltb→lt a b h = ground arith
