-- ===== src/Archive/RawBlock.antt =====
-- `RawBlock` and `raw_block_to_alloy_header` of src/sources/archive_rpc.rs.
use eth_historian.Base.{String, Option, none, some, Outcome, ok, ◌>>=◌, Bytes}
use eth_historian.Errors.{Error}
use eth_historian.Types.Header.{Header}
use eth_historian.Archive.Text.{
  parse_b256, parse_u64, parse_u256, parse_addr, parse_bytes, parse_bloom, parse_b64,
}

pub record RawBlock : Type 0 where
  pub number : String
  pub hash : String
  pub parent_hash : String
  pub uncles_hash : String
  pub miner : String
  pub state_root : String
  pub transactions_root : String
  pub receipts_root : String
  pub logs_bloom : String
  pub difficulty : String
  pub gas_limit : String
  pub gas_used : String
  pub timestamp : String
  pub extra_data : String
  pub mix_hash : String
  pub nonce : String
  pub base_fee_per_gas : Option String
  pub withdrawals_root : Option String
  pub blob_gas_used : Option String
  pub excess_blob_gas : Option String
  pub parent_beacon_block_root : Option String

-- `.as_deref().map(parse).transpose()`
abbrev pub transpose :
    {A : Type 0} → (String → Outcome Error A) → Option String → Outcome Error (Option A)
transpose parse none = ok none
transpose parse (some s) = do a ← parse s; ok (some a)

module _ (decode : String → Outcome String Bytes) where
  -- The fields are parsed in the order of the struct literal; those that it does not name are `None`.
  unfoldable pub raw_block_to_alloy_header : RawBlock → Outcome Error Header
  unfolding parse_b256 parse_u64 parse_u256 parse_addr parse_bytes parse_bloom parse_b64
  raw_block_to_alloy_header raw = do
    parent_hash ← parse_b256 decode raw.parent_hash "parent_hash"
    ommers_hash ← parse_b256 decode raw.uncles_hash "uncles_hash"
    beneficiary ← parse_addr decode raw.miner
    state_root ← parse_b256 decode raw.state_root "state_root"
    transactions_root ← parse_b256 decode raw.transactions_root "transactions_root"
    receipts_root ← parse_b256 decode raw.receipts_root "receipts_root"
    logs_bloom ← parse_bloom decode raw.logs_bloom
    difficulty ← parse_u256 decode raw.difficulty
    number ← parse_u64 raw.number "number"
    gas_limit ← parse_u64 raw.gas_limit "gas_limit"
    gas_used ← parse_u64 raw.gas_used "gas_used"
    timestamp ← parse_u64 raw.timestamp "timestamp"
    extra_data ← parse_bytes decode raw.extra_data
    mix_hash ← parse_b256 decode raw.mix_hash "mix_hash"
    nonce ← parse_b64 decode raw.nonce
    base_fee_per_gas ← transpose (λ s. parse_u64 s "base_fee_per_gas") raw.base_fee_per_gas
    withdrawals_root ← transpose (λ s. parse_b256 decode s "withdrawals_root") raw.withdrawals_root
    blob_gas_used ← transpose (λ s. parse_u64 s "blob_gas_used") raw.blob_gas_used
    excess_blob_gas ← transpose (λ s. parse_u64 s "excess_blob_gas") raw.excess_blob_gas
    parent_beacon_block_root ←
        transpose (λ s. parse_b256 decode s "parent_beacon_block_root") raw.parent_beacon_block_root
    ok (record {
      parent_hash = parent_hash;
      ommers_hash = ommers_hash;
      beneficiary = beneficiary;
      state_root = state_root;
      transactions_root = transactions_root;
      receipts_root = receipts_root;
      logs_bloom = logs_bloom;
      difficulty = difficulty;
      number = number;
      gas_limit = gas_limit;
      gas_used = gas_used;
      timestamp = timestamp;
      extra_data = extra_data;
      mix_hash = mix_hash;
      nonce = nonce;
      base_fee_per_gas = base_fee_per_gas;
      withdrawals_root = withdrawals_root;
      blob_gas_used = blob_gas_used;
      excess_blob_gas = excess_blob_gas;
      parent_beacon_block_root = parent_beacon_block_root;
      requests_hash = none;
    })
