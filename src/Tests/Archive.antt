-- ===== src/Tests/Archive.antt =====
-- Tests of the archive RPC source: an RPC that answers with texts of zeros, and one file of an epoch.
use Prim.Native.String.{char_at, count}
use eth_historian.Base.{
  ◌*◌, ◌+◌, ◌%◌, ◌∷◌, Bool, true, false, Option, err, inr, from_le_bytes, ◌==◌, ◌>>=◌, ℕ, ◌/◌, ◌≡◌,
  refl, [], String, none, some, Outcome, ok, replicate, Bytes, arith,
}
use eth_historian.Types.Header.{Header}
use eth_historian.Archive.RawBlock.{RawBlock, raw_block_to_alloy_header}
use eth_historian.Errors.{Error}
use eth_historian.Archive.Bounds.{InRange}
use eth_historian.Archive.Text.{parse_u64, to_digit, trim_0x}
use eth_historian.Archive.Source.{ArchiveRpcSource, JsonRpcResponse}
use eth_historian.Archive.Rendered.{
  rendered, ReadsHeader, Denote, raw_block_to_alloy_header-rendered,
}

abbrev pub zero_hex : String → Outcome String Bytes
zero_hex s = ok (replicate (count s / 2) 0)

abbrev zeros_32 : String
zeros_32 = "0x0000000000000000000000000000000000000000000000000000000000000000"

abbrev zeros_256 : String
zeros_256 =
    "0x00000000000000000000000000000000000000000000000000000000000000000000000000000000000000000000000000000000000000000000000000000000000000000000000000000000000000000000000000000000000000000000000000000000000000000000000000000000000000000000000000000000000000000000000000000000000000000000000000000000000000000000000000000000000000000000000000000000000000000000000000000000000000000000000000000000000000000000000000000000000000000000000000000000000000000000000000000000000000000000000000000000000000000000000000000000"

abbrev pub raw_at : String → String → RawBlock
raw_at number timestamp = record {
  number = number;
  hash = zeros_32;
  parent_hash = zeros_32;
  uncles_hash = zeros_32;
  miner = "0x0000000000000000000000000000000000000000";
  state_root = zeros_32;
  transactions_root = zeros_32;
  receipts_root = zeros_32;
  logs_bloom = zeros_256;
  difficulty = "0x0";
  gas_limit = "0x1c9c380";
  gas_used = "0x0";
  timestamp = timestamp;
  extra_data = "0x";
  mix_hash = zeros_32;
  nonce = "0x0000000000000000";
  base_fee_per_gas = some "0x7";
  withdrawals_root = none;
  blob_gas_used = none;
  excess_blob_gas = none;
  parent_beacon_block_root = none;
}

abbrev pub parsed_at : ℕ → ℕ → Header
parsed_at number timestamp = record {
  parent_hash = replicate 32 0;
  ommers_hash = replicate 32 0;
  beneficiary = replicate 20 0;
  state_root = replicate 32 0;
  transactions_root = replicate 32 0;
  receipts_root = replicate 32 0;
  logs_bloom = replicate 256 0;
  difficulty = 0;
  number = number;
  gas_limit = 30000000;
  gas_used = 0;
  timestamp = timestamp;
  extra_data = [];
  mix_hash = replicate 32 0;
  nonce = replicate 8 0;
  base_fee_per_gas = some 7;
  withdrawals_root = none;
  blob_gas_used = none;
  excess_blob_gas = none;
  parent_beacon_block_root = none;
  requests_hash = none;
}

pub parses_early : raw_block_to_alloy_header zero_hex (raw_at "0x1" "0x9") ≡ ok (parsed_at 1 9)
unfolding raw_block_to_alloy_header
parses_early = refl

pub parses_merge :
    raw_block_to_alloy_header zero_hex (raw_at "0xed14f2" "0x5fc63057")
    ≡ ok (parsed_at 15537394 1606824023)
unfolding raw_block_to_alloy_header
parses_merge = refl

pub parses_deneb :
    raw_block_to_alloy_header zero_hex (raw_at "0xed14f2" "0x65f1b057")
    ≡ ok (parsed_at 15537394 1710338135)
unfolding raw_block_to_alloy_header
parses_deneb = refl

-- Hexadecimal text.
abbrev write_hex : Bytes → String
write_hex [] = ""
write_hex (b ∷ bs) =
    String.◌∷◌ (char_at "0123456789abcdef" (b / 16))
      (String.◌∷◌ (char_at "0123456789abcdef" (b % 16)) (write_hex bs))

abbrev pair : Option ℕ → Option ℕ → Outcome String Bytes → Outcome String Bytes
pair (some x) (some y) rest = do bytes ← rest; ok ((16 * x + y) ∷ bytes)
pair _ _ rest = err "invalid digit"

read_hex : String → Outcome String Bytes
unfolding to_digit
read_hex String.[] = ok []
read_hex (String.◌∷◌ c String.[]) = err "odd length"
read_hex (String.◌∷◌ c (String.◌∷◌ d s)) = pair (to_digit c) (to_digit d) (read_hex s)

-- A header with different bytes in its fields.
abbrev varied : Header
varied = record {
  parent_hash = replicate 32 17;
  ommers_hash = replicate 32 18;
  beneficiary = replicate 20 19;
  state_root = replicate 32 20;
  transactions_root = replicate 32 21;
  receipts_root = replicate 32 171;
  logs_bloom = replicate 256 0;
  difficulty = 1024;
  number = 5;
  gas_limit = 30000000;
  gas_used = 21000;
  timestamp = 1438269988;
  extra_data = 1 ∷ 2 ∷ [];
  mix_hash = replicate 32 22;
  nonce = replicate 8 23;
  base_fee_per_gas = some 7;
  withdrawals_root = some (replicate 32 24);
  blob_gas_used = some 0;
  excess_blob_gas = none;
  parent_beacon_block_root = none;
  requests_hash = some (replicate 32 25);
}

varied-ReadsHeader : ReadsHeader write_hex read_hex varied
unfolding read_hex trim_0x
varied-ReadsHeader = (refl, refl, refl, refl, refl, refl, refl, refl, refl, refl, refl, tt)

difficulty-Denote : Denote write_hex read_hex "400" 1024
unfolding read_hex trim_0x from_le_bytes
difficulty-Denote = (4 ∷ 0 ∷ [], refl, omega arith, omega arith, refl, inr (refl, refl))

varied-InRange : InRange varied
varied-InRange = (
  refl,
  refl,
  refl,
  refl,
  refl,
  refl,
  refl,
  omega arith,
  omega arith,
  omega arith,
  omega arith,
  omega arith,
  refl,
  refl,
  omega arith,
  refl,
  omega arith,
  tt,
  tt,
)

raw_block_to_alloy_header-rendered_example :
    raw_block_to_alloy_header read_hex (rendered write_hex "0x" "400" varied)
    ≡ ok (record varied { requests_hash = none })
raw_block_to_alloy_header-rendered_example =
    raw_block_to_alloy_header-rendered write_hex read_hex "0x" "400" varied varied-InRange
      varied-ReadsHeader difficulty-Denote

-- An RPC that has block 1 only.
abbrev block_if : Bool → Option RawBlock
block_if true = some (raw_at "0x1" "0x9")
block_if false = none

abbrev named : Outcome Error ℕ → Outcome Error JsonRpcResponse
named number = do n ← number; ok (record { result = block_if (n == 1); error = none })

abbrev one_block : ArchiveRpcSource
one_block = record {
  post = λ text. named (parse_u64 text "number");
  epoch_provider = none;
  beacon_provider = none;
}
