-- ===== src/Inclusion/Decode.antt =====
-- `decode_receipt` and `decode_op_deposit` of src/inclusion.rs, and the methods of `VerifiedBlock` in
-- src/api.rs that check an inclusion against the block's roots.
use Prim.Native.String.{◌++◌ as ◌<+>◌}
use eth_historian.Base.{
  ℕ, ◌-◌, List, [], ◌∷◌, String, Bool, true, false, ◌&&◌, ltb, leb, ◌==◌, if◌then◌else◌, Option,
  none, some, Outcome, ok, err, map_err, guard, ◌>>=◌, ◌>>◌, length, display, lower_hex, Bytes,
  B256,
}
use eth_historian.Errors.{Error, receipt_decode}
use eth_historian.Api.{VerifiedBlock}
use eth_historian.Inclusion.Receipt.{
  DecodedReceipt, ethereum, arbitrum, op_deposit, Rlp, arbitrum_tx_type_min, arbitrum_tx_type_max,
  op_deposit_tx_type,
}
use eth_historian.Inclusion.Trie.{Trie, verify_transaction_inclusion, verify_receipt_inclusion}

-- `{:02x}` of a byte.
abbrev pub two_digits : ℕ → String
two_digits b = if ltb b 16 then "0" <+> lower_hex b else lower_hex b

abbrev pub is_empty : Bytes → Bool
is_empty [] = true
is_empty (b ∷ bs) = false

-- `a.abs_diff(b)`
abbrev abs_diff : ℕ → ℕ → ℕ
abs_diff a b = if leb a b then b - a else a - b

-- The prefix of a decoder's error.
abbrev pub op_error : String → String → String
op_error what e = "op deposit 0x7e: " <+> what <+> ": " <+> e

module _ {Status Log Envelope : Type 0} (L : Rlp Status Log Envelope) where
  -- The last two fields, where the payload goes on.
  unfoldable pub nonce_and_version : Bytes → Outcome String ((Option ℕ × Option ℕ) × Bytes)
  nonce_and_version [] = ok ((none, none), [])
  nonce_and_version (b ∷ bs) = do
    (n, p) ← map_err (op_error "depositNonce") (L.decode_u64 (b ∷ bs))
    (v, p) ← map_err (op_error "depositReceiptVersion") (L.decode_u64 p)
    ok ((some n, some v), p)

  -- The fields of the payload.
  unfoldable pub deposit_fields : Bytes → Outcome String (DecodedReceipt Status Log Envelope)
  unfolding nonce_and_version
  deposit_fields p = do
    (status, p) ← map_err (op_error "status") (L.decode_status p)
    (cumulative_gas_used, p) ← map_err (op_error "cumulativeGasUsed") (L.decode_u64 p)
    (logs_bloom, p) ← map_err (op_error "logsBloom") (L.decode_bloom p)
    (logs, p) ← map_err (op_error "logs") (L.decode_logs p)
    ((deposit_nonce, deposit_receipt_version), p) ← nonce_and_version p
    guard (is_empty p) (
        "op deposit 0x7e: "
        <+> display (length p)
        <+> " unexpected bytes after the receipt's fields")
    ok (
        op_deposit
          (record {
            receipt = record {
              status = status;
              cumulative_gas_used = cumulative_gas_used;
              logs = logs;
            };
            logs_bloom = logs_bloom;
          })
          deposit_nonce deposit_receipt_version)

  unfoldable pub decode_op_deposit : Bytes → Outcome String (DecodedReceipt Status Log Envelope)
  unfolding deposit_fields
  decode_op_deposit body = do
    ((list, payload_length), buf) ← map_err (op_error "list header") (L.decode_header body)
    guard list "op deposit 0x7e: body is not an RLP list"
    guard (length buf == payload_length) (
        "op deposit 0x7e: "
        <+> display (abs_diff (length buf) payload_length)
        <+> " trailing bytes after the receipt body")
    deposit_fields buf

  -- An envelope; what is left of the buffer is dropped.
  abbrev pub as_ethereum :
      Outcome String (Envelope × Bytes) → Outcome String (DecodedReceipt Status Log Envelope)
  as_ethereum decoded = do (env, buf) ← decoded; ok (ethereum env)

  unfoldable pub decode_arbitrum : ℕ → Bytes → Outcome String (DecodedReceipt Status Log Envelope)
  decode_arbitrum tx_type body = do
    (receipt, body) ←
        map_err (λ e. "arbitrum type 0x" <+> two_digits tx_type <+> ": " <+> e)
          (L.decode_receipt_body body)
    guard (is_empty body) (
        "arbitrum type 0x"
        <+> two_digits tx_type
        <+> ": "
        <+> display (length body)
        <+> " trailing bytes after the receipt body")
    ok (arbitrum tx_type receipt)

  -- The arms of the match on the first byte.
  unfoldable pub decode_tagged : ℕ → Bytes → Outcome String (DecodedReceipt Status Log Envelope)
  unfolding decode_arbitrum decode_op_deposit
  decode_tagged tag rest =
      if leb 0x80 tag
      then as_ethereum (L.decode_envelope (tag ∷ rest))
      else if leb arbitrum_tx_type_min tag && leb tag arbitrum_tx_type_max
      then decode_arbitrum tag rest
      else if tag == op_deposit_tx_type
      then decode_op_deposit rest
      else if leb tag 0x04
      then as_ethereum (L.decode_2718 (tag ∷ rest))
      else err (
          "unsupported EIP-2718 receipt type 0x"
          <+> two_digits tag
          <+> " (admitted: 0x00-0x04 Ethereum, 0x64-0x6a Arbitrum, 0x7e OP-stack deposit)")

  unfoldable pub decode_receipt : ℕ → Bytes → Outcome Error (DecodedReceipt Status Log Envelope)
  unfolding decode_tagged
  decode_receipt receipt_index [] = err (receipt_decode receipt_index "empty receipt bytes")
  decode_receipt receipt_index (tag ∷ rest) =
      map_err (receipt_decode receipt_index) (decode_tagged tag rest)

  unfoldable pub verify_and_decode_receipt :
      Trie → B256 → ℕ → Bytes → List Bytes → Outcome Error (DecodedReceipt Status Log Envelope)
  unfolding decode_receipt verify_receipt_inclusion
  verify_and_decode_receipt M receipts_root receipt_index raw_receipt proof_nodes = do
    verify_receipt_inclusion M L.encode_u64 receipts_root receipt_index raw_receipt proof_nodes
    decode_receipt receipt_index raw_receipt

  -- `VerifiedBlock::verify_transaction_inclusion`, and the two methods on receipts.
  unfoldable pub verify_transaction_in_block :
      Trie → VerifiedBlock → ℕ → Bytes → List Bytes → Outcome Error Unit
  unfolding verify_transaction_inclusion
  verify_transaction_in_block M block tx_index raw_tx proof_nodes =
      verify_transaction_inclusion M L.encode_u64 block.header.transactions_root tx_index raw_tx
        proof_nodes

  unfoldable pub verify_receipt_in_block :
      Trie → VerifiedBlock → ℕ → Bytes → List Bytes → Outcome Error Unit
  unfolding verify_receipt_inclusion
  verify_receipt_in_block M block receipt_index raw_receipt proof_nodes =
      verify_receipt_inclusion M L.encode_u64 block.header.receipts_root receipt_index raw_receipt
        proof_nodes

  unfoldable pub verify_and_decode_in_block :
      Trie
      → VerifiedBlock
      → ℕ
      → Bytes
      → List Bytes
      → Outcome Error (DecodedReceipt Status Log Envelope)
  unfolding verify_and_decode_receipt
  verify_and_decode_in_block M block receipt_index raw_receipt proof_nodes =
      verify_and_decode_receipt M block.header.receipts_root receipt_index raw_receipt proof_nodes
