-- ===== src/Inclusion/Receipt.antt =====
-- `DecodedReceipt` of src/inclusion.rs. The crates `alloy` and `alloy_rlp` are the parameter `Rlp`, and so
-- are alloy's types of a status, a log and an envelope.
use eth_historian.Base.{
  ℕ, List, [], ◌∷◌, ◌++◌, Bool, true, Option, none, some, Outcome, String, Bytes, length,
}

-- alloy's `Receipt` and `ReceiptWithBloom`, whose fields the code reads.
pub record Receipt (Status Log : Type 0) : Type 0 where
  pub status : Status
  pub cumulative_gas_used : ℕ
  pub logs : List Log

pub record ReceiptWithBloom (Status Log : Type 0) : Type 0 where
  pub receipt : Receipt Status Log
  pub logs_bloom : Bytes

pub data DecodedReceipt (Status Log Envelope : Type 0) : Type 0 where
  ethereum : Envelope → DecodedReceipt Status Log Envelope
  arbitrum : ℕ → ReceiptWithBloom Status Log → DecodedReceipt Status Log Envelope
  op_deposit :
      ReceiptWithBloom Status Log → Option ℕ → Option ℕ → DecodedReceipt Status Log Envelope

abbrev pub arbitrum_tx_type_min : ℕ
arbitrum_tx_type_min = 0x64

abbrev pub arbitrum_tx_type_max : ℕ
arbitrum_tx_type_max = 0x6A

abbrev pub op_deposit_tx_type : ℕ
op_deposit_tx_type = 0x7E

-- The encoders, and the decoders, which return a value and the rest of the buffer or the text of an error.
pub record Rlp (Status Log Envelope : Type 0) : Type 0 where
  pub encode_u64 : ℕ → Bytes
  pub decode_u64 : Bytes → Outcome String (ℕ × Bytes)
  pub encode_status : Status → Bytes
  pub decode_status : Bytes → Outcome String (Status × Bytes)
  pub encode_bloom : Bytes → Bytes
  pub decode_bloom : Bytes → Outcome String (Bytes × Bytes)
  pub encode_logs : List Log → Bytes
  pub decode_logs : Bytes → Outcome String (List Log × Bytes)
  -- `alloy_rlp::Header`, by its `list` and its `payload_length`.
  pub encode_header : Bool → ℕ → Bytes
  pub decode_header : Bytes → Outcome String ((Bool × ℕ) × Bytes)
  pub encode_receipt : ReceiptWithBloom Status Log → Bytes
  pub decode_receipt_body : Bytes → Outcome String (ReceiptWithBloom Status Log × Bytes)
  -- `ReceiptEnvelope`
  pub encoded_2718 : Envelope → Bytes
  pub decode_envelope : Bytes → Outcome String (Envelope × Bytes)
  pub decode_2718 : Bytes → Outcome String (Envelope × Bytes)
  pub envelope_logs : Envelope → List Log
  pub envelope_tx_type : Envelope → ℕ
  pub envelope_cumulative_gas_used : Envelope → ℕ

module _ {Status Log Envelope : Type 0} (L : Rlp Status Log Envelope) where
  unfoldable pub logs : DecodedReceipt Status Log Envelope → List Log
  logs (ethereum env) = L.envelope_logs env
  logs (arbitrum tag r) = r.receipt.logs
  logs (op_deposit r deposit_nonce deposit_receipt_version) = r.receipt.logs

  unfoldable pub tx_type : DecodedReceipt Status Log Envelope → ℕ
  tx_type (ethereum env) = L.envelope_tx_type env
  tx_type (arbitrum tag r) = tag
  tx_type (op_deposit r deposit_nonce deposit_receipt_version) = op_deposit_tx_type

  unfoldable pub cumulative_gas_used : DecodedReceipt Status Log Envelope → ℕ
  cumulative_gas_used (ethereum env) = L.envelope_cumulative_gas_used env
  cumulative_gas_used (arbitrum tag r) = r.receipt.cumulative_gas_used
  cumulative_gas_used (op_deposit r deposit_nonce deposit_receipt_version) =
      r.receipt.cumulative_gas_used

  unfoldable pub as_envelope : DecodedReceipt Status Log Envelope → Option Envelope
  as_envelope (ethereum env) = some env
  as_envelope (arbitrum tag r) = none
  as_envelope (op_deposit r deposit_nonce deposit_receipt_version) = none

  -- `if let (Some(n), Some(v)) = (deposit_nonce, deposit_receipt_version)`
  abbrev pub encode_nonce_and_version : Option ℕ → Option ℕ → Bytes
  encode_nonce_and_version none version = []
  encode_nonce_and_version (some n) none = []
  encode_nonce_and_version (some n) (some v) = L.encode_u64 n ++ L.encode_u64 v

  -- The payload of a deposit receipt.
  unfoldable pub deposit_payload : ReceiptWithBloom Status Log → Option ℕ → Option ℕ → Bytes
  deposit_payload r deposit_nonce deposit_receipt_version =
      L.encode_status r.receipt.status
      ++ (L.encode_u64 r.receipt.cumulative_gas_used
          ++ (L.encode_bloom r.logs_bloom
              ++ (L.encode_logs r.receipt.logs
                  ++ encode_nonce_and_version deposit_nonce deposit_receipt_version)))

  unfoldable pub to_wire_bytes : DecodedReceipt Status Log Envelope → Bytes
  unfolding deposit_payload
  to_wire_bytes (ethereum env) = L.encoded_2718 env
  to_wire_bytes (arbitrum tag r) = tag ∷ L.encode_receipt r
  to_wire_bytes (op_deposit r deposit_nonce deposit_receipt_version) =
      let payload = deposit_payload r deposit_nonce deposit_receipt_version in
      op_deposit_tx_type ∷ (L.encode_header true (length payload) ++ payload)
