-- ===== src/Inclusion/ReadBack.antt =====
-- `decode_receipt` reads back what `DecodedReceipt::to_wire_bytes` writes (src/inclusion.rs), and what
-- `VerifiedBlock::verify_and_decode_receipt` (src/api.rs) returns.
use eth_historian.Base.{
  ℕ, ◌^◌, ◌≤◌, ◌<◌, ◌≡◌, ◌≢◌, ◌↔◌, refl, sym, ap, ◌∙◌, List, [], ◌∷◌, ◌++◌, append-nil, String,
  true, le→leb, lt→leb, ==_refl, Option, none, some, Outcome, ok, err, panic, map_err, map_err-ok,
  ◌>>=◌, length, Bytes, B256, arith,
}
use eth_historian.Errors.{Error, mpt_inclusion, receipt_decode}
use eth_historian.Api.{VerifiedBlock}
use eth_historian.Inclusion.Receipt.{
  ReceiptWithBloom, DecodedReceipt, ethereum, arbitrum, op_deposit, Rlp, to_wire_bytes,
  deposit_payload, encode_nonce_and_version,
}
use eth_historian.Inclusion.Trie.{Trie, verify_receipt_inclusion}
use eth_historian.Inclusion.Decode.{
  op_error, nonce_and_version, deposit_fields, decode_op_deposit, decode_arbitrum, decode_tagged,
  decode_receipt, verify_and_decode_in_block,
}

-- A value that is read back from what the encoder writes, with the rest of the buffer left.
abbrev pub IsReadBack :
    {A : Type 0} → (A → Bytes) → (Bytes → Outcome String (A × Bytes)) → A → Type 0
IsReadBack encode decode a = (rest : Bytes) → decode (encode a ++ rest) ≡ ok (a, rest)

-- The ranges of the numbers and of the bloom of a receipt.
abbrev pub IsSized : {Status Log : Type 0} → ReceiptWithBloom Status Log → Type 0
IsSized r = (r.receipt.cumulative_gas_used < 2 ^ 64) × (length r.logs_bloom ≡ 256)

-- What the crates promise of the encoders that the chain-specific receipts use, on values of the range of
-- their types. The decoder of a header wants its payload in the buffer.
pub record AreInverse {Status Log Envelope : Type 0} (L : Rlp Status Log Envelope) : Type 0 where
  pub u64_inverse : (n : ℕ) → n < 2 ^ 64 → IsReadBack L.encode_u64 L.decode_u64 n
  pub u64_nonempty : (n : ℕ) → L.encode_u64 n ≢ []
  pub status_inverse : (status : Status) → IsReadBack L.encode_status L.decode_status status
  pub bloom_inverse :
      (bloom : Bytes) → length bloom ≡ 256 → IsReadBack L.encode_bloom L.decode_bloom bloom
  pub logs_inverse : (logs : List Log) → IsReadBack L.encode_logs L.decode_logs logs
  pub header_inverse :
      (payload : Bytes)
      → length payload < 2 ^ 64
      → L.decode_header (L.encode_header true (length payload) ++ payload)
        ≡ ok ((true, length payload), payload)
  pub receipt_inverse :
      (r : ReceiptWithBloom Status Log)
      → IsSized r
      → IsReadBack L.encode_receipt L.decode_receipt_body r

at_end :
    {A : Type 0} (encode : A → Bytes) (decode : Bytes → Outcome String (A × Bytes)) (a : A)
    → IsReadBack encode decode a
    → decode (encode a) ≡ ok (a, [])
at_end encode decode a back = ap decode (sym (append-nil (encode a))) ∙ back []

module _ {Status Log Envelope : Type 0} (L : Rlp Status Log Envelope) where
  -- A payload whose length is a `usize`.
  abbrev Fits : ReceiptWithBloom Status Log → Option ℕ → Option ℕ → Type 0
  Fits r n v = length (deposit_payload L r n v) < 2 ^ 64

  -- A chain-specific receipt that the decoder can return: a type and numbers in their ranges, and both of
  -- the optional fields or neither.
  abbrev pub IsWellFormed : DecodedReceipt Status Log Envelope → Type 0
  IsWellFormed (ethereum env) = ⊥
  IsWellFormed (arbitrum tag r) = (100 ≤ tag) × (tag ≤ 106) × IsSized r
  IsWellFormed (op_deposit r none none) = IsSized r × Fits r none none
  IsWellFormed (op_deposit r (some n) (some v)) =
      IsSized r × Fits r (some n) (some v) × (n < 2 ^ 64) × (v < 2 ^ 64)
  IsWellFormed (op_deposit r _ _) = ⊥

  module _ (inverse : AreInverse L) where
    arbitrum_back :
        (tag : ℕ) (r : ReceiptWithBloom Status Log)
        → IsSized r
        → decode_arbitrum L tag (L.encode_receipt r) ≡ ok (arbitrum tag r)
    unfolding decode_arbitrum
    arbitrum_back tag r sized =
        rw (at_end L.encode_receipt L.decode_receipt_body r (inverse.receipt_inverse r sized)) refl

    -- A buffer with something in it.
    opened :
        (p : Bytes)
        → p ≢ []
        → nonce_and_version L p ≡ (
            map_err (op_error "depositNonce") (L.decode_u64 p) >>= λ first.
            map_err (op_error "depositReceiptVersion") (L.decode_u64 first.1) >>= λ second.
            ok ((some first.0, some second.0), second.1))
    unfolding nonce_and_version
    opened [] h = absurd (h refl)
    opened (b ∷ bs) h = refl

    nonempty_append : (xs ys : Bytes) → xs ≢ [] → (xs ++ ys) ≢ []
    nonempty_append [] ys h e = h refl
    nonempty_append (x ∷ xs) ys h e = cc

    both_back :
        (n v : ℕ)
        → n < 2 ^ 64
        → v < 2 ^ 64
        → nonce_and_version L (L.encode_u64 n ++ L.encode_u64 v) ≡ ok ((some n, some v), [])
    both_back n v hn hv =
        opened (L.encode_u64 n ++ L.encode_u64 v)
          (nonempty_append (L.encode_u64 n) (L.encode_u64 v) (inverse.u64_nonempty n))
        ∙ rw
            (
              inverse.u64_inverse n hn (L.encode_u64 v),
              at_end L.encode_u64 L.decode_u64 v (inverse.u64_inverse v hv),
            )
            refl

    fields_back :
        (r : ReceiptWithBloom Status Log) (n v : Option ℕ)
        → IsSized r
        → nonce_and_version L (encode_nonce_and_version L n v) ≡ ok ((n, v), [])
        → deposit_fields L (deposit_payload L r n v) ≡ ok (op_deposit r n v)
    unfolding deposit_fields deposit_payload
    fields_back r n v (gas, bloom) back =
        rw
          (
            inverse.status_inverse r.receipt.status _,
            inverse.u64_inverse r.receipt.cumulative_gas_used gas _,
            inverse.bloom_inverse r.logs_bloom bloom _,
            inverse.logs_inverse r.receipt.logs _,
            back,
          )
          refl

    deposit_back :
        (payload : Bytes) (r : DecodedReceipt Status Log Envelope)
        → length payload < 2 ^ 64
        → deposit_fields L payload ≡ ok r
        → decode_op_deposit L (L.encode_header true (length payload) ++ payload) ≡ ok r
    unfolding decode_op_deposit
    deposit_back payload r fits back =
        rw (inverse.header_inverse payload fits, ==_refl (length payload)) back

    arbitrum_tagged :
        (tag : ℕ) (body : Bytes)
        → 100 ≤ tag
        → tag ≤ 106
        → decode_tagged L tag body ≡ decode_arbitrum L tag body
    unfolding decode_tagged
    arbitrum_tagged tag body from to =
        rw (lt→leb 128 tag (omega arith), le→leb 100 tag from, le→leb tag 106 to) refl

    deposit_tagged : (body : Bytes) → decode_tagged L 126 body ≡ decode_op_deposit L body
    unfolding decode_tagged
    deposit_tagged body = refl

    decoded_deposit :
        (index : ℕ) (r : ReceiptWithBloom Status Log) (n v : Option ℕ)
        → IsSized r
        → Fits r n v
        → nonce_and_version L (encode_nonce_and_version L n v) ≡ ok ((n, v), [])
        → decode_receipt L index (to_wire_bytes L (op_deposit r n v)) ≡ ok (op_deposit r n v)
    unfolding decode_receipt to_wire_bytes
    decoded_deposit index r n v sized fits back = ap (map_err (receipt_decode index)) (
        deposit_tagged _
        ∙ deposit_back (deposit_payload L r n v) (op_deposit r n v) fits
            (fields_back r n v sized back))

    nothing_back : nonce_and_version L [] ≡ ok ((none, none), [])
    unfolding nonce_and_version
    nothing_back = refl

    -- A chain-specific receipt is read back from the bytes that it writes: an Arbitrum receipt with a type
    -- from 100 to 106, and a deposit receipt with both of its optional fields or with neither, where the
    -- numbers, the bloom and the length of the payload are in the range of their types.
    pub decode_receipt-to_wire_bytes :
        (index : ℕ) (r : DecodedReceipt Status Log Envelope)
        → IsWellFormed r
        → decode_receipt L index (to_wire_bytes L r) ≡ ok r
    unfolding decode_receipt to_wire_bytes
    decode_receipt-to_wire_bytes index (ethereum env) h = absurd h
    decode_receipt-to_wire_bytes index (arbitrum tag r) (from, to, sized) =
        ap (map_err (receipt_decode index))
          (arbitrum_tagged tag (L.encode_receipt r) from to ∙ arbitrum_back tag r sized)
    decode_receipt-to_wire_bytes index (op_deposit r none none) (sized, fits) =
        decoded_deposit index r none none sized fits nothing_back
    decode_receipt-to_wire_bytes index (op_deposit r none (some v)) h = absurd h
    decode_receipt-to_wire_bytes index (op_deposit r (some n) none) h = absurd h
    decode_receipt-to_wire_bytes index (op_deposit r (some n) (some v)) (sized, fits, hn, hv) =
        decoded_deposit index r (some n) (some v) sized fits (both_back n v hn hv)

  then_iff :
      {A : Type 0} (first : Outcome Error Unit) (second : Outcome Error A) (a : A)
      → ((first >>= λ _. second) ≡ ok a) ↔ ((first ≡ ok tt) × (second ≡ ok a))
  then_iff (ok u) second a = (λ h. (refl, h), λ h. h.1)
  then_iff (err e) second a = (λ h. cc, λ h. cc)
  then_iff panic second a = (λ h. cc, λ h. cc)

  -- A proof that is accepted: some node, and the crate's check.
  abbrev pub IsIncluded : Trie → B256 → ℕ → Bytes → List Bytes → Type 0
  IsIncluded M root index value nodes =
      (nodes ≢ [])
      × (M.verify_proof root (M.unpack (L.encode_u64 index)) (some value) nodes ≡ ok tt)

  inclusion_iff :
      (M : Trie) (root : B256) (index : ℕ) (value : Bytes) (nodes : List Bytes)
      → (verify_receipt_inclusion M L.encode_u64 root index value nodes ≡ ok tt)
        ↔ IsIncluded M root index value nodes
  unfolding verify_receipt_inclusion
  inclusion_iff M root index value [] = (λ h. cc, λ h. absurd (h.0 refl))
  inclusion_iff M root index value (node ∷ nodes) =
      (λ h. (λ e. cc, map_err-ok mpt_inclusion _ h), λ h. ap (map_err mpt_inclusion) h.1)

  -- A block gives a decoded receipt exactly when there are proof nodes, the trie's check accepts the raw
  -- receipt under the RLP of its index in the header's receipts root, and the raw receipt decodes to it.
  pub verify_and_decode_in_block_iff :
      (M : Trie) (block : VerifiedBlock) (index : ℕ) (raw : Bytes) (nodes : List Bytes)
      (r : DecodedReceipt Status Log Envelope)
      → (verify_and_decode_in_block L M block index raw nodes ≡ ok r) ↔ (
          IsIncluded M block.header.receipts_root index raw nodes
          × (decode_receipt L index raw ≡ ok r))
  unfolding verify_and_decode_in_block
  verify_and_decode_in_block_iff M block index raw nodes r =
      let both =
        then_iff
          (verify_receipt_inclusion M L.encode_u64 block.header.receipts_root index raw nodes)
          (decode_receipt L index raw) r in
      let included = inclusion_iff M block.header.receipts_root index raw nodes in
      (λ h. (included.0 (both.0 h).0, (both.0 h).1), λ h. both.1 (included.1 h.0, h.1))
