-- ===== src/Inclusion/RoundTrip.antt =====
-- The two directions between the wire bytes of a receipt and `DecodedReceipt` (src/inclusion.rs).
use eth_historian.Base.{
  ℕ, ◌≤◌, ◌≡◌, refl, sym, ap, ◌∙◌, ◌⊎◌, inl, inr, subst, [], ◌∷◌, ◌++◌, append_assoc, append-nil,
  drop, String, Bool, Bool-cases, true, false, leb, leb→le, ◌==◌, ==_iff, ◌&&◌, Option, Outcome, ok,
  err, panic, map_err, map_err-ok, guard, ◌>>=◌, ◌>>◌, Yields, Yields->>=, ok-injective, length,
  Bytes, arith,
}
use eth_historian.Errors.{receipt_decode}
use eth_historian.Inclusion.Receipt.{
  ReceiptWithBloom, DecodedReceipt, ethereum, op_deposit, Rlp, op_deposit_tx_type, to_wire_bytes,
  tx_type, deposit_payload, encode_nonce_and_version,
}
use eth_historian.Inclusion.Decode.{
  is_empty, nonce_and_version, deposit_fields, decode_op_deposit, as_ethereum, decode_arbitrum,
  decode_tagged, decode_receipt,
}

-- Bytes from which the decoder reads, if anything, what the encoder writes.
abbrev pub IsCanonicalAt :
    {A : Type 0} → (A → Bytes) → (Bytes → Outcome String (A × Bytes)) → Bytes → Type 0
IsCanonicalAt {A} encode decode b =
    (a : A) (rest : Bytes) → decode b ≡ ok (a, rest) → b ≡ encode a ++ rest

-- A decoder that accepts no other bytes than those that the encoder writes.
abbrev pub IsCanonical : {A : Type 0} → (A → Bytes) → (Bytes → Outcome String (A × Bytes)) → Type 0
IsCanonical encode decode = (b : Bytes) → IsCanonicalAt encode decode b

-- The canonical form of RLP, which the decoders of numbers, blooms, logs and headers insist on. Nothing is
-- assumed of the decoder of a status, which may accept several spellings.
pub record AreCanonical {Status Log Envelope : Type 0} (L : Rlp Status Log Envelope) : Type 0 where
  pub u64_canonical : IsCanonical L.encode_u64 L.decode_u64
  pub bloom_canonical : IsCanonical L.encode_bloom L.decode_bloom
  pub logs_canonical : IsCanonical L.encode_logs L.decode_logs
  -- The header of a list.
  pub header_canonical :
      (b : Bytes) (size : ℕ) (rest : Bytes)
      → L.decode_header b ≡ ok ((true, size), rest)
      → b ≡ L.encode_header true size ++ rest

-- A body in which the status has the spelling that the encoder writes: at the start of a deposit receipt's
-- payload, and within the receipt of an Arbitrum type.
pub record HasPlainStatus {Status Log Envelope : Type 0} (L : Rlp Status Log Envelope)
    (body : Bytes) : Type 0 where
  pub in_receipt : IsCanonicalAt L.encode_receipt L.decode_receipt_body body
  pub in_payload :
      (header : Bool × ℕ) (payload : Bytes)
      → L.decode_header body ≡ ok (header, payload)
      → IsCanonicalAt L.encode_status L.decode_status payload

empty_bytes : (b : Bytes) → is_empty b ≡ true → b ≡ []
empty_bytes [] h = refl
empty_bytes (x ∷ b) h = cc

arbitrum_range : (tag : ℕ) → (leb 100 tag && leb tag 106) ≡ true → (100 ≤ tag) × (tag ≤ 106)
arbitrum_range tag h = ground arith

whole : (xs rest : Bytes) → is_empty rest ≡ true → xs ++ rest ≡ xs
whole xs rest h = ap (λ b. xs ++ b) (empty_bytes rest h) ∙ append-nil xs

-- A decoder under `map_err`, as a step of a chain.
step :
    {A B : Type 0} {P : B → Type 0} (f : String → String) (m : Outcome String (A × Bytes))
    (k : A × Bytes → Outcome String B)
    → ((a : A) (rest : Bytes) → m ≡ ok (a, rest) → Yields P (k (a, rest)))
    → Yields P (map_err f m >>= k)
step f (ok (a, rest)) k h = h a rest refl
step f (err e) k h = λ b e'. cc
step f panic k h = λ b e'. cc

guarded :
    {B : Type 0} {P : B → Type 0} (test : Bool) (e : String) (k : Outcome String B)
    → (test ≡ true → Yields P k)
    → Yields P (guard test e >> k)
guarded true e k h = h refl
guarded false e k h = λ b e'. cc

module _ {Status Log Envelope : Type 0} (L : Rlp Status Log Envelope) where
  -- A receipt with the bytes after its type, of a chain-specific type.
  abbrev WritesBack : ℕ → Bytes → DecodedReceipt Status Log Envelope → Type 0
  WritesBack tag body r = (tx_type L r ≡ tag) × (to_wire_bytes L r ≡ tag ∷ body)

  module _ (canonical : AreCanonical L) where
    arbitrum_lem :
        (tag : ℕ) (body : Bytes)
        → HasPlainStatus L body
        → Yields (WritesBack tag body) (decode_arbitrum L tag body)
    unfolding decode_arbitrum to_wire_bytes tx_type
    arbitrum_lem tag body plain = step _ (L.decode_receipt_body body) _ (λ receipt rest decoded.
        guarded (is_empty rest) _ _ (λ no_more r e. subst (WritesBack tag body) (ok-injective e) (
          refl,
          ap (λ b. tag ∷ b)
              (sym (
                plain.in_receipt receipt rest decoded
                ∙ ap (λ b. L.encode_receipt receipt ++ b) (empty_bytes rest no_more)
                ∙ append-nil (L.encode_receipt receipt))),
        )))

    nonce_and_version_lem :
        (p : Bytes)
        → Yields
            (λ (out : (Option ℕ × Option ℕ) × Bytes).
              p ≡ encode_nonce_and_version L out.0.0 out.0.1 ++ out.1)
            (nonce_and_version L p)
    unfolding nonce_and_version
    nonce_and_version_lem [] = λ out e.
        ap (λ (o : (Option ℕ × Option ℕ) × Bytes). encode_nonce_and_version L o.0.0 o.0.1 ++ o.1)
          (ok-injective e)
    nonce_and_version_lem (b ∷ bs) = step _ (L.decode_u64 (b ∷ bs)) _ (λ n p first.
        step _ (L.decode_u64 p) _ (λ v rest second out e.
          canonical.u64_canonical (b ∷ bs) n p first
          ∙ ap (λ q. L.encode_u64 n ++ q) (canonical.u64_canonical p v rest second)
          ∙ sym (append_assoc (L.encode_u64 n) (L.encode_u64 v) rest)
          ∙ ap
              (λ (o : (Option ℕ × Option ℕ) × Bytes). encode_nonce_and_version L o.0.0 o.0.1 ++ o.1)
              (ok-injective e)))

    -- A payload that is read whole is the payload of the receipt that it gives.
    abbrev IsPayloadOf : Bytes → DecodedReceipt Status Log Envelope → Type 0
    IsPayloadOf p r =
        (body : ReceiptWithBloom Status Log) × (n : Option ℕ) × (v : Option ℕ) × (r
          ≡ op_deposit body n v)
        × (p ≡ deposit_payload L body n v)

    deposit_fields_lem :
        (p : Bytes)
        → IsCanonicalAt L.encode_status L.decode_status p
        → Yields (IsPayloadOf p) (deposit_fields L p)
    unfolding deposit_fields deposit_payload
    deposit_fields_lem p plain = step _ (L.decode_status p) _ (λ status p₁ e₁.
        step _ (L.decode_u64 p₁) _ (λ gas p₂ e₂. step _ (L.decode_bloom p₂) _ (λ bloom p₃ e₃.
          step _ (L.decode_logs p₃) _ (λ logs p₄ e₄.
            Yields->>= (nonce_and_version_lem p₄) (λ out e₅.
              guarded (is_empty out.1) _ _ (λ no_more r e. (
                _,
                out.0.0,
                out.0.1,
                sym (ok-injective e),
                plain status p₁ e₁
                    ∙ ap (λ q. L.encode_status status ++ q)
                        (canonical.u64_canonical p₁ gas p₂ e₂
                          ∙ ap (λ q. L.encode_u64 gas ++ q)
                              (canonical.bloom_canonical p₂ bloom p₃ e₃
                                ∙ ap (λ q. L.encode_bloom bloom ++ q)
                                    (canonical.logs_canonical p₃ logs p₄ e₄
                                      ∙ ap (λ q. L.encode_logs logs ++ q)
                                          (e₅ ∙ whole _ out.1 no_more)))),
              )))))))

    op_deposit_lem :
        (body : Bytes)
        → HasPlainStatus L body
        → Yields (WritesBack op_deposit_tx_type body) (decode_op_deposit L body)
    unfolding decode_op_deposit to_wire_bytes tx_type
    op_deposit_lem body plain = step _ (L.decode_header body) _ (λ header buf decoded.
        guarded header.0 _ _ (λ list. guarded (length buf == header.1) _ _ (λ size r e.
          let (receipt, n, v, is_deposit, payload) =
            deposit_fields_lem buf (plain.in_payload header buf decoded) r e in
          subst (WritesBack op_deposit_tx_type body) (sym is_deposit) (
            refl,
            ap (λ b. op_deposit_tx_type ∷ b)
                (sym (
                  canonical.header_canonical body header.1 buf
                    (decoded ∙ ap (λ l. ok ((l, header.1), buf)) list)
                  ∙ ap (λ k. L.encode_header true k ++ buf) (sym ((==_iff _ _).0 size))
                  ∙ ap (λ b. L.encode_header true (length b) ++ b) payload)),
          ))))

    abbrev pub IsEthereum : DecodedReceipt Status Log Envelope → Type 0
    IsEthereum r = (env : Envelope) × (r ≡ ethereum env)

    -- The tag of an Ethereum receipt, or a chain-specific tag, whose receipt writes the bytes back.
    abbrev pub IsAdmitted : ℕ → Bytes → DecodedReceipt Status Log Envelope → Type 0
    IsAdmitted tag body r =
        (IsEthereum r × ((tag ≤ 4) ⊎ (128 ≤ tag)))
        ⊎ ((((100 ≤ tag) × (tag ≤ 106)) ⊎ (tag ≡ 126)) × WritesBack tag body r)

    ethereum_lem :
        (tag : ℕ) (body : Bytes) (m : Outcome String (Envelope × Bytes))
        → (tag ≤ 4) ⊎ (128 ≤ tag)
        → Yields (IsAdmitted tag body) (as_ethereum L m)
    ethereum_lem tag body (ok (env, rest)) h = λ r e. inl ((env, sym (ok-injective e)), h)
    ethereum_lem tag body (err failure) h = λ r e. cc
    ethereum_lem tag body panic h = λ r e. cc

    decode_tagged_lem :
        (tag : ℕ) (body : Bytes)
        → HasPlainStatus L body
        → Yields (IsAdmitted tag body) (decode_tagged L tag body)
    unfolding decode_tagged
    decode_tagged_lem tag body plain = elim (Bool-cases (leb 128 tag)) [
      | inl legacy ↦ rw legacy (ethereum_lem tag body _ (inr (leb→le 128 tag legacy)))
      | inr low ↦ elim (Bool-cases (leb 100 tag && leb tag 106)) [
        | inl nitro ↦
            rw (low, nitro)
              (λ r e. inr (inl (arbitrum_range tag nitro), arbitrum_lem tag body plain r e))
        | inr other ↦ elim (Bool-cases (tag == 126)) [
          | inl deposit ↦
              rw (low, other, deposit)
                (λ r e.
                  let same = (==_iff tag 126).0 deposit in
                  inr (
                    inr same,
                    subst (λ t. WritesBack t body r) (sym same) (op_deposit_lem body plain r e),
                  ))
          | inr unknown ↦ elim (Bool-cases (leb tag 4)) [
            | inl typed ↦
                rw (low, other, unknown, typed) (ethereum_lem tag body _ (inl (leb→le tag 4 typed)))
            | inr refused ↦ rw (low, other, unknown, refused) (λ r e. cc)
          ]
        ]
      ]
    ]

    -- A receipt decodes only from bytes that start with an admitted tag: up to 4, from 128 on, from 100 to
    -- 106, or 126. A receipt that is not an Ethereum receipt has that tag as its type, and writes back
    -- exactly the bytes that it was decoded from, if the status after the tag is spelled as the encoder
    -- writes it.
    pub to_wire_bytes-decode_receipt :
        (index : ℕ) (raw : Bytes) (r : DecodedReceipt Status Log Envelope)
        → HasPlainStatus L (drop 1 raw)
        → decode_receipt L index raw ≡ ok r
        → (tag : ℕ) × (body : Bytes) × (raw ≡ tag ∷ body)
          × ((IsEthereum r × ((tag ≤ 4) ⊎ (128 ≤ tag)))
              ⊎ ((((100 ≤ tag) × (tag ≤ 106)) ⊎ (tag ≡ 126))
                  × ((tx_type L r ≡ tag) × (to_wire_bytes L r ≡ raw))))
    unfolding decode_receipt
    to_wire_bytes-decode_receipt index [] r plain e = cc
    to_wire_bytes-decode_receipt index (tag ∷ body) r plain e = (
      tag,
      body,
      refl,
      decode_tagged_lem tag body plain r
          (map_err-ok (receipt_decode index) (decode_tagged L tag body) e),
    )
