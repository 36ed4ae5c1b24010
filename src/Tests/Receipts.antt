-- ===== src/Tests/Receipts.antt =====
-- Tests of receipts, with a codec in which a number is one byte and a list has its length in front.
use eth_historian.Base.{
  ℕ, zero, suc, replicate, >>=-eq-ok, ==_iff, ◌≤◌, ◌≡◌, ◌↔◌, ◌⊎◌, inl, inr, refl, sym, ap, ap₂, ◌∙◌,
  [], ◌∷◌, ◌++◌, append_assoc, String, Bool, Bool-cases, true, false, leb, leb→le, le→leb, ◌==◌,
  if◌then◌else◌, some, Outcome, ok, err, ◌>>=◌, ok-injective, length, length-take, length-append,
  take, drop, Bytes, arith,
}
use eth_historian.Api.{AuthPath, VerifiedBlock}
use eth_historian.Inclusion.Receipt.{
  ReceiptWithBloom, DecodedReceipt, op_deposit, Rlp, to_wire_bytes, tx_type, deposit_payload,
}
use eth_historian.Inclusion.Trie.{Trie}
use eth_historian.Inclusion.Decode.{decode_receipt, verify_and_decode_in_block}
use eth_historian.Inclusion.RoundTrip.{
  IsCanonical, AreCanonical, HasPlainStatus, IsEthereum, to_wire_bytes-decode_receipt,
}
use eth_historian.Inclusion.ReadBack.{
  IsReadBack, AreInverse, IsWellFormed, IsIncluded, decode_receipt-to_wire_bytes,
  verify_and_decode_in_block_iff,
}
use eth_historian.Tests.Data.{header_at}

abbrev number : ℕ → Bytes
number n = n ∷ []

abbrev read_number : Bytes → Outcome String (ℕ × Bytes)
read_number [] = err "empty"
read_number (b ∷ bs) = ok (b, bs)

abbrev blob : Bytes → Bytes
blob b = length b ∷ b

abbrev read_blob : Bytes → Outcome String (Bytes × Bytes)
read_blob [] = err "empty"
read_blob (n ∷ bs) = if leb n (length bs) then ok (take n bs, drop n bs) else err "short"

abbrev tag_of : Bool → ℕ
tag_of true = 1
tag_of false = 0

abbrev read_header : Bytes → Outcome String ((Bool × ℕ) × Bytes)
read_header (b ∷ n ∷ bs) =
    if b == 1 then ok ((true, n), bs) else if b == 0 then ok ((false, n), bs) else err "no header"
read_header _ = err "empty"

abbrev receipt_of : ℕ → ℕ → Bytes → Bytes → ReceiptWithBloom ℕ ℕ
receipt_of status gas bloom logs = record {
  receipt = record { status = status; cumulative_gas_used = gas; logs = logs };
  logs_bloom = bloom;
}

abbrev write_receipt : ReceiptWithBloom ℕ ℕ → Bytes
write_receipt r =
    r.receipt.status ∷ r.receipt.cumulative_gas_used ∷ (blob r.logs_bloom ++ blob r.receipt.logs)

abbrev read_receipt : Bytes → Outcome String (ReceiptWithBloom ℕ ℕ × Bytes)
read_receipt (status ∷ gas ∷ bs) = read_blob bs >>= λ bloom.
    read_blob bloom.1 >>= λ logs. ok (receipt_of status gas bloom.0 logs.0, logs.1)
read_receipt _ = err "empty"

abbrev prefixed : Rlp ℕ ℕ Bytes
prefixed = record {
  encode_u64 = number;
  decode_u64 = read_number;
  encode_status = number;
  decode_status = read_number;
  encode_bloom = blob;
  decode_bloom = read_blob;
  encode_logs = blob;
  decode_logs = read_blob;
  encode_header = λ list n. tag_of list ∷ n ∷ [];
  decode_header = read_header;
  encode_receipt = write_receipt;
  decode_receipt_body = read_receipt;
  encoded_2718 = λ env. env;
  decode_envelope = λ bytes. ok (bytes, []);
  decode_2718 = λ bytes. ok (bytes, []);
  envelope_logs = λ env. [];
  envelope_tx_type = λ env. 0;
  envelope_cumulative_gas_used = λ env. 0;
}

take-drop : (n : ℕ) (xs : Bytes) → take n xs ++ drop n xs ≡ xs
take-drop zero xs = refl
take-drop (suc n) [] = refl
take-drop (suc n) (x ∷ xs) = ap (λ r. x ∷ r) (take-drop n xs)

take-append : (xs ys : Bytes) → take (length xs) (xs ++ ys) ≡ xs
take-append [] ys = refl
take-append (x ∷ xs) ys = ap (λ r. x ∷ r) (take-append xs ys)

drop-append : (xs ys : Bytes) → drop (length xs) (xs ++ ys) ≡ ys
drop-append [] ys = refl
drop-append (x ∷ xs) ys = drop-append xs ys

number-IsCanonical : IsCanonical number read_number
number-IsCanonical [] a rest e = cc
number-IsCanonical (b ∷ bs) a rest e = cc

tested :
    {A : Type 0} (c : Bool) (x : A) (failure : String) {y : A}
    → (if c then ok x else err failure) ≡ ok y
    → (c ≡ true) × (x ≡ y)
tested true x failure e = (refl, ok-injective e)
tested false x failure e = cc

blob-IsCanonical : IsCanonical blob read_blob
blob-IsCanonical [] a rest e = cc
blob-IsCanonical (n ∷ bs) a rest e =
    let (fits, read) = tested (leb n (length bs)) (take n bs, drop n bs) "short" e in
    let size : length (take n bs) ≡ n = omega (arith, length-take n bs, leb→le _ _ fits) in
    ap₂ (λ m ys. m ∷ ys) (sym size) (sym (take-drop n bs))
    ∙ ap (λ (p : Bytes × Bytes). length p.0 ∷ (p.0 ++ p.1)) read

-- The two tests of a header's first byte.
header_of :
    (b n : ℕ) (bs : Bytes) (h : Bool × ℕ) (rest : Bytes)
    → read_header (b ∷ n ∷ bs) ≡ ok (h, rest)
    → b ∷ n ∷ bs ≡ tag_of h.0 ∷ h.1 ∷ rest
header_of b n bs h rest e = elim (Bool-cases (b == 1)) [
  | inl one ↦
      let same : ok ((true, n), bs) ≡ ok (h, rest) =
        sym (
          ap
            (λ c.
              if c
              then ok ((true, n), bs)
              else (if b == 0 then ok ((false, n), bs) else err "no header"))
            one)
        ∙ e in
      ap (λ k. k ∷ n ∷ bs) ((==_iff b 1).0 one)
      ∙ ap (λ (p : (Bool × ℕ) × Bytes). tag_of p.0.0 ∷ p.0.1 ∷ p.1) (ok-injective same)
  | inr other ↦
      let (zero_tag, read) =
        tested (b == 0) ((false, n), bs) "no header"
          (sym (
              ap
                (λ c.
                  if c
                  then ok ((true, n), bs)
                  else (if b == 0 then ok ((false, n), bs) else err "no header"))
                other)
            ∙ e) in
      ap (λ k. k ∷ n ∷ bs) ((==_iff b 0).0 zero_tag)
      ∙ ap (λ (p : (Bool × ℕ) × Bytes). tag_of p.0.0 ∷ p.0.1 ∷ p.1) read
]

header-IsCanonical : IsCanonical (λ (h : Bool × ℕ). tag_of h.0 ∷ h.1 ∷ []) read_header
header-IsCanonical [] h rest e = cc
header-IsCanonical (b ∷ []) h rest e = cc
header-IsCanonical (b ∷ n ∷ bs) h rest e = header_of b n bs h rest e

receipt-IsCanonical : IsCanonical write_receipt read_receipt
receipt-IsCanonical [] r rest e = cc
receipt-IsCanonical (b ∷ []) r rest e = cc
receipt-IsCanonical (status ∷ gas ∷ bs) r rest e =
    let (bloom, e₁, after) =
      >>=-eq-ok (read_blob bs)
        (λ bloom. read_blob bloom.1 >>= λ logs. ok (receipt_of status gas bloom.0 logs.0, logs.1))
        e in
    let (logs, e₂, done) =
      >>=-eq-ok (read_blob bloom.1) (λ logs. ok (receipt_of status gas bloom.0 logs.0, logs.1))
        after in
    ap (λ ys. status ∷ gas ∷ ys)
      (blob-IsCanonical bs bloom.0 bloom.1 e₁
        ∙ ap (λ ys. blob bloom.0 ++ ys) (blob-IsCanonical bloom.1 logs.0 logs.1 e₂)
        ∙ sym (append_assoc (blob bloom.0) (blob logs.0) logs.1))
    ∙ ap (λ (p : ReceiptWithBloom ℕ ℕ × Bytes). write_receipt p.0 ++ p.1) (ok-injective done)

prefixed-AreCanonical : AreCanonical prefixed
prefixed-AreCanonical = record {
  u64_canonical = number-IsCanonical;
  bloom_canonical = blob-IsCanonical;
  logs_canonical = blob-IsCanonical;
  header_canonical = λ b size rest e. header-IsCanonical b (true, size) rest e;
}

plain_status : (body : Bytes) → HasPlainStatus prefixed body
plain_status body = record {
  in_receipt = receipt-IsCanonical body;
  in_payload = λ header payload e. number-IsCanonical payload;
}

blob-IsReadBack : (a : Bytes) → IsReadBack blob read_blob a
blob-IsReadBack a rest =
    let fits : length a ≤ length (a ++ rest) = omega (arith, length-append a rest) in
    rw (le→leb _ _ fits, take-append a rest, drop-append a rest) refl

header_inverse :
    (list : Bool) (payload : Bytes)
    → read_header (tag_of list ∷ length payload ∷ payload) ≡ ok ((list, length payload), payload)
header_inverse true payload = refl
header_inverse false payload = refl

receipt-IsReadBack : (r : ReceiptWithBloom ℕ ℕ) → IsReadBack write_receipt read_receipt r
receipt-IsReadBack r rest =
    ap (λ bs. read_receipt (r.receipt.status ∷ r.receipt.cumulative_gas_used ∷ bs))
      (append_assoc (blob r.logs_bloom) (blob r.receipt.logs) rest)
    ∙ rw
        (
          blob-IsReadBack r.logs_bloom (blob r.receipt.logs ++ rest),
          blob-IsReadBack r.receipt.logs rest,
        )
        refl

prefixed-AreInverse : AreInverse prefixed
prefixed-AreInverse = record {
  u64_inverse = λ n h rest. refl;
  u64_nonempty = λ n e. cc;
  status_inverse = λ n rest. refl;
  bloom_inverse = λ bloom h. blob-IsReadBack bloom;
  logs_inverse = blob-IsReadBack;
  header_inverse = λ payload h. header_inverse true payload;
  receipt_inverse = λ r h. receipt-IsReadBack r;
}

abbrev deposit : DecodedReceipt ℕ ℕ Bytes
deposit = op_deposit (receipt_of 1 50 (9 ∷ 9 ∷ []) (7 ∷ [])) (some 3) (some 1)

abbrev deposit_bytes : Bytes
deposit_bytes = 126 ∷ 1 ∷ 9 ∷ 1 ∷ 50 ∷ 2 ∷ 9 ∷ 9 ∷ 1 ∷ 7 ∷ 3 ∷ 1 ∷ []

decodes : decode_receipt prefixed 0 deposit_bytes ≡ ok deposit
unfolding decode_receipt
decodes = refl

to_wire_bytes-decode_receipt_example :
    (tag : ℕ) × (body : Bytes) × (deposit_bytes ≡ tag ∷ body)
    × ((IsEthereum prefixed prefixed-AreCanonical deposit × ((tag ≤ 4) ⊎ (128 ≤ tag)))
        ⊎ ((((100 ≤ tag) × (tag ≤ 106)) ⊎ (tag ≡ 126))
            × ((tx_type prefixed deposit ≡ tag)
                × (to_wire_bytes prefixed deposit ≡ deposit_bytes))))
to_wire_bytes-decode_receipt_example =
    to_wire_bytes-decode_receipt prefixed prefixed-AreCanonical 0 deposit_bytes deposit
      (plain_status (drop 1 deposit_bytes)) decodes

-- A deposit receipt with a bloom of 256 bytes.
abbrev sized : ReceiptWithBloom ℕ ℕ
sized = receipt_of 1 50 (replicate 256 0) (7 ∷ [])

abbrev sized_deposit : DecodedReceipt ℕ ℕ Bytes
sized_deposit = op_deposit sized (some 3) (some 1)

sized_deposit-IsWellFormed : IsWellFormed prefixed sized_deposit
unfolding deposit_payload
sized_deposit-IsWellFormed = ((omega arith, refl), omega arith, omega arith, omega arith)

decode_receipt-to_wire_bytes_example :
    decode_receipt prefixed 0 (to_wire_bytes prefixed sized_deposit) ≡ ok sized_deposit
decode_receipt-to_wire_bytes_example =
    decode_receipt-to_wire_bytes prefixed prefixed-AreInverse 0 sized_deposit
      sized_deposit-IsWellFormed

-- A trie that accepts every value.
abbrev open_trie : Trie
open_trie = record { unpack = λ key. key; verify_proof = λ root key value nodes. ok tt }

abbrev verified : VerifiedBlock
verified = record { header = header_at 3 9; auth_path = AuthPath.historical_hashes }

verify_and_decode_in_block_iff_example :
    (verify_and_decode_in_block prefixed open_trie verified 0 deposit_bytes ((1 ∷ []) ∷ [])
      ≡ ok deposit)
    ↔ (IsIncluded prefixed open_trie verified.header.receipts_root 0 deposit_bytes ((1 ∷ []) ∷ [])
        × (decode_receipt prefixed 0 deposit_bytes ≡ ok deposit))
verify_and_decode_in_block_iff_example =
    verify_and_decode_in_block_iff prefixed open_trie verified 0 deposit_bytes ((1 ∷ []) ∷ [])
      deposit
