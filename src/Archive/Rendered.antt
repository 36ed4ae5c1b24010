-- ===== src/Archive/Rendered.antt =====
-- The block of the execution JSON-RPC that renders a header, and what `raw_block_to_alloy_header`
-- (src/sources/archive_rpc.rs) reads of it.
use Prim.Native.String.{len, ◌++◌ as ◌<+>◌}
use eth_historian.Base.{
  Bool-cases, subst, ◌+◌, ℕ, zero, suc, ◌-◌, ◌*◌, ◌%◌, ◌≤◌, ◌<◌, ◌≡◌, refl, sym, ap, ◌∙◌, ◌⊎◌, inl,
  inr, String, le→leb, lower_hex, ==_iff, [], ◌∷◌, ◌++◌, reverse, replicate, length, Option, none,
  some, Outcome, ok, Bytes, from_le_bytes, arith, ◌==◌,
}
use mathlib.Core.List.{reverse-append}
use eth_historian.Errors.{Error}
use eth_historian.Types.Header.{Header}
use eth_historian.Archive.Text.{
  trim_0x, from_be_bytes, of_size, parse_b256, parse_u64, parse_u256, parse_addr, parse_bytes,
  parse_bloom, parse_b64,
}
use eth_historian.Archive.RawBlock.{RawBlock, transpose, raw_block_to_alloy_header}
use eth_historian.Archive.Bounds.{IsU64, HasSize, IsOptional, InRange}
use eth_historian.Archive.Quantity.{parse_u64-lower_hex}

-- Zeros in front of a big-endian number.
AreZeros : Bytes → Type 0
AreZeros [] = Unit
AreZeros (b ∷ bs) = (b ≡ 0) × AreZeros bs

AreZeros-append : (xs ys : Bytes) → AreZeros xs → AreZeros ys → AreZeros (xs ++ ys)
unfolding AreZeros
AreZeros-append [] ys h h' = h'
AreZeros-append (x ∷ xs) ys (z, rest) h' = (z, AreZeros-append xs ys rest h')

AreZeros-reverse : (xs : Bytes) → AreZeros xs → AreZeros (reverse xs)
unfolding AreZeros
AreZeros-reverse [] h = tt
AreZeros-reverse (x ∷ xs) (z, rest) =
    subst AreZeros (sym (reverse-append (x ∷ []) xs))
      (AreZeros-append (reverse xs) (x ∷ []) (AreZeros-reverse xs rest) (z, tt))

AreZeros-replicate : (n : ℕ) → AreZeros (replicate n 0)
unfolding AreZeros
AreZeros-replicate zero = tt
AreZeros-replicate (suc n) = (refl, AreZeros-replicate n)

high_zeros : (xs zs : Bytes) → AreZeros zs → from_le_bytes (xs ++ zs) ≡ from_le_bytes xs
unfolding from_le_bytes AreZeros
high_zeros [] [] h = refl
high_zeros [] (z ∷ zs) (e, rest) = omega (arith, e, high_zeros [] zs rest)
high_zeros (x ∷ xs) zs h = ap (λ n. x + 256 * n) (high_zeros xs zs h)

padded_value :
    (k : ℕ) (bytes : Bytes) → from_be_bytes (replicate k 0 ++ bytes) ≡ from_be_bytes bytes
padded_value k bytes =
    ap from_le_bytes (reverse-append (replicate k 0) bytes)
    ∙ high_zeros (reverse bytes) (reverse (replicate k 0))
        (AreZeros-reverse (replicate k 0) (AreZeros-replicate k))

-- The two text forms: a number in hexadecimal without leading zeros, and bytes.
abbrev pub quantity : ℕ → String
quantity n = "0x" <+> lower_hex n

module _ (encode : Bytes → String) where
  abbrev pub bytes_text : Bytes → String
  bytes_text bytes = "0x" <+> encode bytes

  abbrev rendered_option : {A : Type 0} → (A → String) → Option A → Option String
  rendered_option text none = none
  rendered_option text (some a) = some (text a)

  -- The fields under the names that the JSON-RPC gives them; the parameters are the block's hash and the
  -- digits of the difficulty.
  abbrev pub rendered : String → String → Header → RawBlock
  rendered hash digits h = record {
    number = quantity h.number;
    hash = hash;
    parent_hash = bytes_text h.parent_hash;
    uncles_hash = bytes_text h.ommers_hash;
    miner = bytes_text h.beneficiary;
    state_root = bytes_text h.state_root;
    transactions_root = bytes_text h.transactions_root;
    receipts_root = bytes_text h.receipts_root;
    logs_bloom = bytes_text h.logs_bloom;
    difficulty = "0x" <+> digits;
    gas_limit = quantity h.gas_limit;
    gas_used = quantity h.gas_used;
    timestamp = quantity h.timestamp;
    extra_data = bytes_text h.extra_data;
    mix_hash = bytes_text h.mix_hash;
    nonce = bytes_text h.nonce;
    base_fee_per_gas = rendered_option quantity h.base_fee_per_gas;
    withdrawals_root = rendered_option bytes_text h.withdrawals_root;
    blob_gas_used = rendered_option quantity h.blob_gas_used;
    excess_blob_gas = rendered_option quantity h.excess_blob_gas;
    parent_beacon_block_root = rendered_option bytes_text h.parent_beacon_block_root;
  }

module _ (encode : Bytes → String) (decode : String → Outcome String Bytes) where
  -- What the crate `hex` promises of some bytes: their text is read back, also where "0x" stands in front.
  abbrev pub Reads : Bytes → Type 0
  Reads bytes = decode (trim_0x ("0x" <+> encode bytes)) ≡ ok bytes

  -- The same of the bytes of a header.
  abbrev pub ReadsHeader : Header → Type 0
  ReadsHeader h =
      Reads h.parent_hash
      × Reads h.ommers_hash
      × Reads h.beneficiary
      × Reads h.state_root
      × Reads h.transactions_root
      × Reads h.receipts_root
      × Reads h.logs_bloom
      × Reads h.extra_data
      × Reads h.mix_hash
      × Reads h.nonce
      × IsOptional Reads h.withdrawals_root
      × IsOptional Reads h.parent_beacon_block_root

  -- Digits of a 256-bit number, at least one, of which an odd number wants a zero in front to be bytes.
  abbrev pub Denote : String → ℕ → Type 0
  Denote digits n =
      (bytes : Bytes) × (n ≡ from_be_bytes bytes)
      × (length bytes ≤ 32)
      × (0 < len digits)
      × (trim_0x ("0x" <+> digits) ≡ digits)
      × (((len digits % 2 ≡ 0) × (decode digits ≡ ok bytes))
          ⊎ ((len digits % 2 ≡ 1) × (decode ("0" <+> digits) ≡ ok bytes)))

  sized_lem :
      (n : ℕ) (expected : String) (bytes : Bytes)
      → HasSize n bytes
      → of_size n expected bytes ≡ ok bytes
  sized_lem n expected bytes h = rw ((==_iff (length bytes) n).1 h) refl

  b256_lem :
      (b : Bytes) (field : String)
      → HasSize 32 b
      → Reads b
      → parse_b256 decode (bytes_text encode b) field ≡ ok b
  unfolding parse_b256
  b256_lem b field size reads = rw reads (sized_lem 32 _ b size)

  addr_lem : (b : Bytes) → HasSize 20 b → Reads b → parse_addr decode (bytes_text encode b) ≡ ok b
  unfolding parse_addr
  addr_lem b size reads = rw reads (sized_lem 20 _ b size)

  bloom_lem :
      (b : Bytes) → HasSize 256 b → Reads b → parse_bloom decode (bytes_text encode b) ≡ ok b
  unfolding parse_bloom
  bloom_lem b size reads = rw reads (sized_lem 256 _ b size)

  b64_lem : (b : Bytes) → HasSize 8 b → Reads b → parse_b64 decode (bytes_text encode b) ≡ ok b
  unfolding parse_b64
  b64_lem b size reads = rw reads (sized_lem 8 _ b size)

  bytes_lem : (b : Bytes) → Reads b → parse_bytes decode (bytes_text encode b) ≡ ok b
  unfolding parse_bytes
  bytes_lem b reads = rw reads refl

  u256_lem :
      (digits : String) (n : ℕ) → Denote digits n → parse_u256 decode ("0x" <+> digits) ≡ ok n
  unfolding parse_u256
  u256_lem digits n (bytes, value, short, some_digit, plain, parity) =
      rw plain (elim (Bool-cases (len digits == 0)) [
        | inl empty ↦
            let no_digit : len digits ≡ 0 = (==_iff (len digits) 0).0 empty in
            absurd (omega (arith, no_digit, some_digit))
        | inr full ↦
            let same = ap ok (padded_value (32 - length bytes) bytes ∙ sym value) in
            elim parity [
              | inl (even, reads) ↦ rw (full, even, reads, le→leb (length bytes) 32 short) same
              | inr (odd, reads) ↦ rw (full, odd, reads, le→leb (length bytes) 32 short) same
            ]
      ])

  optional_lem :
      {A : Type 0} (P : A → Type 0) (text : A → String) (parse : String → Outcome Error A)
      → ((a : A) → P a → parse (text a) ≡ ok a)
      → (o : Option A) → IsOptional P o
      → transpose parse (rendered_option encode text o) ≡ ok o
  optional_lem P text parse h none p = refl
  optional_lem P text parse h (some a) p = rw (h a p) refl

  u64_option :
      (field : String) (o : Option ℕ)
      → IsOptional IsU64 o
      → transpose (λ s. parse_u64 s field) (rendered_option encode quantity o) ≡ ok o
  u64_option field o p =
      optional_lem IsU64 quantity (λ s. parse_u64 s field) (λ n h. parse_u64-lower_hex n field h) o
        p

  b256_option :
      (field : String) (o : Option Bytes)
      → IsOptional (HasSize 32) o
      → IsOptional Reads o
      → transpose (λ s. parse_b256 decode s field) (rendered_option encode (bytes_text encode) o)
        ≡ ok o
  b256_option field none p q = refl
  b256_option field (some b) p q = rw (b256_lem b field p q) refl

  -- The block that renders a header within its types is read back as the header without its requests hash,
  -- which is lost: every other field is read from the text of its own name. The difficulty may have any
  -- digits that denote it, and the hash that the block states is not read.
  pub raw_block_to_alloy_header-rendered :
      (hash digits : String) (h : Header)
      → InRange h
      → ReadsHeader h
      → Denote digits h.difficulty
      → raw_block_to_alloy_header decode (rendered encode hash digits h)
        ≡ ok (record h { requests_hash = none })
  unfolding raw_block_to_alloy_header
  raw_block_to_alloy_header-rendered hash digits h
        (s1, s2, s3, s4, s5, s6, s7, s8, s9, s10, s11, s12, s13, s14, s15, s16, s17, s18, s19)
        (r1, r2, r3, r4, r5, r6, r7, r8, r9, r10, r11, r12) difficulty =
      rw
        (
          b256_lem h.parent_hash "parent_hash" s1 r1,
          b256_lem h.ommers_hash "uncles_hash" s2 r2,
          addr_lem h.beneficiary s3 r3,
          b256_lem h.state_root "state_root" s4 r4,
          b256_lem h.transactions_root "transactions_root" s5 r5,
          b256_lem h.receipts_root "receipts_root" s6 r6,
          bloom_lem h.logs_bloom s7 r7,
          u256_lem digits h.difficulty difficulty,
          parse_u64-lower_hex h.number "number" s9,
          parse_u64-lower_hex h.gas_limit "gas_limit" s10,
          parse_u64-lower_hex h.gas_used "gas_used" s11,
          parse_u64-lower_hex h.timestamp "timestamp" s12,
          bytes_lem h.extra_data r8,
          b256_lem h.mix_hash "mix_hash" s13 r9,
          b64_lem h.nonce s14 r10,
          u64_option "base_fee_per_gas" h.base_fee_per_gas s15,
          b256_option "withdrawals_root" h.withdrawals_root s16 r11,
          u64_option "blob_gas_used" h.blob_gas_used s17,
          u64_option "excess_blob_gas" h.excess_blob_gas s18,
          b256_option "parent_beacon_block_root" h.parent_beacon_block_root s19 r12,
        )
        refl
