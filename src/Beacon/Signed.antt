-- ===== src/Beacon/Signed.antt =====
-- `from_ssz_bytes`, `from_block`, `slot` and `execution_block_number` of the beacon blocks
-- (src/portal_types/consensus/body.rs and beacon_block.rs). The decoders that `ssz_derive` generates, and
-- the split of a signed block's bytes by the crate `ssz`, are the parameter `BlockSsz`.
use eth_historian.Base.{
  ℕ, ◌≡◌, refl, sym, ap, ◌∙◌, Outcome, ok, ◌>>=◌, >>=-eq-ok, ok-injective, Bytes,
}
use eth_historian.Fork.{ForkName, bellatrix, capella, deneb, electra}
use eth_historian.Types.Codec.{DecodeError}
use eth_historian.Beacon.Operations.{BlsSignature}
use eth_historian.Beacon.Body.{
  BeaconBlockBodyBellatrix, BeaconBlockBodyCapella, BeaconBlockBodyDeneb, BeaconBlockBodyElectra,
}
use eth_historian.Beacon.Block.{
  BeaconBlockBellatrix, BeaconBlockCapella, BeaconBlockDeneb, BeaconBlockElectra, BeaconBlock,
  bellatrix_block, capella_block, deneb_block, electra_block, SignedBeaconBlock, signed_bellatrix,
  signed_capella, signed_deneb, signed_electra,
}

pub data BeaconBlockBody : Type 0 where
  bellatrix_body : BeaconBlockBodyBellatrix → BeaconBlockBody
  capella_body : BeaconBlockBodyCapella → BeaconBlockBody
  deneb_body : BeaconBlockBodyDeneb → BeaconBlockBody
  electra_body : BeaconBlockBodyElectra → BeaconBlockBody

pub record BlockSsz : Type 0 where
  pub decode_bellatrix_body : Bytes → Outcome DecodeError BeaconBlockBodyBellatrix
  pub decode_capella_body : Bytes → Outcome DecodeError BeaconBlockBodyCapella
  pub decode_deneb_body : Bytes → Outcome DecodeError BeaconBlockBodyDeneb
  pub decode_electra_body : Bytes → Outcome DecodeError BeaconBlockBodyElectra
  pub decode_bellatrix_block : Bytes → Outcome DecodeError BeaconBlockBellatrix
  pub decode_capella_block : Bytes → Outcome DecodeError BeaconBlockCapella
  pub decode_deneb_block : Bytes → Outcome DecodeError BeaconBlockDeneb
  pub decode_electra_block : Bytes → Outcome DecodeError BeaconBlockElectra
  -- A decoder for a variable-length item and a signature: their bytes.
  pub block_and_signature : Bytes → Outcome DecodeError (Bytes × Bytes)
  pub decode_signature : Bytes → Outcome DecodeError BlsSignature

module _ (S : BlockSsz) where
  unfoldable pub body_from_ssz_bytes : Bytes → ForkName → Outcome DecodeError BeaconBlockBody
  body_from_ssz_bytes bytes bellatrix = do
    body ← S.decode_bellatrix_body bytes
    ok (bellatrix_body body)
  body_from_ssz_bytes bytes capella = do body ← S.decode_capella_body bytes; ok (capella_body body)
  body_from_ssz_bytes bytes deneb = do body ← S.decode_deneb_body bytes; ok (deneb_body body)
  body_from_ssz_bytes bytes electra = do body ← S.decode_electra_body bytes; ok (electra_body body)

  unfoldable pub block_from_ssz_bytes : Bytes → ForkName → Outcome DecodeError BeaconBlock
  block_from_ssz_bytes bytes bellatrix = do
    block ← S.decode_bellatrix_block bytes
    ok (bellatrix_block block)
  block_from_ssz_bytes bytes capella = do
    block ← S.decode_capella_block bytes
    ok (capella_block block)
  block_from_ssz_bytes bytes deneb = do block ← S.decode_deneb_block bytes; ok (deneb_block block)
  block_from_ssz_bytes bytes electra = do
    block ← S.decode_electra_block bytes
    ok (electra_block block)

unfoldable pub from_block : BeaconBlock → BlsSignature → SignedBeaconBlock
from_block (bellatrix_block message) signature =
    signed_bellatrix (record { message = message; signature = signature })
from_block (capella_block message) signature =
    signed_capella (record { message = message; signature = signature })
from_block (deneb_block message) signature =
    signed_deneb (record { message = message; signature = signature })
from_block (electra_block message) signature =
    signed_electra (record { message = message; signature = signature })

unfoldable pub slot : SignedBeaconBlock → ℕ
slot (signed_bellatrix block) = block.message.slot
slot (signed_capella block) = block.message.slot
slot (signed_deneb block) = block.message.slot
slot (signed_electra block) = block.message.slot

unfoldable pub execution_block_number : SignedBeaconBlock → ℕ
execution_block_number (signed_bellatrix block) = block.message.body.execution_payload.block_number
execution_block_number (signed_capella block) = block.message.body.execution_payload.block_number
execution_block_number (signed_deneb block) = block.message.body.execution_payload.block_number
execution_block_number (signed_electra block) = block.message.body.execution_payload.block_number

module _ (S : BlockSsz) where
  unfoldable pub signed_from_ssz_bytes_with :
      Bytes → (Bytes → Outcome DecodeError BeaconBlock) → Outcome DecodeError SignedBeaconBlock
  unfolding from_block
  signed_from_ssz_bytes_with bytes block_decoder = do
    (block_bytes, signature_bytes) ← S.block_and_signature bytes
    message ← block_decoder block_bytes
    signature ← S.decode_signature signature_bytes
    ok (from_block message signature)

  unfoldable pub signed_from_ssz_bytes : Bytes → ForkName → Outcome DecodeError SignedBeaconBlock
  unfolding signed_from_ssz_bytes_with block_from_ssz_bytes
  signed_from_ssz_bytes bytes fork_name =
      signed_from_ssz_bytes_with bytes (λ block_bytes. block_from_ssz_bytes S block_bytes fork_name)

-- The fork of a signed block.
abbrev pub fork_of : SignedBeaconBlock → ForkName
fork_of (signed_bellatrix block) = bellatrix
fork_of (signed_capella block) = capella
fork_of (signed_deneb block) = deneb
fork_of (signed_electra block) = electra

abbrev pub fork_of_block : BeaconBlock → ForkName
fork_of_block (bellatrix_block block) = bellatrix
fork_of_block (capella_block block) = capella
fork_of_block (deneb_block block) = deneb
fork_of_block (electra_block block) = electra

abbrev pub slot_of_block : BeaconBlock → ℕ
slot_of_block (bellatrix_block block) = block.slot
slot_of_block (capella_block block) = block.slot
slot_of_block (deneb_block block) = block.slot
slot_of_block (electra_block block) = block.slot

from_block_lem :
    (message : BeaconBlock) (signature : BlsSignature)
    → (fork_of (from_block message signature) ≡ fork_of_block message)
      × (slot (from_block message signature) ≡ slot_of_block message)
unfolding from_block slot
from_block_lem (bellatrix_block message) signature = (refl, refl)
from_block_lem (capella_block message) signature = (refl, refl)
from_block_lem (deneb_block message) signature = (refl, refl)
from_block_lem (electra_block message) signature = (refl, refl)

module _ (S : BlockSsz) where
  abbrev after_message : Bytes → BeaconBlock → Outcome DecodeError SignedBeaconBlock
  after_message bytes message =
      S.decode_signature bytes >>= λ signature. ok (from_block message signature)

  abbrev after_items : ForkName → Bytes × Bytes → Outcome DecodeError SignedBeaconBlock
  after_items fork items = block_from_ssz_bytes S items.0 fork >>= after_message items.1

  decoded_fork :
      (bytes : Bytes) (fork : ForkName) (message : BeaconBlock)
      → block_from_ssz_bytes S bytes fork ≡ ok message
      → fork_of_block message ≡ fork
  unfolding block_from_ssz_bytes
  decoded_fork bytes bellatrix message h =
      let (block, e, same) =
        >>=-eq-ok (S.decode_bellatrix_block bytes) (λ b. ok (bellatrix_block b)) h in
      ap fork_of_block (sym (ok-injective same))
  decoded_fork bytes capella message h =
      let (block, e, same) =
        >>=-eq-ok (S.decode_capella_block bytes) (λ b. ok (capella_block b)) h in
      ap fork_of_block (sym (ok-injective same))
  decoded_fork bytes deneb message h =
      let (block, e, same) = >>=-eq-ok (S.decode_deneb_block bytes) (λ b. ok (deneb_block b)) h in
      ap fork_of_block (sym (ok-injective same))
  decoded_fork bytes electra message h =
      let (block, e, same) =
        >>=-eq-ok (S.decode_electra_block bytes) (λ b. ok (electra_block b)) h in
      ap fork_of_block (sym (ok-injective same))

  -- A signed block that decodes for a fork is of that fork, and its slot is that of the block which the
  -- fork's decoder reads from the first of the two items.
  pub signed_from_ssz_bytes_lem :
      (bytes : Bytes) (fork : ForkName) (signed : SignedBeaconBlock)
      → signed_from_ssz_bytes S bytes fork ≡ ok signed
      → (fork_of signed ≡ fork)
        × ((items : Bytes × Bytes) × (message : BeaconBlock) × (S.block_and_signature bytes
              ≡ ok items)
            × (block_from_ssz_bytes S items.0 fork ≡ ok message)
            × (slot signed ≡ slot_of_block message))
  unfolding signed_from_ssz_bytes
  signed_from_ssz_bytes_lem bytes fork signed h =
      let items = >>=-eq-ok (S.block_and_signature bytes) (after_items fork) h in
      let message =
        >>=-eq-ok (block_from_ssz_bytes S items.0.0 fork) (after_message items.0.1) items.2 in
      let signature =
        >>=-eq-ok (S.decode_signature items.0.1) (λ s. ok (from_block message.0 s)) message.2 in
      let same = from_block_lem message.0 signature.0 in
      let e = ok-injective signature.2 in
      (
        ap fork_of (sym e) ∙ same.0 ∙ decoded_fork items.0.0 fork message.0 message.1,
        (items.0, message.0, items.1, message.1, ap slot (sym e) ∙ same.1),
      )
