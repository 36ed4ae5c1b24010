-- ===== src/Beacon/Provider.antt =====
-- The trait `BeaconDataProvider` of src/sources/beacon_rpc.rs, and `BeaconRpcSource`, which implements it.
-- The HTTP client and the SSZ decoder of a beacon state are parameters.
use Prim.Native.String.{◌++◌ as ◌<+>◌}
use eth_historian.Base.{
  ◌≤◌, ◌≢◌, true, Bool-cases, inl, inr, sym, ap, ◌∙◌, arith, map_err-ok, ℕ, ◌≡◌, List, String, Bool,
  leb, ◌&&◌, if◌then◌else◌, display, Outcome, ok, err, map_err, ◌>>=◌, >>=-eq-ok, Bytes, B256,
}
use eth_historian.Errors.{Error, data_source, http}
use eth_historian.Fork.{ForkName}
use eth_historian.Beacon.{HistoricalBatch}
use eth_historian.Beacon.Block.{SignedBeaconBlock}
use eth_historian.Beacon.Signed.{
  BlockSsz, signed_from_ssz_bytes, fork_of, signed_from_ssz_bytes_lem,
}
use eth_historian.Beacon.Rpc.{fork_for_slot, fetch_historical_batch}

pub record BeaconDataProvider : Type 0 where
  pub fetch_signed_beacon_block : ℕ → Outcome Error SignedBeaconBlock
  pub fetch_historical_batch : ℕ → Outcome Error HistoricalBatch
  pub name : String

-- An HTTP response: its status, and its body, which may fail to arrive.
pub record Response : Type 0 where
  pub status : ℕ
  pub body : Outcome String Bytes

pub record BeaconRpcSource : Type 0 where
  pub base_url : String
  -- `client.get(url)` with the header for octets, and `send`.
  pub client : String → Outcome String Response

unfoldable pub is_success : ℕ → Bool
is_success status = leb 200 status && leb status 299

-- The rest of a request, after the response; the messages leave out the reason phrase.
unfoldable pub ssz_body : String → Response → Outcome Error Bytes
unfolding is_success
ssz_body what response =
    if is_success response.status
    then map_err http response.body
    else err (data_source (what <+> ": HTTP " <+> display response.status))

abbrev refused : String → Response → Outcome Error Bytes
refused what response = err (data_source (what <+> ": HTTP " <+> display response.status))

in_range : (status : ℕ) → is_success status ≡ true → (200 ≤ status) × (status ≤ 299)
unfolding is_success
in_range status h = ground arith

err-not_ok : {E A : Type 0} {e : E} {a : A} → err e ≢ ok a
err-not_ok h = cc

-- Only the body of a success is handed on.
ssz_body_lem :
    (what : String) (response : Response) (bytes : Bytes)
    → ssz_body what response ≡ ok bytes
    → (200 ≤ response.status) × (response.status ≤ 299) × (response.body ≡ ok bytes)
unfolding ssz_body is_success
ssz_body_lem what response bytes e = elim (Bool-cases (is_success response.status)) [
  | inl success ↦
      let range = in_range response.status success in
      (
        range.0,
        range.1,
        map_err-ok http response.body (
            sym (ap (λ c. if c then map_err http response.body else refused what response) success)
            ∙ e),
      )
  | inr failure ↦ absurd (
      err-not_ok (
        sym (ap (λ c. if c then map_err http response.body else refused what response) failure)
        ∙ e))
]

abbrev block_url : BeaconRpcSource → ℕ → String
block_url source slot = source.base_url <+> "/eth/v2/beacon/blocks/" <+> display slot

unfoldable pub fetch_block_ssz : BeaconRpcSource → ℕ → Outcome Error Bytes
unfolding ssz_body
fetch_block_ssz source slot = do
  res ← map_err http (source.client (source.base_url <+> "/eth/v2/beacon/blocks/" <+> display slot))
  ssz_body ("beacon block at slot " <+> display slot) res

unfoldable pub fetch_state_ssz : BeaconRpcSource → ℕ → Outcome Error Bytes
unfolding ssz_body
fetch_state_ssz source state_id = do
  res ←
      map_err http
        (source.client (source.base_url <+> "/eth/v2/debug/beacon/states/" <+> display state_id))
  ssz_body ("beacon state at slot " <+> display state_id) res

module _ (S : BlockSsz) where
  -- The message leaves out the fork and the decoder's error.
  unfoldable pub fetch_signed_beacon_block : BeaconRpcSource → ℕ → Outcome Error SignedBeaconBlock
  unfolding fetch_block_ssz fork_for_slot signed_from_ssz_bytes
  fetch_signed_beacon_block source slot = do
    bytes ← fetch_block_ssz source slot
    map_err (λ _. data_source ("decoding SignedBeaconBlock at slot " <+> display slot))
        (signed_from_ssz_bytes S bytes (fork_for_slot slot))

  abbrev after_block_bytes : ℕ → Bytes → Outcome Error SignedBeaconBlock
  after_block_bytes slot bytes =
      map_err (λ _. data_source ("decoding SignedBeaconBlock at slot " <+> display slot))
        (signed_from_ssz_bytes S bytes (fork_for_slot slot))

  -- A beacon block that is returned for a slot is of the slot's fork: it is the decoding, for that fork, of
  -- the body of the response to one request, which names the slot in decimal and whose status is from
  -- 200 to 299.
  pub fetch_signed_beacon_block_lem :
      (source : BeaconRpcSource) (slot : ℕ) (block : SignedBeaconBlock)
      → fetch_signed_beacon_block source slot ≡ ok block
      → (response : Response) × (bytes : Bytes) × (fork_of block ≡ fork_for_slot slot)
        × (source.client (source.base_url <+> "/eth/v2/beacon/blocks/" <+> display slot)
            ≡ ok response)
        × (200 ≤ response.status)
        × (response.status ≤ 299)
        × (response.body ≡ ok bytes)
        × (signed_from_ssz_bytes S bytes (fork_for_slot slot) ≡ ok block)
  unfolding fetch_signed_beacon_block fetch_block_ssz
  fetch_signed_beacon_block_lem source slot block e =
      let found = >>=-eq-ok (fetch_block_ssz source slot) (after_block_bytes slot) e in
      let parsed = map_err-ok _ (signed_from_ssz_bytes S found.0 (fork_for_slot slot)) found.2 in
      let sent =
        >>=-eq-ok (map_err http (source.client (block_url source slot)))
          (ssz_body ("beacon block at slot " <+> display slot)) found.1 in
      let body = ssz_body_lem ("beacon block at slot " <+> display slot) sent.0 found.0 sent.2 in
      (
        sent.0,
        found.0,
        (signed_from_ssz_bytes_lem S found.0 (fork_for_slot slot) block parsed).0,
        map_err-ok http (source.client (block_url source slot)) sent.1,
        body.0,
        body.1,
        body.2,
        parsed,
      )

module _ (S : BlockSsz) {State : Type 0} (from_ssz_bytes : Bytes → ForkName → Outcome String State)
    (block_roots state_roots : State → List B256) where
  -- `BeaconRpcSource` as a provider.
  unfoldable pub beacon_data_provider : BeaconRpcSource → BeaconDataProvider
  unfolding fetch_signed_beacon_block fetch_historical_batch fetch_state_ssz
  beacon_data_provider source = record {
    fetch_signed_beacon_block = fetch_signed_beacon_block S source;
    fetch_historical_batch =
        fetch_historical_batch (fetch_state_ssz source) from_ssz_bytes block_roots state_roots;
    name = "BeaconRpcSource";
  }
