-- ===== src/Portal/Beacon.antt =====
-- src/sources/portal_beacon.rs: the latest historical summaries from the beacon network. The SSZ decoder and
-- the clock are parameters. The message leaves out the decoder's error.
use Prim.Native.String.{◌++◌ as ◌<+>◌}
use eth_historian.Base.{
  ℕ, ◌+◌, ◌-◌, ◌*◌, ◌/◌, ◌%◌, ◌≤◌, ◌<◌, ◌≡◌, sym, refl, ap, ap₂, ◌∙◌, List, ◌∷◌, Option, none, some,
  Outcome, ok, err, ok_or, display_int, map_err, map_err-ok, ◌>>=◌, >>=-eq-ok, ok-injective,
  display, Bytes, to_le_bytes, arith, String,
}
use eth_historian.Errors.{Error, data_source, hex, ssz_decode}
use eth_historian.Types.Network.{mainnet_beacon_genesis_timestamp, slots_per_epoch}
use eth_historian.Types.Summaries.{HistoricalSummary, HistoricalSummariesWithProof}
use eth_historian.Fork.{hex_encode}
use eth_historian.Archive.Text.{trim_0x}
use eth_historian.Portal.{PortalClient, GetContentResult, JsonRpcResponse}
use eth_historian.Archive.Source.{JsonRpcError}

abbrev pub selector_historical_summaries_with_proof : ℕ
selector_historical_summaries_with_proof = 0x14

abbrev pub seconds_per_slot : ℕ
seconds_per_slot = 12

-- The content key of an epoch's summaries.
unfoldable pub summaries_key : ℕ → Bytes
summaries_key epoch = selector_historical_summaries_with_proof ∷ to_le_bytes 8 epoch

unfoldable pub get_content : PortalClient → Bytes → Outcome Error Bytes
unfolding hex_encode trim_0x
get_content client content_key = do
  let key_hex = hex_encode client.encode content_key
  parsed ← client.post key_hex
  result ← elim parsed.error [
    | some failure ↦ err (
        data_source
          ("Portal beacon RPC error " <+> display_int failure.code <+> ": " <+> failure.message))
    | none ↦ ok_or parsed.result (data_source ("Portal beacon returned no result for " <+> key_hex))
  ]
  map_err hex (client.decode (trim_0x result.content))

-- `duration_since(UNIX_EPOCH).map(..).unwrap_or(genesis)`: the clock may be before 1970.
abbrev pub now_or_genesis : Option ℕ → ℕ
now_or_genesis none = mainnet_beacon_genesis_timestamp
now_or_genesis (some secs) = secs

-- `saturating_sub` is the subtraction of natural numbers.
unfoldable pub current_beacon_epoch : Option ℕ → ℕ
current_beacon_epoch clock =
    let elapsed = now_or_genesis clock - mainnet_beacon_genesis_timestamp in
    let slot = elapsed / seconds_per_slot in slot / slots_per_epoch

unfoldable pub current_historical_summaries_epoch : Option ℕ → ℕ
unfolding current_beacon_epoch
current_historical_summaries_epoch clock = current_beacon_epoch clock / 256 * 256

module _ (from_ssz_bytes : Bytes → Outcome String HistoricalSummariesWithProof) where
  unfoldable pub fetch_historical_summaries_with_proof :
      PortalClient → ℕ → Outcome Error HistoricalSummariesWithProof
  unfolding get_content summaries_key
  fetch_historical_summaries_with_proof client epoch = do
    bytes ← get_content client (summaries_key epoch)
    map_err (λ e. ssz_decode 0 ("HistoricalSummariesWithProof at epoch " <+> display epoch))
        (from_ssz_bytes bytes)

  unfoldable pub fetch_latest_historical_summaries :
      Option ℕ → PortalClient → Outcome Error (List HistoricalSummary)
  unfolding fetch_historical_summaries_with_proof current_historical_summaries_epoch
  fetch_latest_historical_summaries clock client = do
    let epoch = current_historical_summaries_epoch clock
    with_proof ← fetch_historical_summaries_with_proof client epoch
    ok with_proof.historical_summaries

-- The time since the genesis of the beacon chain in seconds; a clock before genesis counts as genesis.
abbrev pub seconds_since_genesis : Option ℕ → ℕ
seconds_since_genesis none = 0
seconds_since_genesis (some secs) = secs - 1606824023

-- 32 slots of 12 seconds are 384 seconds.
epoch_bounds :
    (clock : Option ℕ)
    → (current_historical_summaries_epoch clock % 256 ≡ 0)
      × (current_historical_summaries_epoch clock * 384 ≤ seconds_since_genesis clock)
      × (seconds_since_genesis clock < (current_historical_summaries_epoch clock + 256) * 384)
unfolding current_historical_summaries_epoch current_beacon_epoch
epoch_bounds none = (omega arith, omega arith, omega arith)
epoch_bounds (some secs) = (omega arith, omega arith, omega arith)

-- The client posts the key in hexadecimal, and answers with the content, in hexadecimal, of the bytes.
abbrev pub Gives : PortalClient → Bytes → Bytes → Type 0
Gives client key bytes =
    (result : GetContentResult) × (client.post ("0x" <+> client.encode key)
      ≡ ok (record { result = some result; error = none }))
    × (client.decode (trim_0x result.content) ≡ ok bytes)

abbrev answer : Option GetContentResult → Option JsonRpcError → JsonRpcResponse
answer result error = record { result = result; error = error }

-- The result that is read of a response without an error.
result_lem :
    (failed : JsonRpcError → Error) (missing : Error) (error : Option JsonRpcError)
    (result : Option GetContentResult) (content : GetContentResult)
    → elim error [ some failure ↦ err (failed failure) | none ↦ ok_or result missing ] ≡ ok content
    → (error ≡ none) × (result ≡ some content)
result_lem failed missing none (some given) content e = (refl, ap some (ok-injective e))
result_lem failed missing none none content e = cc
result_lem failed missing (some failure) result content e = cc

get_content_lem :
    (client : PortalClient) (key bytes : Bytes)
    → get_content client key ≡ ok bytes
    → Gives client key bytes
unfolding get_content hex_encode
get_content_lem client key bytes e =
    let posted = >>=-eq-ok (client.post ("0x" <+> client.encode key)) _ e in
    let read =
      >>=-eq-ok _
        (λ (result : GetContentResult). map_err hex (client.decode (trim_0x result.content)))
        posted.2 in
    let (no_error, given) =
      result_lem
        (λ failure.
          data_source
            ("Portal beacon RPC error " <+> display_int failure.code <+> ": " <+> failure.message))
        (data_source ("Portal beacon returned no result for " <+> hex_encode client.encode key))
        posted.0.error posted.0.result read.0 read.1 in
    (
      read.0,
      posted.1 ∙ ap ok (ap₂ answer given no_error),
      map_err-ok hex (client.decode (trim_0x read.0.content)) read.2,
    )

module _ (from_ssz_bytes : Bytes → Outcome String HistoricalSummariesWithProof) where
  abbrev after_bytes : ℕ → Bytes → Outcome Error HistoricalSummariesWithProof
  after_bytes epoch bytes =
      map_err (λ e. ssz_decode 0 ("HistoricalSummariesWithProof at epoch " <+> display epoch))
        (from_ssz_bytes bytes)

  -- The latest summaries are those of the content that the client gives for the key of one epoch, the byte 20
  -- and the epoch in 8 bytes: a multiple of 256, which has begun at the clock's time, and whose period
  -- of 256 epochs of 384 seconds has not ended; the proof that comes with them is dropped.
  pub fetch_latest_historical_summaries_lem :
      (clock : Option ℕ) (client : PortalClient) (summaries : List HistoricalSummary)
      → fetch_latest_historical_summaries from_ssz_bytes clock client ≡ ok summaries
      → (epoch : ℕ) × (bytes : Bytes) × (with_proof : HistoricalSummariesWithProof) × (epoch % 256
          ≡ 0)
        × (epoch * 384 ≤ seconds_since_genesis clock)
        × (seconds_since_genesis clock < (epoch + 256) * 384)
        × Gives client (20 ∷ to_le_bytes 8 epoch) bytes
        × (from_ssz_bytes bytes ≡ ok with_proof)
        × (summaries ≡ with_proof.historical_summaries)
  unfolding fetch_latest_historical_summaries summaries_key
  fetch_latest_historical_summaries_lem clock client summaries h =
      let epoch = current_historical_summaries_epoch clock in
      let found =
        >>=-eq-ok (fetch_historical_summaries_with_proof from_ssz_bytes client epoch)
          (λ (w : HistoricalSummariesWithProof). ok w.historical_summaries) h in
      let content =
        >>=-eq-ok (get_content client (summaries_key epoch)) (after_bytes epoch) found.1 in
      let bounds = epoch_bounds clock in
      (
        epoch,
        content.0,
        found.0,
        bounds.0,
        bounds.1,
        bounds.2,
        get_content_lem client (summaries_key epoch) content.0 content.1,
        map_err-ok _ (from_ssz_bytes content.0) content.2,
        sym (ok-injective found.2),
      )
