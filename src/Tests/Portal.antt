-- ===== src/Tests/Portal.antt =====
-- Tests of the Portal sources.
use eth_historian.Base.{
  to_le_bytes, ℕ, ◌+◌, ◌≤◌, ◌<◌, ◌*◌, ◌%◌, ◌≡◌, refl, List, [], ◌∷◌, none, some, String, Outcome,
  ok, Bytes,
}
use eth_historian.Types.Summaries.{HistoricalSummary, HistoricalSummariesWithProof}
use eth_historian.Portal.{PortalClient}
use eth_historian.Portal.Beacon.{
  seconds_since_genesis, Gives, fetch_latest_historical_summaries,
  fetch_latest_historical_summaries_lem,
}

abbrev client : PortalClient
client = record {
  post = λ key. ok (record { result = some (record { content = "0x01" }); error = none });
  encode = λ bytes. "14";
  decode = λ text. ok (1 ∷ []);
}

abbrev summaries : List HistoricalSummary
summaries = record { block_summary_root = 1 ∷ []; state_summary_root = 2 ∷ [] } ∷ []

abbrev decoded : HistoricalSummariesWithProof
decoded = record { epoch = 1; historical_summaries = summaries; proof = [] }

abbrev decoder : Bytes → Outcome String HistoricalSummariesWithProof
decoder bytes = ok decoded

-- An hour before 2024, in epoch 253000 or so.
latest : fetch_latest_historical_summaries decoder (some 1704063600) client ≡ ok summaries
unfolding fetch_latest_historical_summaries
latest = refl

fetch_latest_historical_summaries_lem_example :
    (epoch : ℕ) × (bytes : Bytes) × (with_proof : HistoricalSummariesWithProof) × (epoch % 256 ≡ 0)
    × (epoch * 384 ≤ seconds_since_genesis (some 1704063600))
    × (seconds_since_genesis (some 1704063600) < (epoch + 256) * 384)
    × Gives client (20 ∷ to_le_bytes 8 epoch) bytes
    × (decoder bytes ≡ ok with_proof)
    × (summaries ≡ with_proof.historical_summaries)
fetch_latest_historical_summaries_lem_example =
    fetch_latest_historical_summaries_lem decoder (some 1704063600) client summaries latest
