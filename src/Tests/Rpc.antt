-- ===== src/Tests/Rpc.antt =====
-- Tests of the beacon RPC source.
use eth_historian.Base.{
  ℕ, ◌+◌, ◌/◌, ◌≤◌, ◌<◌, ◌≡◌, refl, ◌↔◌, List, [], ◌∷◌, String, none, Outcome, ok, Bytes, B256,
}
use eth_historian.Errors.{Error}
use eth_historian.Types.Summaries.{historical_summary_index}
use eth_historian.Fork.{ForkName, bellatrix, capella, deneb, electra}
use eth_historian.Beacon.{HistoricalBatch}
use eth_historian.Beacon.Rpc.{
  fork_for_slot, fetch_historical_batch, fork_for_slot_iff, fetch_historical_batch_lem,
}

fork_for_slot_iff_example :
    ((fork_for_slot 6209536 ≡ bellatrix) ↔ (historical_summary_index 6209536 ≡ none))
    × ((fork_for_slot 6209536 ≡ capella) ↔ ((6209536 ≤ 6209536) × (6209536 < 8626176)))
    × ((fork_for_slot 6209536 ≡ deneb) ↔ ((8626176 ≤ 6209536) × (6209536 < 11649024)))
    × ((fork_for_slot 6209536 ≡ electra) ↔ (11649024 ≤ 6209536))
fork_for_slot_iff_example = fork_for_slot_iff 6209536

-- A node that answers with the slot, and a state that is its slot.
abbrev answer : ℕ → Outcome Error Bytes
answer slot = ok (slot ∷ [])

abbrev decode : Bytes → ForkName → Outcome String Bytes
decode bytes fork = ok bytes

abbrev as_roots : Bytes → List B256
as_roots bytes = bytes ∷ []

abbrev fetched : HistoricalBatch
fetched = record { block_roots = (16383 ∷ []) ∷ []; state_roots = (16383 ∷ []) ∷ [] }

fetches : fetch_historical_batch answer decode as_roots as_roots 9000 ≡ ok fetched
unfolding fetch_historical_batch
fetches = refl

fetch_historical_batch_lem_example :
    (last : ℕ) × (bytes : Bytes) × (state : Bytes) × (9000 ≤ last)
    × (last < 9000 + 8192)
    × (last / 8192 ≡ 9000 / 8192)
    × (9000 / 8192 < (last + 1) / 8192)
    × (answer last ≡ ok bytes)
    × (decode bytes (fork_for_slot last) ≡ ok state)
    × (fetched.block_roots ≡ as_roots state)
    × (fetched.state_roots ≡ as_roots state)
fetch_historical_batch_lem_example =
    fetch_historical_batch_lem answer decode as_roots as_roots 9000 fetched fetches
