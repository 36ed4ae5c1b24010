-- ===== src/Beacon/Rpc.antt =====
-- src/sources/beacon_rpc.rs: the fork of a slot, and the batch of roots of a slot's period. The HTTP
-- calls, the SSZ decoder and the derived accessors of `BeaconState` are parameters.
use Prim.Native.String.{◌++◌ as ◌<+>◌}
use eth_historian.Base.{
  display, map_err-ok, ℕ, ◌+◌, ◌-◌, ◌*◌, ◌/◌, ◌≤◌, ◌<◌, ◌≡◌, ◌↔◌, List, String, leb, if◌then◌else◌,
  none, Outcome, ok, map_err, ◌>>=◌, >>=-eq-ok, ok-injective, Bytes, B256, arith,
}
use eth_historian.Errors.{Error, data_source}
use eth_historian.Types.Network.{
  slots_per_epoch, slots_per_historical_root, capella_fork_epoch, deneb_fork_epoch,
  electra_fork_epoch,
}
use eth_historian.Types.Summaries.{historical_summary_index}
use eth_historian.Fork.{ForkName, bellatrix, capella, deneb, electra, as_capitalized_str}
use eth_historian.Beacon.{HistoricalBatch}

unfoldable pub fork_for_slot : ℕ → ForkName
fork_for_slot slot =
    let epoch = slot / slots_per_epoch in
    if leb electra_fork_epoch epoch
    then electra
    else if leb deneb_fork_epoch epoch
    then deneb
    else if leb capella_fork_epoch epoch
    then capella
    else bellatrix

-- The last slot of the period of `slot`.
unfoldable pub era_end : ℕ → ℕ
era_end slot =
    slot / slots_per_historical_root * slots_per_historical_root + slots_per_historical_root - 1

-- The error for a state that is not decoded.
abbrev state_error : ℕ → String → Error
state_error last e = data_source (
    "decoding BeaconState at slot "
    <+> display last
    <+> " (fork="
    <+> as_capitalized_str (fork_for_slot last)
    <+> "): "
    <+> e)

module _ {State : Type 0} (fetch_state_ssz : ℕ → Outcome Error Bytes)
    (from_ssz_bytes : Bytes → ForkName → Outcome String State)
    (block_roots state_roots : State → List B256) where
  unfoldable pub fetch_historical_batch : ℕ → Outcome Error HistoricalBatch
  unfolding fork_for_slot era_end
  fetch_historical_batch slot = do
    bytes ← fetch_state_ssz (era_end slot)
    state ←
        map_err (state_error (era_end slot)) (from_ssz_bytes bytes (fork_for_slot (era_end slot)))
    ok (record { block_roots = block_roots state; state_roots = state_roots state })

-- A slot is in Bellatrix exactly where the look-up of summaries has no index for it; it is in Capella
-- from 6209536 to 8626175, in Deneb from 8626176 to 11649023, and in Electra from 11649024 on.
pub fork_for_slot_iff :
    (slot : ℕ)
    → ((fork_for_slot slot ≡ bellatrix) ↔ (historical_summary_index slot ≡ none))
      × ((fork_for_slot slot ≡ capella) ↔ ((6209536 ≤ slot) × (slot < 8626176)))
      × ((fork_for_slot slot ≡ deneb) ↔ ((8626176 ≤ slot) × (slot < 11649024)))
      × ((fork_for_slot slot ≡ electra) ↔ (11649024 ≤ slot))
unfolding fork_for_slot historical_summary_index
fork_for_slot_iff slot = (
  (λ h. ground arith, λ h. ground arith),
  (λ h. ground arith, λ h. ground arith),
  (λ h. ground arith, λ h. ground arith),
  (λ h. ground arith, λ h. ground arith),
)

module _ {State : Type 0} (fetch_state_ssz : ℕ → Outcome Error Bytes)
    (from_ssz_bytes : Bytes → ForkName → Outcome String State)
    (block_roots state_roots : State → List B256) where
  abbrev after_bytes : ℕ → Bytes → Outcome Error HistoricalBatch
  after_bytes last bytes =
      map_err (state_error last) (from_ssz_bytes bytes (fork_for_slot last)) >>= λ state.
      ok (record { block_roots = block_roots state; state_roots = state_roots state })

  -- A batch that is returned has the roots of one beacon state: the one at the last slot of the period
  -- of 8192 slots that the requested slot lies in, decoded by the fork of that last slot.
  pub fetch_historical_batch_lem :
      (slot : ℕ) (batch : HistoricalBatch)
      → fetch_historical_batch fetch_state_ssz from_ssz_bytes block_roots state_roots slot
        ≡ ok batch
      → (last : ℕ) × (bytes : Bytes) × (state : State) × (slot ≤ last)
        × (last < slot + 8192)
        × (last / 8192 ≡ slot / 8192)
        × (slot / 8192 < (last + 1) / 8192)
        × (fetch_state_ssz last ≡ ok bytes)
        × (from_ssz_bytes bytes (fork_for_slot last) ≡ ok state)
        × (batch.block_roots ≡ block_roots state)
        × (batch.state_roots ≡ state_roots state)
  unfolding fetch_historical_batch
  fetch_historical_batch_lem slot batch e =
      let last = slot / 8192 * 8192 + 8192 - 1 in
      let bytes = >>=-eq-ok (fetch_state_ssz last) (after_bytes last) e in
      let state =
        >>=-eq-ok (map_err (state_error last) (from_ssz_bytes bytes.0 (fork_for_slot last)))
          (λ s. ok (record { block_roots = block_roots s; state_roots = state_roots s })) bytes.2 in
      let same = ok-injective state.2 in
      (
        last,
        bytes.0,
        state.0,
        omega arith,
        omega arith,
        omega arith,
        omega arith,
        bytes.1,
        map_err-ok (state_error last) (from_ssz_bytes bytes.0 (fork_for_slot last)) state.1,
        cc,
        cc,
      )
