-- ===== src/Types/Summaries.antt =====
-- src/portal_types/consensus/historical_summaries.rs and src/historical_summaries_provider.rs: the
-- summaries after Capella, and their look-up by slot.
use eth_historian.Base.{
  ◌≤◌, ◌≡◌, ◌≢◌, ◌↔◌, panic, arith, ok, ℕ, ◌-◌, ◌*◌, ◌/◌, List, Option, none, some, ltb,
  if◌then◌else◌, Outcome, ◌>>=◌, ok_or, get_elem?, B256,
}
use eth_historian.Types.Network.{slots_per_epoch, slots_per_historical_root, capella_fork_epoch}

pub record HistoricalSummary : Type 0 where
  pub block_summary_root : B256
  pub state_summary_root : B256

pub record HistoricalSummariesWithProof : Type 0 where
  pub epoch : ℕ
  pub historical_summaries : List HistoricalSummary
  pub proof : List B256

abbrev pub capella_slot : ℕ
capella_slot = capella_fork_epoch * slots_per_epoch

unfoldable pub historical_summary_index : ℕ → Option ℕ
historical_summary_index slot =
    if ltb slot capella_slot then none else some ((slot - capella_slot) / slots_per_historical_root)

-- The lock holds one snapshot; readers and writers take turns, so a call sees one value of it.
pub record HistoricalSummariesProvider : Type 0 where
  pub summaries : List HistoricalSummary

unfoldable pub new : List HistoricalSummary → HistoricalSummariesProvider
new summaries = record { summaries = summaries }

unfoldable pub set_summaries :
    HistoricalSummariesProvider → List HistoricalSummary → HistoricalSummariesProvider
set_summaries provider summaries = record provider { summaries = summaries }

-- The two errors of `get_historical_summary`.
pub data SummaryError : Type 0 where
  before_capella : SummaryError
  index_out_of_bounds : ℕ → SummaryError

unfoldable pub get_historical_summary :
    HistoricalSummariesProvider → ℕ → Outcome SummaryError HistoricalSummary
unfolding historical_summary_index
get_historical_summary provider slot = do
  historical_summary_index ← ok_or (historical_summary_index slot) before_capella
  ok_or (get_elem? provider.summaries historical_summary_index)
      (index_out_of_bounds historical_summary_index)

-- A summary is found exactly at the slots from Capella on that the snapshot covers.
pub get_historical_summary_iff :
    (p : HistoricalSummariesProvider) (slot : ℕ) (s : HistoricalSummary)
    → (get_historical_summary p slot ≡ ok s) ↔ (
        (capella_slot ≤ slot)
        × (get_elem? p.summaries ((slot - capella_slot) / slots_per_historical_root) ≡ some s))
unfolding get_historical_summary
get_historical_summary_iff p slot s = (λ h. ground arith, λ h. ground arith)

-- The look-up never panics.
pub get_historical_summary-ne-panic :
    (p : HistoricalSummariesProvider) (slot : ℕ) → get_historical_summary p slot ≢ panic
unfolding get_historical_summary
get_historical_summary-ne-panic p slot h = ground arith
