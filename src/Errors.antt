-- ===== src/Errors.antt =====
-- src/errors.rs: the error type of the public interface.
use eth_historian.Base.{ℕ, String}

pub data Error : Type 0 where
  no_data_source : Error
  block_not_found : ℕ → Error
  data_source : String → Error
  ssz_decode : ℕ → String → Error
  verification_failed : ℕ → String → Error
  block_number_mismatch : ℕ → ℕ → Error
  http json hex : String → Error
  historical_summaries_unavailable : Error
  proof_construction mpt_inclusion : String → Error
  receipt_decode transaction_decode : ℕ → String → Error
  io : String → Error
