-- ===== src/Types/Network.antt =====
-- src/portal_types/network_spec.rs and src/portal_types/consensus/constants.rs: the activation of the
-- forks on mainnet, and the slot of an execution block.
use eth_historian.Base.{ℕ, ◌-◌, ◌/◌, Bool, leb, if◌then◌else◌, Option, none, some}

abbrev pub mainnet_paris_block : ℕ
mainnet_paris_block = 15_537_394

abbrev pub mainnet_shanghai_timestamp : ℕ
mainnet_shanghai_timestamp = 1_681_338_455

abbrev pub mainnet_cancun_timestamp : ℕ
mainnet_cancun_timestamp = 1_710_338_135

abbrev pub mainnet_beacon_genesis_timestamp : ℕ
mainnet_beacon_genesis_timestamp = 1_606_824_023

abbrev pub mainnet_seconds_per_slot : ℕ
mainnet_seconds_per_slot = 12

abbrev pub slots_per_epoch : ℕ
slots_per_epoch = 32

abbrev pub slots_per_historical_root : ℕ
slots_per_historical_root = 8192

abbrev pub capella_fork_epoch : ℕ
capella_fork_epoch = 194_048

abbrev pub deneb_fork_epoch : ℕ
deneb_fork_epoch = 269_568

abbrev pub electra_fork_epoch : ℕ
electra_fork_epoch = 364_032

-- `timestamp.checked_sub(..)` is `None` below genesis.
unfoldable pub slot_for_execution_timestamp : ℕ → Option ℕ
slot_for_execution_timestamp timestamp =
    if leb mainnet_beacon_genesis_timestamp timestamp
    then some ((timestamp - mainnet_beacon_genesis_timestamp) / mainnet_seconds_per_slot)
    else none

unfoldable pub is_paris_active_at_block : ℕ → Bool
is_paris_active_at_block block_number = leb mainnet_paris_block block_number

unfoldable pub is_shanghai_active_at_timestamp : ℕ → Bool
is_shanghai_active_at_timestamp timestamp = leb mainnet_shanghai_timestamp timestamp

unfoldable pub is_cancun_active_at_timestamp : ℕ → Bool
is_cancun_active_at_timestamp timestamp = leb mainnet_cancun_timestamp timestamp
