-- ===== src/Config.antt =====
-- config/types.go: the constants of the bridge, and the capacities of its channels.
pub mod Flags
use oppy_bridge.Common.{ℕ, String}
use oppy_bridge.Common.Int.{ℤ, pos}

abbrev pub in_bound_denom_fee : String
in_bound_denom_fee = "BNB"

abbrev pub out_bound_denom_fee : String
out_bound_denom_fee = "JOLT"

abbrev pub in_bound_fee_min : String
in_bound_fee_min = "0.00000000000000001"

abbrev pub out_bound_fee_out : String
out_bound_fee_out = "0.00000000000000001"

abbrev pub in_bound_denom : String
in_bound_denom = "JUSD"

abbrev pub out_bound_denom : String
out_bound_denom = "JUSD"

abbrev pub tx_timeout : ℕ
tx_timeout = 300

abbrev pub gas_fee_ratio : String
gas_fee_ratio = "1.5"

abbrev pub dust_bnb : String
dust_bnb = "0.0001"

abbrev pub min_check_block_gap : ℤ
min_check_block_gap = pos 6

-- reqCacheSize: how many requests a channel holds before a send waits.
abbrev pub req_cache_size : ℕ
req_cache_size = 512
