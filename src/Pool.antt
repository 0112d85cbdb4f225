-- ===== src/Pool.antt =====
-- common/pool.go: a pool of signers, as both chains' instances keep it.
use oppy_bridge.Common.{String, Option, none, some}
use oppy_bridge.External.{Bytes, VaultPool}

pub record PoolInfo : Type 0 where
  pub pk : String
  pub joltify_address : Bytes
  pub eth_address : Bytes
  pub pool_info : VaultPool

-- lastTwoPools: the older at index 0 and the latest at index 1, nil at first.
pub record TwoPools : Type 0 where
  pub pool0 : Option PoolInfo
  pub pool1 : Option PoolInfo

abbrev pub no_pools : TwoPools
no_pools = record { pool0 = none; pool1 = none }

-- The latest pool moves to index 0, if there is one, and the new one takes its place.
unfoldable pub push_pool : PoolInfo → TwoPools → TwoPools
push_pool p pools = elim pools.pool1 [
  | none ↦ record pools { pool1 = some p }
  | some latest ↦ record { pool0 = some latest; pool1 = some p }
]
