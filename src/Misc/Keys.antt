-- ===== src/Misc/Keys.antt =====
-- misc/helper.go: the addresses that belong to a public key.
use oppy_bridge.Common.{String}
use oppy_bridge.Common.Result.{Result, ok, ◌>>=◌}
use oppy_bridge.External.{Bytes, Env}

module _ (env : Env) where
  unfoldable pub pool_pub_key_to_jolt_address : String → Result Bytes
  pool_pub_key_to_jolt_address pk = do
    pubkey ← env.unmarshal_pub_key pk
    env.acc_address_from_hex (env.pub_key_address pubkey)

  unfoldable pub pool_pub_key_to_eth_address : String → Result Bytes
  pool_pub_key_to_eth_address pk = do
    pubkey ← env.unmarshal_pub_key pk
    pk2 ← env.decompress_pubkey pubkey
    ok (env.pubkey_to_address pk2)

  unfoldable pub account_pub_key_to_eth_address : Bytes → Result Bytes
  account_pub_key_to_eth_address pk = do
    pubkey ← env.decompress_pubkey pk
    ok (env.pubkey_to_address pubkey)

  unfoldable pub eth_sign_pub_key_to_jolt_addr : Bytes → Result Bytes
  eth_sign_pub_key_to_jolt_addr pk = do
    pk3 ← env.compress_pubkey pk
    env.acc_address_from_hex (env.pub_key_address pk3)
