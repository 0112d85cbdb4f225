-- ===== src/Tests/Fixtures.antt =====
-- Concrete stand-ins for what the bridge calls, and states to run it on.
use oppy_bridge.Common.{
  ◌*◌, ◌/◌, ◌^◌, String, true, none, some, [], ◌∷◌, if◌then◌else◌, ◌==◌, nat_key, string_key,
  bytes_key,
}
use oppy_bridge.Common.Int.{pos}
use oppy_bridge.Common.Result.{ok, err}
use oppy_bridge.External.{Bytes, AbiValue, Env, Transaction, VaultPool}
use oppy_bridge.Pool.{PoolInfo}
use oppy_bridge.RetryPool
use oppy_bridge.Pubchain.State.{PubChainInstance}

abbrev pub token : Bytes
token = 7 ∷ []

abbrev pub bridge_address : Bytes
bridge_address = 9 ∷ []

-- The first byte of an address stands for its text, and the length of a key's text for the key.
abbrev pub toy_address_text : Bytes → String
toy_address_text a =
    if a == token then "0xToken" else if a == bridge_address then "0xBridge" else "0xOther"

abbrev pub toy_env : Env
toy_env = record {
  address_text = toy_address_text;
  address_hex = λ a. a;
  dec_from_str = λ s. ok 10;
  dec_mul = λ a b. a * b / 10 ^ 18;
  keccak256 = λ parts. 77;
  height_bytes = λ h. h ∷ [];
  unmarshal_pub_key =
      λ pk. if pk == "" then err "empty key" else if pk == "old" then ok (1 ∷ []) else ok (2 ∷ []);
  pub_key_address = λ key. key;
  acc_address_from_hex = λ text. ok text;
  acc_address_from_bech32 = λ text. if text == "pool" then ok (2 ∷ []) else ok (5 ∷ []);
  cons_address_from_hex = λ text. if text == [] then err "empty address string" else ok text;
  cons_address_from_bech32 = λ text. ok (1 ∷ []);
  cons_address_text = λ a. if a == 1 ∷ [] then "one" else if a == 2 ∷ [] then "two" else "other";
  marshal_pub_key = λ key. ok "key";
  decompress_pubkey = λ key. ok key;
  pubkey_to_address = λ key. 9 ∷ [];
  bytes_to_address = λ bytes. bytes;
  ecrecover = λ hash sig. ok (3 ∷ []);
  signer_hash = λ tx. tx.hash;
  compress_pubkey = λ key. ok key;
  curve_order = 101;
  has_transfer = true;
  unpack_transfer = λ input. ok (AbiValue.address (9 ∷ []) ∷ AbiValue.integer 500 ∷ []);
}

abbrev pub vault_pool : VaultPool
vault_pool = record { pool_pub_key = "new"; pool_addr = 2 ∷ []; nodes = [] }

abbrev pub bridge_pool : PoolInfo
bridge_pool = record {
  pk = "new";
  joltify_address = 2 ∷ [];
  eth_address = 9 ∷ [];
  pool_info = vault_pool;
}

-- An instance that knows one pool.
abbrev pub one_pool : PubChainInstance
one_pool = record {
  token_addr = "0xToken";
  pending_inbounds = [];
  pending_inbounds_bnb = [];
  last_two_pools = record { pool0 = none; pool1 = some bridge_pool };
  inbound_req_chan = [];
  retry_inbound_req = RetryPool.empty;
  move_fund_req = [];
  current_height = pos 0;
}

-- A transfer of 500 to the bridge, and a payment of 12 that names it.
abbrev pub transfer_tx : Transaction
transfer_tx = record {
  hash = 1 ∷ 2 ∷ [];
  to = some token;
  payload = some (0xa9 ∷ 0x05 ∷ 0x9c ∷ 0xbb ∷ []);
  value = 0;
  chain_id = 56;
  sig_v = 147;
  sig_r = 5;
  sig_s = 6;
}

abbrev pub payment_tx : Transaction
payment_tx = record {
  hash = 3 ∷ 4 ∷ [];
  to = some bridge_address;
  payload = some (1 ∷ 2 ∷ []);
  value = 12;
  chain_id = 56;
  sig_v = 147;
  sig_r = 5;
  sig_s = 6;
}
