-- ===== src/Tests/Chains.antt =====
-- A node of each chain and a key server to run the bridge with.
use oppy_bridge.Common.{
  refl, subst, Bool, true, false, List, [], ◌∷◌, ◌++◌, arith, nat_key, string_key, bytes_key, take,
  All,
}
use oppy_bridge.Common.Int.{pos}
use oppy_bridge.Common.Outcome.{done, Returns}
use oppy_bridge.Common.Result.{Result, ok, err}
use oppy_bridge.External.{VaultPool}
use oppy_bridge.Misc.BigInt.{big_bytes, set_bytes}
use oppy_bridge.Misc.Signature.{TssSignature, serialize_sig}
use oppy_bridge.Pubchain.Sending.{EthClient}
use oppy_bridge.Pubchain.Sending.Returns.{IsAble}
use oppy_bridge.Joltify.Service.{JoltService}
use oppy_bridge.Joltify.Signing.{Message, CosmosClient}
use oppy_bridge.Joltify.Signing.Returns.{IsReady}
use oppy_bridge.Tests.Fixtures.{toy_env}

abbrev pub toy_signature : TssSignature
toy_signature = record { r = ok (5 ∷ []); s = ok (6 ∷ []); recovery_id = ok (1 ∷ []) }

-- The chain has the number 56; the key server signs everything.
abbrev pub toy_client : EthClient
toy_client = record {
  network_id = ok 56;
  suggest_gas_price = ok 2;
  estimate_gas = ok 3;
  balance_of = λ a. ok 0;
  balance_at = λ a. ok 14;
  nonce_at = λ a. ok 7;
  transfer = λ from to amount. ok (amount ∷ []);
  legacy_tx = λ nonce price gas to value. value ∷ [];
  sign_hash = λ chain_id tx. tx;
  with_signature = λ chain_id tx signature. ok (tx ++ signature);
  tx_hash = λ tx. take 1 tx;
  send_transaction = λ tx. ok tt;
  transaction_receipt = λ h. ok 1;
  key_sign = λ pk msg height. ok (true, toy_signature ∷ []);
}

-- A chain that accepts everything, and a key server that signs everything.
abbrev pub toy_cosmos : CosmosClient
toy_cosmos = record {
  operator_key = ok (4 ∷ []);
  keyring_sign = λ bytes. ok (bytes, 4 ∷ []);
  set_msgs = λ msgs. ok tt;
  set_signatures = λ s. ok tt;
  get_sign_bytes = λ builder num seq. ok (6 ∷ []);
  sha256 = λ bytes. bytes;
  tx_encoder = λ builder. ok (8 ∷ []);
  key_sign = λ pk msg height. ok (true, toy_signature ∷ []);
  simulate = λ bytes. ok 100;
  broadcast_tx = λ bytes. ok (0, "0xHash");
  round_int64 = λ d. done (pos 150);
}

abbrev pub old_pool : VaultPool
old_pool = record { pool_pub_key = "old"; pool_addr = 1 ∷ []; nodes = (4 ∷ []) ∷ [] }

abbrev pub new_pool : VaultPool
new_pool = record { pool_pub_key = "new"; pool_addr = 2 ∷ []; nodes = (4 ∷ []) ∷ [] }

-- The node knows two pools, the latest first, and this node signs for both.
abbrev pub toy_service : JoltService
toy_service = record {
  operator = ok (4 ∷ []);
  last_pools = ok (new_pool ∷ old_pool ∷ []);
  query_account = λ a. ok (1, 2);
  query_balance = λ a. ok [];
  given_token_issue = λ index. ok false;
  new_issue_token = λ creator index coin user. ok (Message.issue creator index coin user);
  cosmos = toy_cosmos;
}

abbrev Fit : Result (Bool × List TssSignature) → Type 0
Fit (ok (success, signatures)) = All (λ s. Returns (serialize_sig toy_env s true)) signatures
Fit (err e) = Unit

pub toy_client-IsAble : IsAble toy_env toy_client
unfolding serialize_sig big_bytes set_bytes
toy_client-IsAble = record {
  dust = 10;
  dust_parses = refl;
  ratio = 10;
  ratio_parses = refl;
  cost_fits = λ price gas p g. ground arith;
  signatures_fit = λ pk msg height success signatures e. subst Fit e (tt, tt);
}

abbrev FitPlain : Result (Bool × List TssSignature) → Type 0
FitPlain (ok (success, signatures)) = All (λ s. Returns (serialize_sig toy_env s false)) signatures
FitPlain (err e) = Unit

pub toy_cosmos-IsReady : IsReady toy_env toy_cosmos
unfolding serialize_sig big_bytes set_bytes
toy_cosmos-IsReady = record {
  ratio = 10;
  ratio_parses = refl;
  rounds = λ d h. tt;
  gas_fits = λ bytes gas e. ground arith;
  signatures_fit = λ pk msg height success signatures e. subst FitPlain e (tt, tt);
}
