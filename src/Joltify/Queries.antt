-- ===== src/Joltify/Queries.antt =====
-- joltifybridge/helper.go: the queries of the node of the joltify chain, and what the methods of the
-- instance make of them (bridge.go, validator.go).
use oppy_bridge.Common.{
  ℕ, String, Bool, true, false, Option, none, some, List, nat_key, string_key, bytes_key,
}
use oppy_bridge.Common.Int.{ℤ}
use oppy_bridge.Common.Result.{Result, ok, ◌>>=◌}
use oppy_bridge.External.{Bytes, Coin, VaultPool}
use oppy_bridge.Joltify.Signing.{Message, CosmosClient}
use oppy_bridge.Joltify.Membership.Startup.{TipValidator}
use oppy_bridge.Joltify.Service.{JoltService}

-- authtypes.AccountI
pub record Account : Type 0 where
  pub account_pub_key : Bytes
  pub sequence : ℕ
  pub account_number : ℕ

-- The calls over gRPC, within their timeout. An Any and an issued token are their encodings; the index
-- of a token is the number of a hash, or none for the empty text.
pub record GrpcClient : Type 0 where
  pub account : String → Result Bytes
  pub unpack_any : Bytes → Result Account
  pub all_balances : String → Result (List Coin)
  pub get_last_pool : Result (List VaultPool)
  pub issue_token_of : Option ℕ → Result (Option Bytes)
  pub get_latest_validator_set : Result (ℤ × List TipValidator)
  pub get_latest_block : Result ℤ

module _ (grpc : GrpcClient) where
  -- queryAccount
  unfoldable pub query_account_of : String → Result Account
  query_account_of addr = do acc_resp ← grpc.account addr; grpc.unpack_any acc_resp

  -- queryBalance
  unfoldable pub query_balance_of : String → Result (List Coin)
  query_balance_of addr = do balances ← grpc.all_balances addr; ok balances

  -- queryLastValidatorSet
  unfoldable pub query_last_validator_set : Result (List VaultPool)
  query_last_validator_set = do pools ← grpc.get_last_pool; ok pools

  -- QueryLastPoolAddress
  unfoldable pub query_last_pool_address : Result (List VaultPool)
  query_last_pool_address = do pool_info ← query_last_validator_set; ok pool_info

  -- queryGivenToeknIssueTx: nil where the response has no token.
  unfoldable pub query_given_token_issue_tx : Option ℕ → Result (Option Bytes)
  query_given_token_issue_tx index = do token ← grpc.issue_token_of index; ok token

  -- QueryTipValidator
  unfoldable pub query_tip_validator : Result (ℤ × List TipValidator)
  query_tip_validator = do resp ← grpc.get_latest_validator_set; ok resp

  -- GetLastBlockHeight
  unfoldable pub get_last_block_height : Result ℤ
  get_last_block_height = do height ← grpc.get_latest_block; ok height

  -- The method GetLastBlockHeight
  unfoldable pub last_block_height : Result ℤ
  last_block_height = do b ← get_last_block_height; ok b

abbrev is_some : Option Bytes → Bool
is_some none = false
is_some (some _) = true

-- What an instance asks while it processes one event, with its keyring and its connections. `text` is the
-- text of an account's address.
abbrev pub service_of :
    GrpcClient
    → (Bytes → String)
    → Result Bytes
    → (Bytes → Option ℕ → Coin → Bytes → Result Message)
    → CosmosClient
    → JoltService
service_of grpc text operator new_issue_token cosmos = record {
  operator = operator;
  last_pools = query_last_pool_address grpc;
  query_account =
      λ a. query_account_of grpc (text a) >>= λ acc. ok (acc.sequence, acc.account_number);
  query_balance = λ a. query_balance_of grpc (text a);
  given_token_issue =
      λ index. query_given_token_issue_tx grpc index >>= λ token. ok (is_some token);
  new_issue_token = new_issue_token;
  cosmos = cosmos;
}
