-- ===== src/Bridge/Startup/Ended.antt =====
-- cmd/joltifyBridge.go, bridge/joltifyBridge.go: how the start of the program may end.
use oppy_bridge.Common.{String, ◌≡◌, ◌⊎◌, nat_key, string_key, bytes_key}
use oppy_bridge.Common.Result.{Result, ok, err}
use oppy_bridge.External.{Bytes, Env}
use oppy_bridge.Config.Flags.{Config}
use oppy_bridge.Joltify.Membership.{Membership}
use oppy_bridge.Joltify.Membership.Startup.{StartupService, init_validators}
use oppy_bridge.Bridge.{start}
use oppy_bridge.Bridge.Loop.{Reaches}
use oppy_bridge.Bridge.Startup.{Host, End}
use oppy_bridge.Bridge.Startup.Connected.{Synced}

module _ (env : Env) (host : Host) (config : Config) where
  abbrev token : String
  token = config.pub_chain_config.token_address

  abbrev startup : StartupService
  startup = host.init_service config.joltify_chain.http_address

  -- The texts of the three queries that the loop subscribes to.
  abbrev validator_query : String
  validator_query = "tm.event = 'ValidatorSetUpdates'"

  abbrev block_query : String
  block_query = "tm.event = 'NewBlock'"

  abbrev tx_query : String
  tx_query = "tm.event = 'Tx'"

  -- What the host must have answered when the loop runs.
  pub record IsUp (members : Membership) : Type 0 where
    pub grpc : host.grpc_dial config.joltify_chain.grpc_address ≡ ok tt
    pub tendermint : host.tm_client config.joltify_chain.ws_address ≡ ok tt
    pub tendermint_started : host.tm_client_start ≡ ok tt
    pub key :
        (dat : Bytes) × (host.read_keyring config.home_dir config.keyring_address ≡ ok dat)
        × (host.import_priv_key dat "12345678" ≡ ok tt)
    pub synced : Synced startup.syncing
    pub known : init_validators env startup ≡ ok members
    pub http : host.http_start config.tss_config.tss_http_addr ≡ ok tt
    pub dialled : host.eth_dial config.pub_chain_config.pub_ws_address ≡ ok tt
    pub token_found : host.new_token token ≡ ok tt
    pub abi : host.token_abi ≡ ok tt
    pub validator_updates : host.subscribe validator_query ≡ ok tt
    pub blocks : host.subscribe block_query ≡ ok tt
    pub transfers : host.subscribe tx_query ≡ ok tt
    pub heads : host.subscribe_new_head ≡ ok tt

  -- The loop starts with all of this; without a loop the service waits only where a subscription failed.
  abbrev pub Started : End → Type 0
  Started End.panics_at_start = Unit {0}
  Started End.quits = Unit {0}
  Started (End.fatal message) = Unit {0}
  Started End.idles =
      (e : String) × ((host.subscribe validator_query ≡ err e)
        ⊎ ((host.subscribe block_query ≡ err e)
            ⊎ ((host.subscribe tx_query ≡ err e) ⊎ (host.subscribe_new_head ≡ err e))))
  Started (End.runs b) =
      (members : Membership) × (b ≡ start token members) × IsUp members × Reaches env token b
