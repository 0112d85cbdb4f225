-- ===== src/Bridge/Startup.antt =====
-- cmd/joltifyBridge.go, bridge/joltifyBridge.go: from the command line to the loop. It shows which states
-- the loop starts from, and what happens where a part of the start fails.
pub mod Ended
pub mod Connected
use oppy_bridge.Common.{
  ℕ, String, Option, none, some, List, ltb, if◌then◌else◌, nat_key, string_key, bytes_key,
}
use oppy_bridge.Common.Result.{Result, ok, err}
use oppy_bridge.External.{Bytes, Env}
use oppy_bridge.Config.Flags.{Config, Setting, default_config}
use oppy_bridge.Tss.{TssHost, start_tss_server}
use oppy_bridge.Joltify.Membership.{Membership}
use oppy_bridge.Joltify.Membership.Startup.{StartupService, init_validators}
use oppy_bridge.Bridge.{Bridge, start}

-- What the machine, the two nodes and the libraries answer while the program starts.
pub record Host : Type 0 where
  pub new_multiaddr : Bytes → Result Bytes
  pub set_log_level : Result (Unit {0})
  -- os.Stdin.Read into 32 bytes: how many were read
  pub read_passcode : Result ℕ
  pub tss_host : TssHost
  -- grpc.Dial, the new websocket client and its start
  pub grpc_dial : String → Result (Unit {0})
  pub tm_client : String → Result (Unit {0})
  pub tm_client_start : Result (Unit {0})
  -- the keyring's file in a folder, and its import with the fixed passcode
  pub read_keyring : String → String → Result Bytes
  pub import_priv_key : Bytes → String → Result (Unit {0})
  -- what InitValidators asks, at the address of the status page
  pub init_service : String → StartupService
  -- ListenAndServe has failed before Start returns
  pub http_start : String → Result (Unit {0})
  pub eth_dial : String → Result (Unit {0})
  pub new_token : String → Result (Unit {0})
  pub token_abi : Result (Unit {0})
  -- the subscriptions of the loop
  pub subscribe : String → Result (Unit {0})
  pub subscribe_new_head : Result (Unit {0})

-- How the program goes on: it ends, with or without a fatal message; it waits for an interrupt without a loop; or it runs the loop from a state.
pub data End : Type 0 where
  panics_at_start : End
  quits : End
  fatal : String → End
  idles : End
  runs : Bridge → End

module _ (env : Env) (host : Host) where
  -- NewJoltifyBridge, up to its error.
  unfoldable pub connect_joltify : String → String → Result (Unit {0})
  connect_joltify grpc_addr http_addr = elim (host.grpc_dial grpc_addr) [
    | err e ↦ err e
    | ok _ ↦ elim (host.tm_client http_addr) [ err e ↦ err e | ok _ ↦ host.tm_client_start ]
  ]

  -- NewChainInstance, up to its error.
  unfoldable pub connect_public : String → String → Result (Unit {0})
  connect_public ws token_addr = elim (host.eth_dial ws) [
    | err e ↦ err "fail to dial the network"
    | ok _ ↦ elim (host.new_token token_addr) [
      | err e ↦ err "fail to get the new token"
      | ok _ ↦ elim host.token_abi [ err e ↦ err "fail to get the tokenABI" | ok _ ↦ ok tt ]
    ]
  ]

  -- AddSubscribe
  unfoldable pub add_subscribe : String → Result (Unit {0})
  add_subscribe query = elim (host.subscribe query) [ err e ↦ err e | ok out ↦ ok out ]

  -- StartSubscription
  unfoldable pub start_subscription : Result (Unit {0})
  start_subscription = elim host.subscribe_new_head [ err e ↦ err e | ok _ ↦ ok tt ]

  -- The start of addEventLoop.
  unfoldable pub subscribe_all : Result (Unit {0})
  subscribe_all = elim (add_subscribe "tm.event = 'ValidatorSetUpdates'") [
    | err e ↦ err e
    | ok _ ↦ elim (add_subscribe "tm.event = 'NewBlock'") [
      | err e ↦ err e
      | ok _ ↦ elim (add_subscribe "tm.event = 'Tx'") [ err e ↦ err e | ok _ ↦ start_subscription ]
    ]
  ]

  -- addEventLoop: an error of a subscription is printed, and no loop starts.
  unfoldable pub add_event_loop : Bridge → End
  add_event_loop b = elim subscribe_all [ err e ↦ idles | ok _ ↦ runs b ]

  -- NewBridgeService after InitValidators.
  unfoldable pub serve : Config → Membership → End
  serve config members = elim (host.http_start config.tss_config.tss_http_addr) [
    | err e ↦ quits
    | ok _ ↦
        elim (connect_public config.pub_chain_config.pub_ws_address
          config.pub_chain_config.token_address) [
            | err e ↦ quits
            | ok _ ↦ add_event_loop (start config.pub_chain_config.token_address members)
          ]
  ]

  unfoldable pub with_validators : Config → Result Membership → End
  with_validators config (err e) = quits
  with_validators config (ok members) = serve config members

  -- NewBridgeService from NewJoltifyBridge on.
  unfoldable pub with_tss : Config → End
  with_tss config =
      elim (connect_joltify config.joltify_chain.grpc_address config.joltify_chain.ws_address) [
        | err e ↦ fatal "fail to create the invoice joltify_bridge"
        | ok _ ↦ elim (host.read_keyring config.home_dir config.keyring_address) [
          | err e ↦ fatal "error in read keyring file"
          | ok dat ↦ elim (host.import_priv_key dat "12345678") [
            | err e ↦ quits
            | ok _ ↦
                with_validators config
                  (init_validators env (host.init_service config.joltify_chain.http_address))
          ]
        ]
      ]

  -- NewBridgeService
  unfoldable pub new_bridge_service : Config → End
  new_bridge_service config = elim host.read_passcode [
    | err e ↦ quits
    | ok n ↦
        if ltb 32 n
        then fatal "the passcode is too long"
        else elim (start_tss_server host.tss_host config.home_dir config.tss_config).1.1 [
          | err e ↦ fatal "fail to start the tss"
          | ok _ ↦ with_tss config
        ]
  ]

  -- main, with the flags of the command line; a flag that cannot be read ends the program.
  unfoldable pub main : List Setting → End
  main settings = elim (default_config host.new_multiaddr settings) [
    | err e ↦ quits
    | ok config ↦ elim host.set_log_level [
      | err e ↦ panics_at_start
      | ok _ ↦ new_bridge_service config
    ]
  ]
