-- ===== src/Tests/Starting.antt =====
-- The start of the program on a host where everything works, and on one where a subscription fails.
use oppy_bridge.Common.{
  ◌≡◌, refl, true, some, List, [], ◌∷◌, if◌then◌else◌, ◌==◌, nat_key, string_key, bytes_key,
}
use oppy_bridge.Common.Int.{pos}
use oppy_bridge.Common.Result.{ok, err}
use oppy_bridge.Config.Flags.{
  Config, Setting, flag_defaults, set_peer, set_flag, parse_flags, default_config,
}
use oppy_bridge.Tss.{no_key, TssServer, start_tss_server}
use oppy_bridge.Joltify.Membership.Startup.{
  init_validators, init_synced, wait_synced, do_init_validator, local_vals,
}
use oppy_bridge.Joltify.Queries.{GrpcClient, service_of, query_given_token_issue_tx}
use oppy_bridge.Joltify.Service.{check_whether_already_exist, check_jolt_tx_status}
use oppy_bridge.Joltify.Signing.{Message}
use oppy_bridge.Validators.{new_validator, setup_each, setup_validator_set}
use oppy_bridge.SyncMap.{store}
use oppy_bridge.Bridge.{start}
use oppy_bridge.Bridge.Startup.{
  Host, End, connect_joltify, connect_public, add_subscribe, start_subscription, subscribe_all,
  add_event_loop, serve, with_validators, with_tss, new_bridge_service, main,
}
use oppy_bridge.Tests.Fixtures.{toy_env}
use oppy_bridge.Tests.Chains.{toy_cosmos, toy_signature}
use oppy_bridge.Tests.Loop.{toy_startup, toy_members}

abbrev toy_tss : TssServer
toy_tss = record {
  local_peer_id = "peer";
  keygen = λ keys height version. ok (true, "new");
  keysign = λ pk msgs height signers version. ok (true, toy_signature ∷ []);
}

abbrev toy_host : Host
toy_host = record {
  new_multiaddr = λ text. if text == [] then err "empty multiaddr" else ok text;
  set_log_level = ok tt;
  read_passcode = ok 9;
  tss_host = record {
    read_key_file = λ folder. ok (1 ∷ []);
    unmarshal_key = λ bytes. ok no_key;
    decode_base64 = λ text. ok (2 ∷ []);
    new_tss = λ parameters. ok toy_tss;
  };
  grpc_dial = λ addr. ok tt;
  tm_client = λ addr. ok tt;
  tm_client_start = ok tt;
  read_keyring = λ folder name. ok (3 ∷ []);
  import_priv_key = λ dat passcode. ok tt;
  init_service = λ addr. toy_startup;
  http_start = λ addr. ok tt;
  eth_dial = λ ws. ok tt;
  new_token = λ addr. ok tt;
  token_abi = ok tt;
  subscribe = λ query. ok tt;
  subscribe_new_head = ok tt;
}

-- Two peers, and the last home directory counts.
abbrev settings : List Setting
settings =
    Setting.peer (7 ∷ []) ∷ Setting.home "/a" ∷ Setting.peer (8 ∷ []) ∷ Setting.home "/b" ∷ []

abbrev configured : Config
configured = record flag_defaults {
  tss_config = record flag_defaults.tss_config { bootstrap_peers = (7 ∷ []) ∷ (8 ∷ []) ∷ [] };
  home_dir = "/b";
}

loop_runs :
    main toy_env toy_host settings
    ≡ End.runs (start "0xeB42ff4cA651c91EB248f8923358b6144c6B4b79" toy_members)
unfolding main default_config parse_flags set_flag set_peer new_bridge_service start_tss_server
    with_tss connect_joltify with_validators init_validators init_synced wait_synced
    do_init_validator local_vals setup_validator_set setup_each new_validator store serve
    connect_public add_event_loop subscribe_all add_subscribe start_subscription
loop_runs = refl

abbrev toy_grpc : GrpcClient
toy_grpc = record {
  account = λ addr. ok (1 ∷ []);
  unpack_any = λ any. ok (record { account_pub_key = 4 ∷ []; sequence = 1; account_number = 2 });
  all_balances = λ addr. ok [];
  get_last_pool = ok [];
  issue_token_of = λ index. ok (some (6 ∷ []));
  get_latest_validator_set = ok (pos 5, []);
  get_latest_block = ok (pos 5);
}

token_found :
    check_jolt_tx_status
      (service_of toy_grpc
        (λ a. "addr")
        (ok (4 ∷ []))
        (λ c i coin to. ok (Message.issue c i coin to))
        toy_cosmos)
      (some 77)
    ≡ ok tt
unfolding check_jolt_tx_status check_whether_already_exist query_given_token_issue_tx
token_found = refl
