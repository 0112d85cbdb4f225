-- ===== src/Config/Flags.antt =====
-- config/config.go: the configuration and its flags.
use oppy_bridge.Common.{
  ℕ, ◌*◌, ◌^◌, String, Bool, true, List, [], ◌∷◌, ◌++◌, nat_key, string_key, bytes_key,
}
use oppy_bridge.Common.Int.{ℤ, pos}
use oppy_bridge.Common.Result.{Result, ok, ◌>>=◌}
use oppy_bridge.External.{Bytes}

pub record InvoiceChainConfig : Type 0 where
  pub grpc_address : String
  pub ws_address : String
  pub ws_endpoint : String
  pub http_address : String

pub record PubChainConfig : Type 0 where
  pub pub_ws_address : String
  pub token_address : String

-- A duration is its number of nanoseconds, a multiaddress its text.
pub record TssConfig : Type 0 where
  pub party_timeout : ℤ
  pub key_gen_timeout : ℤ
  pub key_sign_timeout : ℤ
  pub pre_param_timeout : ℤ
  pub rendezvous_string : String
  pub port : ℤ
  pub bootstrap_peers : List Bytes
  pub external_ip : String
  pub tss_http_addr : String

pub record Config : Type 0 where
  pub joltify_chain : InvoiceChainConfig
  pub pub_chain_config : PubChainConfig
  pub tss_config : TssConfig
  pub keyring_address : String
  pub home_dir : String
  pub enable_monitor : Bool

-- Multiaddr's text after NewMultiaddr, as addrList.Set appends it.
unfoldable pub set_peer : (Bytes → Result Bytes) → Bytes → List Bytes → Result (List Bytes)
set_peer new_multiaddr value al = do addr ← new_multiaddr value; ok (al ++ addr ∷ [])

-- addrList.String: strings.Join with a comma.
unfoldable pub peers_string : List Bytes → Bytes
peers_string [] = []
peers_string (a ∷ []) = a
peers_string (a ∷ b ∷ l) = a ++ 44 ∷ peers_string (b ∷ l)

-- A flag of the command line whose value the flag package has read.
pub data Setting : Type 0 where
  grpc_port : String → Setting
  ws_port : String → Setting
  http_port : String → Setting
  ws_endpoint_flag : String → Setting
  pub_ws_endpoint : String → Setting
  pub_token_addr : String → Setting
  key : String → Setting
  home : String → Setting
  tss_http_port : String → Setting
  gentimeout : ℤ → Setting
  signtimeout : ℤ → Setting
  joinpartytimeout : ℤ → Setting
  preparamtimeout : ℤ → Setting
  enablemonitor : Bool → Setting
  rendezvous : String → Setting
  p2p_port : ℤ → Setting
  external_ip_flag : String → Setting
  peer : Bytes → Setting

-- time.Second
abbrev second : ℕ
second = 10 ^ 9

-- The values that the flags have before flag.Parse.
abbrev pub flag_defaults : Config
flag_defaults = record {
  joltify_chain = record {
    grpc_address = "127.0.0.1:9090";
    ws_address = "tcp://localhost:26657";
    ws_endpoint = "/websocket";
    http_address = "http://localhost:26657";
  };
  pub_chain_config = record {
    pub_ws_address = "ws://10.2.118.8:8456/";
    token_address = "0xeB42ff4cA651c91EB248f8923358b6144c6B4b79";
  };
  tss_config = record {
    party_timeout = pos (60 * second);
    key_gen_timeout = pos (30 * second);
    key_sign_timeout = pos (30 * second);
    pre_param_timeout = pos (5 * 60 * second);
    rendezvous_string = "joltifyChainTss";
    port = pos 6668;
    bootstrap_peers = [];
    external_ip = "";
    tss_http_addr = "0.0.0.0:8321";
  };
  keyring_address = "./keyring.key";
  home_dir = "/root/.joltifyChain/config";
  enable_monitor = true;
}

abbrev with_chain : Config → InvoiceChainConfig → Config
with_chain c chain = record c { joltify_chain = chain }

abbrev with_pub : Config → PubChainConfig → Config
with_pub c chain = record c { pub_chain_config = chain }

abbrev with_tss_config : Config → TssConfig → Config
with_tss_config c tss = record c { tss_config = tss }

module _ (new_multiaddr : Bytes → Result Bytes) where
  -- What a flag does to the configuration that its variable is part of.
  unfoldable pub set_flag : Setting → Config → Result Config
  set_flag (Setting.grpc_port s) c = ok (with_chain c (record c.joltify_chain { grpc_address = s }))
  set_flag (Setting.ws_port s) c = ok (with_chain c (record c.joltify_chain { ws_address = s }))
  set_flag (Setting.http_port s) c = ok (with_chain c (record c.joltify_chain { http_address = s }))
  set_flag (Setting.ws_endpoint_flag s) c =
      ok (with_chain c (record c.joltify_chain { ws_endpoint = s }))
  set_flag (Setting.pub_ws_endpoint s) c =
      ok (with_pub c (record c.pub_chain_config { pub_ws_address = s }))
  set_flag (Setting.pub_token_addr s) c =
      ok (with_pub c (record c.pub_chain_config { token_address = s }))
  set_flag (Setting.key s) c = ok (record c { keyring_address = s })
  set_flag (Setting.home s) c = ok (record c { home_dir = s })
  set_flag (Setting.tss_http_port s) c =
      ok (with_tss_config c (record c.tss_config { tss_http_addr = s }))
  set_flag (Setting.gentimeout d) c =
      ok (with_tss_config c (record c.tss_config { key_gen_timeout = d }))
  set_flag (Setting.signtimeout d) c =
      ok (with_tss_config c (record c.tss_config { key_sign_timeout = d }))
  set_flag (Setting.joinpartytimeout d) c =
      ok (with_tss_config c (record c.tss_config { party_timeout = d }))
  set_flag (Setting.preparamtimeout d) c =
      ok (with_tss_config c (record c.tss_config { pre_param_timeout = d }))
  set_flag (Setting.enablemonitor b) c = ok (record c { enable_monitor = b })
  set_flag (Setting.rendezvous s) c =
      ok (with_tss_config c (record c.tss_config { rendezvous_string = s }))
  set_flag (Setting.p2p_port n) c = ok (with_tss_config c (record c.tss_config { port = n }))
  set_flag (Setting.external_ip_flag s) c =
      ok (with_tss_config c (record c.tss_config { external_ip = s }))
  set_flag (Setting.peer a) c = do
    peers ← set_peer new_multiaddr a c.tss_config.bootstrap_peers
    ok (with_tss_config c (record c.tss_config { bootstrap_peers = peers }))

  -- flag.Parse, one flag after the other; an error ends the program.
  unfoldable pub parse_flags : List Setting → Config → Result Config
  parse_flags [] c = ok c
  parse_flags (s ∷ settings) c = do next ← set_flag s c; parse_flags settings next

  -- DefaultConfig, with the flags of the command line.
  unfoldable pub default_config : List Setting → Result Config
  default_config settings = parse_flags settings flag_defaults
