-- ===== src/Tss.antt =====
-- tssclient/: the client of the threshold signing library.
use oppy_bridge.Common.{String, Bool, Option, none, some, List, nat_key, string_key, bytes_key}
use oppy_bridge.Common.Int.{ℤ}
use oppy_bridge.Common.Result.{Result, ok, err}
use oppy_bridge.External.{Bytes}
use oppy_bridge.Config.Flags.{TssConfig}
use oppy_bridge.Misc.Signature.{TssSignature}

pub record CosPrivKey : Type 0 where
  pub address : String
  pub pub_key_type : String
  pub pub_key_value : String
  pub priv_key_type : String
  pub priv_key_value : String

-- CosPrivKey{}
abbrev pub no_key : CosPrivKey
no_key = record {
  address = "";
  pub_key_type = "";
  pub_key_value = "";
  priv_key_type = "";
  priv_key_value = "";
}

-- tss.TssServer: Keygen of the keys, the height and the version, KeySign of the key, the messages, the
-- height, the signers and the version; each with whether the status is Success, and what it is about.
pub record TssServer : Type 0 where
  pub local_peer_id : String
  pub keygen : List String → ℤ → String → Result (Bool × String)
  pub keysign : String → List String → ℤ → List String → String → Result (Bool × List TssSignature)

-- The arguments of tss.NewTss that the caller chooses.
pub record TssParameters : Type 0 where
  pub peers : List Bytes
  pub tss_port : ℤ
  pub priv_key : Bytes
  pub rendezvous_text : String
  pub base_folder : String
  pub timeouts : ℤ × (ℤ × (ℤ × ℤ))
  pub external_address : String

-- What the machine and the library give: the file of the key, what json and base64 read of it, and
-- tss.NewTss.
pub record TssHost : Type 0 where
  pub read_key_file : String → Result Bytes
  pub unmarshal_key : Bytes → Result CosPrivKey
  pub decode_base64 : String → Result Bytes
  pub new_tss : TssParameters → Result TssServer

abbrev tss_parameters : String → TssConfig → Bytes → TssParameters
tss_parameters base c key = record {
  peers = c.bootstrap_peers;
  tss_port = c.port;
  priv_key = key;
  rendezvous_text = c.rendezvous_string;
  base_folder = base;
  timeouts = (c.party_timeout, (c.key_gen_timeout, (c.key_sign_timeout, c.pre_param_timeout)));
  external_address = c.external_ip;
}

-- StartTssServer: the server, the key and the error. Where NewTss fails, a server without a library's one
-- and the key are returned with the error; here `none` is both that server and a nil one.
unfoldable pub start_tss_server :
    TssHost → String → TssConfig → Option TssServer × (CosPrivKey × Result (Unit {0}))
start_tss_server host base c = elim (host.read_key_file base) [
  | err e ↦ (none, (no_key, err e))
  | ok bytes ↦ elim (host.unmarshal_key bytes) [
    | err e ↦ (none, (no_key, err e))
    | ok key ↦ elim (host.decode_base64 key.priv_key_value) [
      | err e ↦ (none, (no_key, err e))
      | ok priv_key ↦ elim (host.new_tss (tss_parameters base c priv_key)) [
        | err e ↦ (none, (key, err e))
        | ok ts ↦ (some ts, (key, ok tt))
      ]
    ]
  ]
]

-- GetTssNodeID of a server that has started.
unfoldable pub get_tss_node_id : TssServer → String
get_tss_node_id ts = ts.local_peer_id

-- KeyGen
unfoldable pub key_gen : TssServer → List String → ℤ → String → Result (Bool × String)
key_gen ts keys block_height version = ts.keygen keys block_height version

-- KeySign
unfoldable pub key_sign :
    TssServer → String → List String → ℤ → List String → String → Result (Bool × List TssSignature)
key_sign ts pk msgs block_height signers version = ts.keysign pk msgs block_height signers version
