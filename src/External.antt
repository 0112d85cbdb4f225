-- ===== src/External.antt =====
-- What the bridge calls in packages that are not in the repository (cosmos-sdk, go-ethereum, btcec,
-- the vault module): the parameter of every definition that uses it.
use oppy_bridge.Common.{ℕ, String, Option, List, Bool}
use oppy_bridge.Common.Result.{Result}

-- A byte slice, a Go string that is hex text, an address of either chain: its bytes.
abbrev pub Bytes : Type 0
Bytes = List ℕ

-- sdk.Coin; an amount is never negative.
pub record Coin : Type 0 where
  pub denom : String
  pub amount : ℕ

-- The fields of a vaulttypes.PoolInfo that the bridge reads.
pub record VaultPool : Type 0 where
  pub pool_pub_key : String
  pub pool_addr : Bytes
  pub nodes : List Bytes

-- A parameter that the contract's ABI decodes.
pub data AbiValue : Type 0 where
  address : Bytes → AbiValue
  integer : ℕ → AbiValue
  other : AbiValue

-- ethTypes.Transaction: what its methods return. `to` is none for a contract creation.
pub record Transaction : Type 0 where
  pub hash : Bytes
  pub to : Option Bytes
  pub payload : Option Bytes
  pub value : ℕ
  pub chain_id : ℕ
  pub sig_v : ℕ
  pub sig_r : ℕ
  pub sig_s : ℕ

pub record Env : Type 0 where
  -- common.Address.String
  pub address_text : Bytes → String
  -- common.Address.Hex, less the 0x in front
  pub address_hex : Bytes → Bytes
  -- sdk.NewDecFromStr, as the integer of units of 10 ^ -18
  pub dec_from_str : String → Result ℕ
  -- Dec.Mul by a second decimal, on those integers, before the test of its size (Common/SdkInt)
  pub dec_mul : ℕ → ℕ → ℕ
  -- crypto.Keccak256Hash(...).Big()
  pub keccak256 : List Bytes → ℕ
  -- big.Int.Bytes of an int64
  pub height_bytes : ℕ → Bytes
  -- legacybech32.UnmarshalPubKey, with the bytes of the key
  pub unmarshal_pub_key : String → Result Bytes
  -- PubKey.Address().String()
  pub pub_key_address : Bytes → Bytes
  -- AccAddressFromHex
  pub acc_address_from_hex : Bytes → Result Bytes
  -- AccAddressFromBech32
  pub acc_address_from_bech32 : String → Result Bytes
  -- ConsAddressFromHex, ConsAddressFromBech32 and ConsAddress.String
  pub cons_address_from_hex : Bytes → Result Bytes
  pub cons_address_from_bech32 : String → Result Bytes
  pub cons_address_text : Bytes → String
  -- legacybech32.MarshalPubKey of an ed25519 key
  pub marshal_pub_key : Bytes → Result String
  -- crypto.DecompressPubkey and crypto.PubkeyToAddress
  pub decompress_pubkey : Bytes → Result Bytes
  pub pubkey_to_address : Bytes → Bytes
  -- common.BytesToAddress
  pub bytes_to_address : Bytes → Bytes
  -- crypto.Ecrecover, of a hash and a signature
  pub ecrecover : Bytes → Bytes → Result Bytes
  -- LatestSignerForChainID(tx.ChainId()).Hash(tx)
  pub signer_hash : Transaction → Bytes
  -- btcec.ParsePubKey and SerializeCompressed
  pub compress_pubkey : Bytes → Result Bytes
  -- btcec.S256().N
  pub curve_order : ℕ
  -- whether the ABI has a method "transfer", and the decoding of its inputs
  pub has_transfer : Bool
  pub unpack_transfer : Bytes → Result (List AbiValue)
