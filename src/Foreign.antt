-- ===== src/Foreign.antt =====
-- What the crates call and do not contain, as one interface. A definition takes it as a parameter.
-- `Laws` (Foreign/Laws) states what the libraries document of it.
pub mod Data
pub mod Int256
pub mod Laws
pub mod Evm
pub mod Host
use basin.Prelude.{ℕ, String, Bool, Option, List}
use basin.Prelude.Bytes.{Bytes}
use basin.Prelude.Int.{ℤ}
use basin.Result.{Result, Error}
use basin.Run.{Run}
use Int256.{Int256 as Ints}
use Evm.{Eth}
use Host.{System}
use Data.{
  Types, ActorState, Message, FvmQuery, AbciQuery, DeliverTx, AsyncAnswer, SyncAnswer, CommitAnswer,
  CreateParams, CreateReturn, ListMetadataParams, AdmMetadata, MachineMetadata, ActorPushReturn,
  AddParams, StoredObject, ObjectList, ListParams, QueryHeight, Scheme,
}

-- `fvm_ipld_encoding::to_vec` (also `RawBytes::serialize`) and `from_slice` at one type.
pub record Codec (A : Type 0) : Type 0 where
  pub encode : A → Result Bytes
  pub decode : Bytes → Result A

-- IPLD encoding at the types at which the source uses it, base64 and UTF-8.
module _ (T : Types) where
  open T use {Cid, StateParams, GasEstimate, ChainMessage, SignedMessage}

  pub record Codecs : Type 0 where
    pub query_codec : Codec (FvmQuery T)
    pub chain_codec : Codec ChainMessage
    pub signed_codec : Codec SignedMessage
    pub u64_codec : Codec ℕ
    -- of a `Vec<u8>`, and of a `BytesSer`
    pub bytes_codec : Codec Bytes
    pub bytes_ser_codec : Codec Bytes
    pub maybe_bytes_codec : Codec (Option Bytes)
    pub cid_codec : Codec Cid
    pub cids_codec : Codec (List Cid)
    pub actor_state_codec : Codec ActorState
    pub state_params_codec : Codec StateParams
    pub gas_estimate_codec : Codec GasEstimate
    pub registry_codec : Codec (List (String × Cid))
    pub create_params_codec : Codec (CreateParams T)
    pub create_return_codec : Codec (CreateReturn T)
    pub list_params_codec : Codec (ListMetadataParams T)
    pub adm_list_codec : Codec (List (AdmMetadata T))
    pub machine_codec : Codec (MachineMetadata T)
    pub push_return_codec : Codec (ActorPushReturn T)
    pub add_params_codec : Codec (AddParams T)
    pub delete_params_codec : Codec Bytes
    pub get_params_codec : Codec Bytes
    pub maybe_object_codec : Codec (Option StoredObject)
    pub query_params_codec : Codec ListParams
    pub object_list_codec : Codec ObjectList
    -- `base64`'s STANDARD and URL_SAFE engines
    pub base64_encode : Bytes → String
    pub base64_decode : String → Result Bytes
    pub url_safe_encode : Bytes → String
    -- `str::as_bytes` and `String::from_utf8`
    pub as_bytes : String → Bytes
    pub from_utf8 : Bytes → Result String
    -- `ResponseDeliverTx::decode` and `DeliverTx::try_from`
    pub proto_decode : Bytes → Result T.ProtoDeliverTx
    pub deliver_tx_of_proto : T.ProtoDeliverTx → Result (DeliverTx T)

-- Values of the chain's own types.
module _ (T : Types) where
  open T use {Address, EthAddress, TokenAmount, SecretKey, Signature, Cid, Hash, Height, Code, Kind}
  open T use {ActorEthAddress}
  open T use {MessageObject, SignedMessage, ChainMessage, RealSubnet, Adder}

  pub record Chain : Type 0 where
    pub system_actor : Address
    pub adm_actor : Address
    pub zero_tokens : TokenAmount
    -- `TokenAmount::from_atto(BigInt::from_str(s)?)`, its two calls
    pub big_int_of_text : String → Result ℤ
    pub tokens_from_atto : ℤ → TokenAmount
    -- `TokenAmount::from_nano` of a u128, and `TokenAmount::from_whole`
    pub tokens_from_nano : ℕ → TokenAmount
    pub tokens_from_whole : ℕ → TokenAmount
    pub atto : TokenAmount → ℤ
    pub tokens_text : TokenAmount → String
    pub block_gas_limit : ℕ
    pub default_cid : Cid
    -- `{}` of a transaction's hash
    pub hash_text : Hash → String
    pub cid_text : Cid → String
    pub cid_of_text : String → Result Cid
    pub cid_of_bytes : Bytes → Result Cid
    pub cid_eq : Cid → Cid → Bool
    pub address_text : Address → String
    pub height_of : ℕ → Result Height
    pub height_number : QueryHeight → ℕ
    pub code_value : Code → ℕ
    pub code_is_err : Code → Bool
    pub usr_not_found : ℕ
    pub kind_text : Kind → String
    pub object_store_kind : Kind
    pub accumulator_kind : Kind
    -- the method numbers of the actors
    pub create_external_method : ℕ
    pub list_metadata_method : ℕ
    pub get_metadata_method : ℕ
    pub push_method : ℕ
    pub get_method : ℕ
    pub count_method : ℕ
    pub peaks_method : ℕ
    pub root_method : ℕ
    pub add_object_method : ℕ
    pub delete_object_method : ℕ
    pub get_object_method : ℕ
    pub list_objects_method : ℕ
    -- `MessageObject::new(key, cid, to)`
    pub message_object : Bytes → Cid → Address → MessageObject
    -- `SignedMessage::new_secp256k1` and `SignedMessage::verify_signature`, under a chain ID
    pub sign_secp256k1 : Message T → Option MessageObject → SecretKey → ℕ → Result SignedMessage
    pub verify_signature : Message T → Option MessageObject → Signature → ℕ → Result (Unit {0})
    -- `ChainMessage::Signed`
    pub signed : SignedMessage → ChainMessage
    -- `Address::new_secp256k1` and `EthAddress::new_secp256k1` of a key's public key
    pub regular_address : SecretKey → Result Address
    pub ethereum_address : SecretKey → Result Address
    -- the two calls of which `ethereum_address` consists, and `encode_hex_with_prefix` between them
    pub actor_eth_address : SecretKey → Result ActorEthAddress
    pub address_of_eth : ActorEthAddress → Address
    pub actor_eth_text : ActorEthAddress → String
    -- `hex::decode` and `SecretKey::try_from`
    pub hex_decode : String → Result Bytes
    pub secret_key_of : Bytes → Result SecretKey
    -- `hex::encode` and `SecretKey::serialize`
    pub hex_encode : Bytes → String
    pub secret_bytes : SecretKey → Bytes
    -- `payload_to_evm_address` of an address's payload
    pub delegated : Address → Result EthAddress
    -- `ipc_api::error::Error::InvalidID`, and `ipc_api::subnet_id::SubnetID`
    pub invalid_id : String → String → Error
    pub real_default : RealSubnet
    pub real_new : ℕ → List Address → RealSubnet
    pub real_parent : RealSubnet → Option RealSubnet
    pub real_is_root : RealSubnet → Bool
    pub real_root_id : RealSubnet → ℕ
    pub real_chain_id : RealSubnet → ℕ
    pub real_children : RealSubnet → List Address
    pub max_chain_id : ℕ
    -- `FileAdder::builder().with_chunker(Chunker::Size(n)).build()`, and its `push` and `finish`: the
    -- bytes of the CIDs of the blocks that they give, and how many of the bytes were consumed
    pub adder_new : ℕ → Adder
    pub adder_push : Adder → Bytes → (List Bytes × ℕ) × Adder
    pub adder_finish : Adder → List Bytes
    -- the state of an `FnvHasher` after a write to a fresh one
    pub fnv_hash : Bytes → ℕ

-- `Network::parse_address` of fvm_shared fails with `Error::UnknownNetwork` or otherwise.
pub data AddressError : Type 0 where
  unknown_network other_error : AddressError

pub data Parsed (A : Type 0) : Type 0 where
  parsed : A → Parsed A
  refused : AddressError → Parsed A

module _ (T : Types) where
  open T use {Address}

  pub record Addresses : Type 0 where
    pub parse_mainnet : String → Parsed Address
    pub parse_testnet : String → Parsed Address
    -- `ethers::types::Address::from_str` and `ethers_address_to_fil_address` after it
    pub parse_ethereum : String → Result Address

-- The network: `tendermint_rpc::Client`, and `reqwest` towards the object API.
module _ (T : Types) where
  open T use {World, Height, Url, HttpClient, Response, HeaderValue, WsUrl, WsClient}

  pub record Net : Type 0 where
    -- `std::env::var(name).ok()`
    pub env_var : String → Option String
    pub url_of_text : String → Result Url
    pub url_scheme : Url → Scheme
    pub client_new : Url → Result HttpClient
    pub client_new_with_proxy : Url → Url → Result HttpClient
    -- `abci_query(None, data, Some(height), false)`
    pub abci_query : HttpClient → Bytes → Height → Run World (AbciQuery T)
    pub broadcast_tx_async : HttpClient → Bytes → Run World (AsyncAnswer T)
    pub broadcast_tx_sync : HttpClient → Bytes → Run World (SyncAnswer T)
    pub broadcast_tx_commit : HttpClient → Bytes → Run World (CommitAnswer T)
    -- `WebSocketClient::new`, and how its URL is displayed
    pub ws_text : WsUrl → String
    pub ws_new : WsUrl → Run World WsClient
    pub url_text : Url → String
    -- `post` of a form with the fields chain_id and msg, and a body, given by its chunks, of so many
    -- bytes
    pub post_object : String → String → String → List (Result Bytes) → ℕ → Run World Response
    -- `get`, with a Range header or without
    pub get_object : String → Option String → Run World Response
    pub head_object : String → Run World Response
    pub is_success : Response → Bool
    pub body_text : Response → Run World String
    pub content_length : Response → Option HeaderValue
    pub header_text : HeaderValue → Result String
    -- `response.bytes_stream()`: the chunks, each with the world in which it has been drawn, and the
    -- world in which the end is seen
    pub body_chunks : Response → World → List (Result Bytes × World) × World

pub record Foreign : Type 1 where
  pub types : Types
  pub open types use *
  pub codecs : Codecs types
  pub open codecs use *
  pub chain : Chain types
  pub open chain use *
  pub addresses : Addresses types
  pub open addresses use *
  pub net : Net types
  pub open net use *
  pub ints : Ints
  pub eth : Eth types
  pub open eth use *
  pub host : System types
  pub open host use *
