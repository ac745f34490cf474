-- ===== src/Foreign/Data.antt =====
-- The data of the libraries that the crates build on (fvm_shared, fendermint, tendermint, ipc_api,
-- reqwest). Opaque types are fields of `Types`. Structs and enums whose fields and constructors the
-- source itself reads or writes are declared with those.
use basin.Prelude.{ℕ, String, Bool, Option, List}
use basin.Prelude.Int.{ℤ}
use basin.Prelude.Bytes.{Bytes}

pub record Types : Type 1 where
  -- everything outside the process: the node, the object API, the Ethereum endpoint
  pub World : Type 0
  pub Address : Type 0
  pub TokenAmount : Type 0
  -- `ethers::types::Address`
  pub EthAddress : Type 0
  pub SecretKey : Type 0
  pub Signature : Type 0
  -- `cid::Cid`
  pub Cid : Type 0
  pub Hash : Type 0
  pub Height : Type 0
  -- `tendermint::abci::Code`
  pub Code : Type 0
  -- `fendermint_vm_message::signed::Object`
  pub MessageObject : Type 0
  pub SignedMessage : Type 0
  pub ChainMessage : Type 0
  -- `ipc_api::subnet_id::SubnetID`
  pub RealSubnet : Type 0
  pub Url : Type 0
  -- `tendermint_rpc::HttpClient`
  pub HttpClient : Type 0
  -- `reqwest::Response`, and a header's value
  pub Response : Type 0
  pub HeaderValue : Type 0
  pub StateParams : Type 0
  pub GasEstimate : Type 0
  -- `tendermint_proto::abci::ResponseDeliverTx`
  pub ProtoDeliverTx : Type 0
  pub Kind : Type 0
  -- `rust_unixfs::file::adder::FileAdder`
  pub Adder : Type 0
  -- of `ethers`: `Provider<Http>`, `LocalWallet`, a sent transaction, and `TransactionReceipt`
  pub EthProvider : Type 0
  pub LocalWallet : Type 0
  pub PendingTx : Type 0
  pub EthReceipt : Type 0
  -- `reqwest::Client`
  pub WebClient : Type 0
  -- `WebSocketClientUrl`, and `WebSocketClient` with its driver
  pub WsUrl : Type 0
  pub WsClient : Type 0
  -- of the gateway's bindings: `SubnetID` and `FvmAddress`
  pub GatewaySubnet : Type 0
  pub FvmAddress : Type 0
  -- fendermint's own `EthAddress`, which is not that of `ethers`
  pub ActorEthAddress : Type 0
  -- standard output, an opened file, and an input that is a file or standard input
  pub Console : Type 0
  pub File : Type 0
  pub Input : Type 0
  pub InputReader : Type 0

-- `FvmQueryHeight`
pub data QueryHeight : Type 0 where
  committed pending : QueryHeight
  at_height : ℕ → QueryHeight

-- `tendermint_rpc::Scheme`, of which the code names two
pub data Scheme : Type 0 where
  http https other_scheme : Scheme

-- `fendermint_actor_machine::WriteAccess`
pub data WriteAccess : Type 0 where
  only_owner public_write : WriteAccess

-- fvm_shared's network, which decides how addresses are read and printed.
pub data FvmNetwork : Type 0 where
  fvm_mainnet fvm_testnet : FvmNetwork

-- `ActorState`, of which the code reads the sequence.
pub record ActorState : Type 0 where
  pub sequence : ℕ

module _ (T : Types) where
  open T use {Address, TokenAmount, Cid, Hash, Height, Code, Kind}

  -- `fvm_shared::message::Message`
  pub record Message : Type 0 where
    pub version : ℕ
    pub from : Address
    pub to : Address
    pub sequence : ℕ
    pub value : TokenAmount
    pub method_num : ℕ
    pub params : Bytes
    pub gas_limit : ℕ
    pub gas_fee_cap : TokenAmount
    pub gas_premium : TokenAmount

  -- `FvmQuery`
  pub data FvmQuery : Type 0 where
    ipld : Cid → FvmQuery
    actor_state : Address → FvmQuery
    call : Message → FvmQuery
    estimate_gas : Message → FvmQuery
    state_params : FvmQuery
    builtin_actors : FvmQuery

  -- `AbciQuery`
  pub record AbciQuery : Type 0 where
    pub code : Code
    pub info : String
    pub key : Bytes
    pub value : Bytes
    pub height : Height

  -- `tendermint::abci::response::DeliverTx`
  pub record DeliverTx : Type 0 where
    pub code : Code
    pub tx_data : Bytes
    pub info : String
    pub log : String
    pub gas_used : ℤ

  -- The answers to the three broadcast calls.
  pub record AsyncAnswer : Type 0 where
    pub hash : Hash

  pub record SyncAnswer : Type 0 where
    pub code : Code
    pub log : String
    pub hash : Hash

  pub record CheckTx : Type 0 where
    pub code : Code
    pub info : String
    pub log : String

  pub record CommitAnswer : Type 0 where
    pub check_tx : CheckTx
    pub deliver_tx : DeliverTx
    pub hash : Hash
    pub height : Height

  -- `CreateExternalParams`, `CreateExternalReturn`, `ListMetadataParams`, `adm::Metadata`
  pub record CreateParams : Type 0 where
    pub kind : Kind
    pub write_access : WriteAccess

  pub record CreateReturn : Type 0 where
    pub robust_address : Option Address

  pub record ListMetadataParams : Type 0 where
    pub owner : Address

  pub record AdmMetadata : Type 0 where
    pub kind : Kind
    pub address : Address

  -- `fendermint_actor_machine::Metadata`
  pub record MachineMetadata : Type 0 where
    pub kind : Kind
    pub owner : Address

  -- `fendermint_actor_accumulator::PushReturn`
  pub record ActorPushReturn : Type 0 where
    pub root : Cid
    pub index : ℕ

  -- `fendermint_actor_objectstore`: the parameters of its methods, and what they return.
  pub record AddParams : Type 0 where
    pub key : Bytes
    pub cid : Cid
    pub overwrite : Bool
    pub metadata : List (String × String)
    pub size : ℕ

pub record StoredObject : Type 0 where
  pub cid : Bytes
  pub resolved : Bool
  pub size : ℕ
  pub metadata : List (String × String)

pub record ObjectList : Type 0 where
  pub objects : List (Bytes × StoredObject)
  pub common_prefixes : List Bytes

pub record ListParams : Type 0 where
  pub prefix : Bytes
  pub delimiter : Bytes
  pub offset : ℕ
  pub limit : ℕ
