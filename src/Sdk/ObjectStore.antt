-- ===== src/Sdk/ObjectStore.antt =====
-- sdk/src/machine/objectstore.rs: a machine for objects, whose content lies with the object API and
-- whose CIDs lie on the chain. Progress bars and timers are left out.
pub mod Content
pub mod Access
pub mod Laws
pub mod Sizes
pub mod Reading
use basin.Prelude.{
  ℕ, ◌*◌, Bool, not, true, false, if◌then◌else◌, String, ◌<>◌, Option, none, some, List, [], ◌∷◌,
}
use basin.Prelude.Bytes.{Bytes}
use basin.Result.{Result, ok, err, halt, message, ok_or}
use basin.Run.{Run, done, lift, on_local, on_world, ◌>>=◌}
use basin.Foreign.{Foreign, Codec}
use basin.Foreign.Data.{AddParams, StoredObject, ObjectList, ListParams, QueryHeight, WriteAccess}
use basin.Provider.Tx.{BroadcastMode, default_mode, TxReceipt}
use basin.Provider.Message.{GasParams, default_gas, local_message, object_upload_message}
use basin.Provider.Response.{decode_as, decode_cid}
use basin.Provider.Query.{QueryProvider, run_call}
use basin.Provider.Interface.{Provider}
use basin.Signer.Subnet.{chain_id}
use basin.Signer.Interface.{Signer}
use basin.Sdk.Machine.{DeployTxReceipt, deploy_machine}
use Content.{generate_cid}

-- `AsyncRead + AsyncSeek`: what the reads give one after the other until the end, whether the reader
-- can be rewound, and the chunks in which `ReaderStream` gives it after that.
pub record Reader : Type 0 where
  pub reads : List (Result Bytes)
  pub rewind : Result (Unit {0})
  pub stream : List (Result Bytes)

module _ (F : Foreign) where
  pub record AddOptions : Type 0 where
    pub overwrite : Bool
    pub broadcast_mode : BroadcastMode
    pub gas_params : GasParams F
    -- a `HashMap`
    pub metadata : List (String × String)

  -- `AddOptions::default`
  unfoldable pub default_add : AddOptions
  default_add = record {
    overwrite = false;
    broadcast_mode = default_mode;
    gas_params = default_gas F;
    metadata = [];
  }

  pub record DeleteOptions : Type 0 where
    pub broadcast_mode : BroadcastMode
    pub gas_params : GasParams F

  pub record ObjectStore : Type 0 where
    pub address : F.Address

  -- `Machine::attach`
  unfoldable pub attach : F.Address → ObjectStore
  attach a = record { address = a }

pub record GetOptions : Type 0 where
  pub range : Option String
  pub height : QueryHeight

pub record QueryOptions : Type 0 where
  pub prefix : String
  pub delimiter : String
  pub offset : ℕ
  pub limit : ℕ
  pub height : QueryHeight

-- `QueryOptions::default`, at the default height
unfoldable pub default_query : QueryHeight → QueryOptions
default_query h = record { prefix = ""; delimiter = "/"; offset = 0; limit = 0; height = h }

abbrev pub chunk_size : ℕ
chunk_size = 1024 * 1024

module _ (F : Foreign) {S : Type 0} (provider : Provider F) (signer : Signer F S) where
  -- `Machine::new`
  unfoldable pub new :
      WriteAccess → GasParams F → Run (S × F.World) (ObjectStore F × DeployTxReceipt F)
  unfolding attach
  new access gas = do
    made ← deploy_machine F provider signer F.object_store_kind access gas
    done (attach F made.0, made.1)

  -- The parameters of `AddObject`, which the upload and the transaction both carry.
  unfoldable pub add_params : String → F.Cid → Bool → List (String × String) → ℕ → AddParams F.types
  add_params key cid overwrite metadata size = record {
    key = F.as_bytes key;
    cid = cid;
    overwrite = overwrite;
    metadata = metadata;
    size = size;
  }

  -- The chain ID of the signer's subnet.
  pub signer_chain_id : S → Result ℕ
  signer_chain_id s = elim (signer.subnet_id s) [
    | some id ↦ ok (chain_id F id)
    | none ↦ err (message "failed to get subnet ID from signer")
  ]

  unfoldable pub upload :
      ObjectStore F
      → String
      → List (Result Bytes)
      → F.Cid
      → ℕ
      → List (String × String)
      → Bool
      → Run (S × F.World) F.Cid
  unfolding add_params signer_chain_id
  upload store key stream cid size metadata overwrite s =
      (do
        params ← lift (F.add_params_codec.encode (add_params key cid overwrite metadata size))
        let msg =
            object_upload_message F (signer.address s.0) store.address F.add_object_method params
        let object = F.message_object (F.as_bytes key) cid store.address
        signed ← lift (signer.sign_message msg (some object) s.0)
        bytes ← lift (F.signed_codec.encode signed)
        id ← lift (signer_chain_id s.0)
        on_world (provider.upload stream size (F.url_safe_encode bytes) id))
        s

  -- `add` from the answer to the upload on.
  unfoldable pub add_uploaded :
      ObjectStore F
      → String
      → AddOptions F
      → F.Cid
      → ℕ
      → F.Cid
      → Run (S × F.World) (TxReceipt F.types F.Cid)
  unfolding add_params
  add_uploaded store key options cid size response_cid =
      if not (F.cid_eq response_cid cid)
      then lift (err (message "cannot verify object; cid does not match remote"))
      else do
        params ←
            lift (
              F.add_params_codec.encode
                (add_params key cid options.overwrite options.metadata size))
        msg ← on_local (
            signer.transaction (record {
              to = store.address;
              value = F.zero_tokens;
              method_num = F.add_object_method;
              params = params;
              object = some (F.message_object (F.as_bytes key) cid store.address);
              gas_params = options.gas_params;
            }))
        on_world (provider.perform _ (decode_cid F) msg options.broadcast_mode)

  unfoldable pub add :
      ObjectStore F → String → Reader → AddOptions F → Run (S × F.World) (TxReceipt F.types F.Cid)
  unfolding upload add_uploaded
  add store key reader options = do
    made ← lift (generate_cid F (F.adder_new chunk_size) reader.reads F.default_cid)
    _ ← lift reader.rewind
    response_cid ←
        upload store key reader.stream made.cid made.object_size options.metadata options.overwrite
    add_uploaded store key options made.cid made.object_size response_cid

  unfoldable pub delete :
      ObjectStore F → String → DeleteOptions F → Run (S × F.World) (TxReceipt F.types F.Cid)
  delete store key options = do
    params ← lift (F.delete_params_codec.encode (F.as_bytes key))
    msg ← on_local (
        signer.transaction (record {
          to = store.address;
          value = F.zero_tokens;
          method_num = F.delete_object_method;
          params = params;
          object = none;
          gas_params = options.gas_params;
        }))
    on_world (provider.perform _ (decode_cid F) msg options.broadcast_mode)
