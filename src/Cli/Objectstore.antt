-- ===== src/Cli/Objectstore.antt =====
-- cli/src/machine/objectstore.rs: the handler of the object store's commands.
use basin.Prelude.{ℕ, String, Bool, if◌then◌else◌, not, Option, none, some, List, [], ◌∷◌}
use basin.Prelude.Bytes.{Bytes}
use basin.Result
use basin.Result.{Result, ok, err, halt, message}
use basin.Run.{Run, done, lift, on_world, ◌>>=◌}
use basin.Foreign.{Foreign}
use basin.Foreign.Data.{QueryHeight, StoredObject}
use basin.Provider.JsonRpc.{JsonRpcProvider, as_query_provider}
use basin.Provider.JsonRpc.Complete.{as_provider}
use basin.Signer.Subnet.{SubnetId}
use basin.Signer.Wallet.{wallet_signer}
use basin.Signer.Void.{void_signer}
use basin.Sdk.Machine.{list_machines}
use basin.Sdk.Network.{object_api_url}
use basin.Sdk.ObjectStore.{Reader, new, attach, add, delete}
use basin.Sdk.ObjectStore.Access.{get, query}
use basin.Cli.Choice.{BroadcastMode, get_network, get_broadcast_mode}
use basin.Cli.{Cli, TxArgs, AddressArgs, to_tx_params, get_subnet_id, get_address, overridden}
use basin.Cli.Command.{
  Document, created, receipt, object_list, printing, rpc_provider, with_wallet, with_state,
  write_access, listing, CreateArgs,
}

-- `unwrap_or_default()` on a result
abbrev unwrap_or_default : {A : Type 0} → A → Result A → Result A
unwrap_or_default a (ok b) = ok b
unwrap_or_default a (err e) = ok a
unwrap_or_default a (halt h) = halt h

module _ (F : Foreign) where
  pub record PutArgs : Type 0 where
    pub private_key : F.SecretKey
    pub object_api_url : Option F.Url
    pub address : F.Address
    pub key : String
    pub overwrite : Bool
    pub input : String
    pub broadcast_mode : BroadcastMode
    pub tx_args : TxArgs F
    pub metadata : List (String × String)

  pub record DeleteArgs : Type 0 where
    pub private_key : F.SecretKey
    pub address : F.Address
    pub key : String
    pub broadcast_mode : BroadcastMode
    pub tx_args : TxArgs F

  pub record GetArgs : Type 0 where
    pub object_api_url : Option F.Url
    pub address : F.Address
    pub key : String
    pub range : Option String
    pub height : QueryHeight

  pub record ObjectsArgs : Type 0 where
    pub address : F.Address
    pub prefix : String
    pub delimiter : String
    pub offset : ℕ
    pub limit : ℕ
    pub height : QueryHeight

  pub data ObjectstoreCommands : Type 0 where
    create : CreateArgs F → ObjectstoreCommands
    list : AddressArgs F → ObjectstoreCommands
    put : PutArgs → ObjectstoreCommands
    remove : DeleteArgs → ObjectstoreCommands
    fetch : GetArgs → ObjectstoreCommands
    find : ObjectsArgs → ObjectstoreCommands

  -- The provider with the object API that is given, or the preset's.
  unfoldable pub object_provider : Cli F → Option F.Url → Result (JsonRpcProvider F)
  object_provider cli url =
      Result.◌>>=◌ (overridden F url (object_api_url F (get_network cli.network)))
        λ api. rpc_provider F cli (some api)

  create_store : JsonRpcProvider F → SubnetId F → CreateArgs F → Run F.World (Document F)
  create_store p id args =
      with_wallet F p args.private_key id (to_tx_params F args.tx_args).sequence (do
        made ←
            new F (as_provider F p) (wallet_signer F) (write_access args.public_write)
              (to_tx_params F args.tx_args).gas_params
        done (created (F.address_text made.0.address) made.1))

  list_stores : JsonRpcProvider F → SubnetId F → AddressArgs F → Run F.World (Document F)
  list_stores p id args = do
    address ← lift (get_address F args id)
    ms ←
        with_state (record { address = address })
          (list_machines F (as_query_provider F p) (void_signer F) F.object_store_kind args.height)
    done (listing F ms)

  -- The file as the reader that `add` takes.
  unfoldable pub file_reader : F.File → Reader
  file_reader f = record {
    reads = F.file_reads f;
    rewind = F.file_rewind f;
    stream = F.file_stream f;
  }

  unfoldable pub put_file : JsonRpcProvider F → SubnetId F → PutArgs → Run F.World (Document F)
  unfolding file_reader
  put_file p id args =
      with_wallet F p args.private_key id (to_tx_params F args.tx_args).sequence (do
        file ← on_world (F.file_open args.input)
        is_file ← on_world (F.file_is_file file)
        if not is_file then lift (err (message "input must be a file")) else do
          tx ←
              add F (as_provider F p) (wallet_signer F) (attach F args.address) args.key
                (file_reader file)
                (record {
                  overwrite = args.overwrite;
                  broadcast_mode = get_broadcast_mode args.broadcast_mode;
                  gas_params = (to_tx_params F args.tx_args).gas_params;
                  metadata = F.hash_map_of args.metadata;
                })
          done (receipt tx))

  unfoldable pub delete_object :
      JsonRpcProvider F → SubnetId F → DeleteArgs → Run F.World (Document F)
  delete_object p id args =
      with_wallet F p args.private_key id (to_tx_params F args.tx_args).sequence (do
        tx ← delete F (as_provider F p) (wallet_signer F) (attach F args.address) args.key (record {
          broadcast_mode = get_broadcast_mode args.broadcast_mode;
          gas_params = (to_tx_params F args.tx_args).gas_params;
        })
        done (receipt tx))

  fetch_object : JsonRpcProvider F → GetArgs → Run (F.Console × F.World) (Unit {0})
  fetch_object p args =
      get F (as_provider F p) (attach F args.address) F.stdout_write_all args.key
        (record { range = args.range; height = args.height })

  -- The entries of a listing: the key, the text of the CID, and the rest of the object. A key that is
  -- no text stands as the empty one, and a CID that cannot be read as the default one.
  shown_objects : List (Bytes × StoredObject) → Result (List (String × (String × StoredObject)))
  shown_objects [] = ok []
  shown_objects ((k, o) ∷ rest) = Result.◌>>=◌ (unwrap_or_default "" (F.from_utf8 k)) λ key.
      Result.◌>>=◌ (unwrap_or_default F.default_cid (F.cid_of_bytes o.cid))
        λ cid. Result.◌>>=◌ (shown_objects rest) λ others. ok ((key, (F.cid_text cid, o)) ∷ others)

  shown_prefixes : List Bytes → Result (List String)
  shown_prefixes [] = ok []
  shown_prefixes (b ∷ rest) =
      Result.◌>>=◌ (unwrap_or_default "" (F.from_utf8 b))
        λ prefix. Result.◌>>=◌ (shown_prefixes rest) λ others. ok (prefix ∷ others)

  find_objects : JsonRpcProvider F → ObjectsArgs → Run F.World (Document F)
  unfolding shown_objects shown_prefixes
  find_objects p args = do
    found ← query F (as_provider F p) (attach F args.address) (record {
      prefix = args.prefix;
      delimiter = args.delimiter;
      offset = args.offset;
      limit = args.limit;
      height = args.height;
    })
    objects ← lift (shown_objects found.objects)
    prefixes ← lift (shown_prefixes found.common_prefixes)
    done (object_list objects prefixes)

  module _ (pretty : Document F → Result String) (cli : Cli F) (id : SubnetId F) where
    unfoldable pub run_objectstore : ObjectstoreCommands → Run (F.Console × F.World) (Unit {0})
    unfolding create_store list_stores fetch_object find_objects
    run_objectstore (create args) = do
      p ← lift (rpc_provider F cli none)
      printing F pretty (create_store p id args)
    run_objectstore (list args) = do
      p ← lift (rpc_provider F cli none)
      printing F pretty (list_stores p id args)
    run_objectstore (put args) = do
      p ← lift (object_provider cli args.object_api_url)
      printing F pretty (put_file p id args)
    run_objectstore (remove args) = do
      p ← lift (rpc_provider F cli none)
      printing F pretty (delete_object p id args)
    run_objectstore (fetch args) = do
      p ← lift (object_provider cli args.object_api_url)
      fetch_object p args
    run_objectstore (find args) = do
      p ← lift (rpc_provider F cli none)
      printing F pretty (find_objects p args)

  unfoldable pub handle_objectstore :
      (Document F → Result String)
      → Cli F
      → ObjectstoreCommands
      → Run (F.Console × F.World) (Unit {0})
  handle_objectstore pretty cli command = do
    id ← lift (get_subnet_id F cli)
    run_objectstore pretty cli id command
