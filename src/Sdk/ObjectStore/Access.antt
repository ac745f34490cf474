-- ===== src/Sdk/ObjectStore/Access.antt =====
-- sdk/src/machine/objectstore.rs: getting an object and querying for objects.
use basin.Prelude.{not, if◌then◌else◌, String, ◌<>◌, Option}
use basin.Prelude.Bytes.{Bytes}
use basin.Result.{Result, err, message, ok_or}
use basin.Run.{Run, done, lift, on_world, ◌>>=◌}
use basin.Foreign.{Foreign}
use basin.Foreign.Data.{StoredObject, ObjectList, DeliverTx}
use basin.Provider.Message.{local_message}
use basin.Provider.Response.{decode_as}
use basin.Provider.Query.{run_call}
use basin.Provider.Interface.{Provider}
use basin.Sdk.ObjectStore.{ObjectStore, GetOptions, QueryOptions}
use basin.Sdk.ObjectStore.Content.{copy_chunks}

module _ (F : Foreign) (provider : Provider F) (store : ObjectStore F) where
  unfoldable pub decode_get : DeliverTx F.types → Result (Option StoredObject)
  decode_get = decode_as F F.maybe_object_codec "Option<Object>"

  decode_list : DeliverTx F.types → Result ObjectList
  decode_list = decode_as F F.object_list_codec "ObjectList"

  -- The first half of `get`: what the chain says of the object.
  unfoldable pub get_info : String → GetOptions → Run F.World StoredObject
  unfolding decode_get
  get_info key options = do
    params ← lift (F.get_params_codec.encode (F.as_bytes key))
    response ←
        run_call F provider.queries (local_message F store.address F.get_object_method params)
          options.height decode_get
    lift (ok_or (message ("object not found for key '" <> key <> "'")) response.value)

  -- The second half up to the stream: the response that is copied.
  unfoldable pub open_object : String → GetOptions → StoredObject → Run F.World F.Response
  open_object key options object = do
    _ ← lift (F.cid_of_bytes object.cid)
    if not object.resolved then lift (err (message "object is not resolved")) else do
      _ ← provider.size store.address key (F.height_number options.height)
      provider.download store.address key options.range (F.height_number options.height)

  module _ {O : Type 0} (write_all : Bytes → Run O (Unit {0})) where
    copy_body : F.Response → Run (O × F.World) (Unit {0})
    copy_body response s = copy_chunks write_all (F.body_chunks response s.1) s

    unfoldable pub get : String → GetOptions → Run (O × F.World) (Unit {0})
    unfolding get_info open_object copy_body
    get key options = do
      object ← on_world (get_info key options)
      response ← on_world (open_object key options object)
      copy_body response

  unfoldable pub query : QueryOptions → Run F.World ObjectList
  unfolding decode_list
  query options = do
    params ← lift (
        F.query_params_codec.encode (record {
          prefix = F.as_bytes options.prefix;
          delimiter = F.as_bytes options.delimiter;
          offset = options.offset;
          limit = options.limit;
        }))
    response ←
        run_call F provider.queries (local_message F store.address F.list_objects_method params)
          options.height decode_list
    done response.value
