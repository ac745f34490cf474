-- ===== src/Examples/Objectstore.antt =====
-- sdk/examples/objectstore_add.rs.
use basin.Prelude.{◌*◌, String, ◌<>◌, Bool, true, false, List, [], ◌∷◌, none, some}
use basin.Prelude.Bytes.{Bytes}
use basin.Result.{Result, ok, err, halt}
use basin.Run.{Run, lift, done, on_world, ◌>>=◌}
use basin.Foreign.{Foreign}
use basin.Foreign.Data.{StoredObject, only_owner, committed}
use basin.Provider.Message.{default_gas}
use basin.Provider.Http.{new_http}
use basin.Provider.JsonRpc.{JsonRpcProvider, as_query_provider}
use basin.Provider.JsonRpc.Complete.{as_provider}
use basin.Signer.Wallet.{Wallet, ethereum, new_secp256k1, wallet_signer, init_sequence}
use basin.Sdk.Network.{testnet, subnet_id, rpc_url, object_api_url}
use basin.Sdk.ObjectStore.{new, add, default_add, default_query}
use basin.Sdk.ObjectStore.Access.{query}
use basin.Cli.Objectstore.{file_reader}
use basin.Examples.{key_argument, say, use_testnet, with_signer}

-- `{}` of a bool
abbrev bool_text : Bool → String
bool_text true = "true"
bool_text false = "false"

-- `unwrap_or_default` on a text
abbrev pub text_or_empty : Result String → Result String
text_or_empty (ok s) = ok s
text_or_empty (err e) = ok ""
text_or_empty (halt h) = halt h

module _ (F : Foreign) where
  -- A temporary file with 1 MiB of random bytes, at its start.
  unfoldable pub random_file : Run F.World F.File
  random_file = do
    new_file ← F.temp_file
    random_data ← λ w. (ok (F.random_bytes (1024 * 1024) w).0, (F.random_bytes (1024 * 1024) w).1)
    written ← F.file_write_all random_data new_file
    flushed ← F.file_flush written
    F.file_seek_start flushed

  -- The listing of what the query found, up to the first object whose CID cannot be read.
  unfoldable pub print_objects :
      {W : Type 0} → List (Bytes × StoredObject) → Run (F.Console × W) (Unit {0})
  print_objects [] = done tt
  print_objects ((key_bytes, object) ∷ rest) = do
    key ← lift (text_or_empty (F.from_utf8 key_bytes))
    cid ← lift (F.cid_of_bytes object.cid)
    _ ← say F (
        "Query result cid: "
        <> (F.cid_text cid
            <> (" (key="
                <> (key <> ("; detached; resolved=" <> (bool_text object.resolved <> ")"))))))
    print_objects rest

  module _ (p : JsonRpcProvider F) where
    unfoldable pub objectstore_session : Run (F.Console × (Wallet F × F.World)) (Unit {0})
    objectstore_session = do
      _ ← on_world (init_sequence F (as_query_provider F p))
      made ← on_world (new F (as_provider F p) (wallet_signer F) only_owner (default_gas F))
      let machine = made.0
      _ ← say F ("Created new object store " <> F.address_text machine.address)
      _ ← say F ("Transaction hash: 0x" <> F.hash_text made.1.hash)
      file ← on_world (on_world (random_file))
      tx ← on_world (
          add F (as_provider F p) (wallet_signer F) machine "foo/my_file" (file_reader F file)
            (default_add F))
      _ ← say F (
          "Added 1MiB file to object store "
          <> (F.address_text machine.address <> (" with key " <> "foo/my_file")))
      _ ← say F ("Transaction hash: 0x" <> F.hash_text tx.hash)
      _ ← on_world (on_world (λ w. (ok tt, F.sleep 2 w)))
      list ← on_world (
          on_world (
            query F (as_provider F p) machine
              (record (default_query committed) { prefix = "foo/" })))
      print_objects list.objects

  unfoldable pub objectstore_add : List String → Run (F.Console × F.World) (Unit {0})
  objectstore_add args = do
    sk ← lift (key_argument F args)
    _ ← use_testnet F
    url ← lift (rpc_url F testnet)
    object_url ← lift (object_api_url F testnet)
    provider ← lift (new_http F url none (some object_url))
    id ← lift (subnet_id F testnet)
    wallet ← lift (new_secp256k1 F sk ethereum id)
    with_signer F wallet (objectstore_session provider)
