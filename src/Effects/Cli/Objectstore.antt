-- ===== src/Effects/Cli/Objectstore.antt =====
-- cli/src/machine/objectstore.rs: the commands of the object store.
use basin.Prelude.{ℕ, String, refl, none, not, arith}
use basin.Result.{Result}
use basin.Run.{on_world}
use basin.Foreign.{Foreign}
use basin.Provider.JsonRpc.{JsonRpcProvider}
use basin.Provider.JsonRpc.Complete.{as_provider}
use basin.Signer.Subnet.{SubnetId}
use basin.Signer.Wallet.{wallet_signer}
use basin.Sdk.ObjectStore
use basin.Sdk.ObjectStore.{
  ObjectStore, AddOptions, DeleteOptions, GetOptions, QueryOptions, attach, add, delete,
}
use basin.Sdk.ObjectStore.Access.{query}
use basin.Cli.Choice.{get_broadcast_mode}
use basin.Cli.{Cli, to_tx_params, get_subnet_id}
use basin.Cli.Command.{Document, write_access, rpc_provider}
use basin.Cli.Objectstore.{
  ObjectstoreCommands, PutArgs, DeleteArgs, create, list, put, remove, fetch, find, file_reader,
  put_file, delete_object, object_provider, run_objectstore, handle_objectstore,
}
use basin.Effects.{
  Within, stay, alone, beside, lift>>=, none>>=, >>=none, if-Within, unmoved, on_world-Reaches,
  one_read, open_step, is_file_step,
}
use basin.Effects.Provider.{IsFrugal, as_provider-IsFrugal}
use basin.Effects.Sdk.{new_store-Within, add-Within, delete-Within}
use basin.Effects.Queries.{get-Within, query-Within}
use basin.Effects.Cli.{printing-Within, with_wallet-Within, listed-Within}

module _ (F : Foreign) (p : JsonRpcProvider F) (id : SubnetId F) where
  frugal : IsFrugal F (as_provider F p)
  frugal = as_provider-IsFrugal F p

  put_file-Within : (a : PutArgs F) → Within F (alone F) 1 (put_file F p id a)
  unfolding put_file
  put_file-Within a = with_wallet-Within F 1 p _ id _ _ (
      none>>= F (beside F) 1 (on_world (F.file_open a.input)) _
        (on_world-Reaches F 0 _ (one_read F _ (open_step a.input)))
        λ file.
          none>>= F (beside F) 1 (on_world (F.file_is_file file)) _
            (on_world-Reaches F 0 _ (one_read F _ (is_file_step file)))
            λ is_file.
              let options : AddOptions F = record {
                overwrite = a.overwrite;
                broadcast_mode = get_broadcast_mode a.broadcast_mode;
                gas_params = (to_tx_params F a.tx_args).gas_params;
                metadata = F.hash_map_of a.metadata;
              } in
              if-Within F (beside F) 1 (not is_file) _ _ (λ s. stay 1 s.1)
                (>>=none F (beside F) 1
                  (add F (as_provider F p) (wallet_signer F) (attach F a.address) a.key
                    (file_reader F file) options)
                  _
                  (add-Within F (as_provider F p) frugal (wallet_signer F) (attach F a.address)
                    a.key (file_reader F file) options)
                  λ tx. unmoved F (beside F) 0 _ λ s. refl))

  delete_object-Within : (a : DeleteArgs F) → Within F (alone F) 1 (delete_object F p id a)
  unfolding delete_object
  delete_object-Within a =
      let options : DeleteOptions F = record {
        broadcast_mode = get_broadcast_mode a.broadcast_mode;
        gas_params = (to_tx_params F a.tx_args).gas_params;
      } in
      with_wallet-Within F 1 p _ id _ _ (
        >>=none F (beside F) 1
          (delete F (as_provider F p) (wallet_signer F) (attach F a.address) a.key options) _
          (delete-Within F (as_provider F p) frugal (wallet_signer F) (attach F a.address) a.key
            options)
          λ tx. unmoved F (beside F) 0 _ λ s. refl)

module _ (F : Foreign) where
  -- How many transactions a command may submit.
  abbrev pub objectstore_submits : ObjectstoreCommands F → ℕ
  objectstore_submits (create a) = 1
  objectstore_submits (list a) = 0
  objectstore_submits (put a) = 1
  objectstore_submits (remove a) = 1
  objectstore_submits (fetch a) = 0
  objectstore_submits (find a) = 0

module _ (F : Foreign) (pretty : Document F → Result String) where
  module _ (cli : Cli F) where
    run_objectstore-Within :
        (id : SubnetId F) (command : ObjectstoreCommands F)
        → Within F
            (beside F)
            (objectstore_submits F command)
            (run_objectstore F pretty cli id command)
    unfolding run_objectstore
    run_objectstore-Within id (create a) = lift>>= F (beside F) 1 (rpc_provider F cli none) _ λ p.
        printing-Within F 1 pretty _ (
          with_wallet-Within F 1 p _ id _ _ (
            >>=none F (beside F) 1
              (ObjectStore.new F (as_provider F p) (wallet_signer F) (write_access a.public_write)
                (to_tx_params F a.tx_args).gas_params)
              _
              (new_store-Within F (as_provider F p) (as_provider-IsFrugal F p) (wallet_signer F)
                (write_access a.public_write) (to_tx_params F a.tx_args).gas_params)
              λ made. unmoved F (beside F) 0 _ λ s. refl))
    run_objectstore-Within id (list a) =
        lift>>= F (beside F) 0 (rpc_provider F cli none) _
          λ p. printing-Within F 0 pretty _ (listed-Within F p id a F.object_store_kind)
    run_objectstore-Within id (put a) =
        lift>>= F (beside F) 1 (object_provider F cli a.object_api_url) _
          λ p. printing-Within F 1 pretty _ (put_file-Within F p id a)
    run_objectstore-Within id (remove a) =
        lift>>= F (beside F) 1 (rpc_provider F cli none) _
          λ p. printing-Within F 1 pretty _ (delete_object-Within F p id a)
    run_objectstore-Within id (fetch a) =
        lift>>= F (beside F) 0 (object_provider F cli a.object_api_url) _ λ p.
          get-Within F (as_provider F p) (as_provider-IsFrugal F p) (attach F a.address)
            F.stdout_write_all a.key _
    run_objectstore-Within id (find a) = lift>>= F (beside F) 0 (rpc_provider F cli none) _ λ p.
        let options : QueryOptions = record {
          prefix = a.prefix;
          delimiter = a.delimiter;
          offset = a.offset;
          limit = a.limit;
          height = a.height;
        } in
        printing-Within F 0 pretty _ (
          none>>= F (alone F) 0 (query F (as_provider F p) (attach F a.address) options) _
            (query-Within F (as_provider F p) (as_provider-IsFrugal F p) (attach F a.address)
              options)
            λ found. unmoved F (alone F) 0 _ λ w. ground arith)

    pub handle_objectstore-Within :
        (command : ObjectstoreCommands F)
        → Within F
            (beside F)
            (objectstore_submits F command)
            (handle_objectstore F pretty cli command)
    unfolding handle_objectstore
    handle_objectstore-Within command =
        lift>>= F (beside F) (objectstore_submits F command) (get_subnet_id F cli) _
          λ id. run_objectstore-Within id command
