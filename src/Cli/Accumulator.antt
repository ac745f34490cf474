-- ===== src/Cli/Accumulator.antt =====
-- cli/src/machine/accumulator.rs: the handler of the accumulator's commands.
pub mod Laws
use basin.Prelude.{ℕ, String, Bool, Option, none, List, map}
use basin.Prelude.Bytes.{Bytes}
use basin.Result.{Result}
use basin.Run.{Run, done, lift, on_world, on_local, ◌>>=◌}
use basin.Foreign.{Foreign}
use basin.Foreign.Data.{QueryHeight, AdmMetadata}
use basin.Provider.Query.{QueryProvider}
use basin.Provider.JsonRpc.{JsonRpcProvider, as_query_provider}
use basin.Provider.JsonRpc.Complete.{as_provider}
use basin.Signer.Subnet.{SubnetId}
use basin.Signer.Wallet.{wallet_signer}
use basin.Signer.Void.{void_signer}
use basin.Sdk.Machine.{list_machines}
use basin.Sdk.Accumulator.{new, attach, push, leaf, count, peaks, root}
use basin.Cli.Choice.{BroadcastMode, get_broadcast_mode}
use basin.Cli.{Cli, TxArgs, AddressArgs, to_tx_params, get_subnet_id, get_address}
use basin.Cli.Command.{
  Document, created, listed, pushed, leaf_count, peak_list, root_text, printing, rpc_provider,
  with_wallet, with_state, write_access, listing, CreateArgs,
}

module _ (F : Foreign) where
  pub record PushArgs : Type 0 where
    pub private_key : F.SecretKey
    pub address : F.Address
    pub input : F.Input
    pub broadcast_mode : BroadcastMode
    pub tx_args : TxArgs F

  pub record QueryArgs : Type 0 where
    pub address : F.Address
    pub height : QueryHeight

  pub record LeafArgs : Type 0 where
    pub address : F.Address
    pub index : ℕ
    pub height : QueryHeight

  pub data AccumulatorCommands : Type 0 where
    create : CreateArgs F → AccumulatorCommands
    list : AddressArgs F → AccumulatorCommands
    push_value : PushArgs → AccumulatorCommands
    get_leaf : LeafArgs → AccumulatorCommands
    get_count get_peaks get_root : QueryArgs → AccumulatorCommands

  module _ (p : JsonRpcProvider F) (id : SubnetId F) where
    create_accumulator : CreateArgs F → Run F.World (Document F)
    create_accumulator args =
        with_wallet F p args.private_key id (to_tx_params F args.tx_args).sequence (do
          made ←
              new F (as_provider F p) (wallet_signer F) (write_access args.public_write)
                (to_tx_params F args.tx_args).gas_params
          done (created (F.address_text made.0.address) made.1))

    list_accumulators : AddressArgs F → Run F.World (Document F)
    list_accumulators args = do
      address ← lift (get_address F args id)
      ms ←
          with_state (record { address = address })
            (list_machines F (as_query_provider F p) (void_signer F) F.accumulator_kind args.height)
      done (listing F ms)

    unfoldable pub push_input : PushArgs → Run F.World (Document F)
    push_input args = with_wallet F p args.private_key id (to_tx_params F args.tx_args).sequence (do
      reader ← on_world (F.open_input args.input)
      payload ← on_world (F.read_to_end reader)
      tx ← push F (as_provider F p) (wallet_signer F) (attach F args.address) payload (record {
        broadcast_mode = get_broadcast_mode args.broadcast_mode;
        gas_params = (to_tx_params F args.tx_args).gas_params;
      })
      done (pushed tx))

  module _ (pretty : Document F → Result String) (p : JsonRpcProvider F) (id : SubnetId F) where
    unfoldable pub run_accumulator : AccumulatorCommands → Run (F.Console × F.World) (Unit {0})
    unfolding create_accumulator list_accumulators push_input
    run_accumulator (create args) = printing F pretty (create_accumulator p id args)
    run_accumulator (list args) = printing F pretty (list_accumulators p id args)
    run_accumulator (push_value args) = printing F pretty (push_input p id args)
    run_accumulator (get_leaf args) = do
      bytes ←
          on_world (leaf F (as_query_provider F p) (attach F args.address) args.index args.height)
      on_local (F.stdout_write_all bytes)
    run_accumulator (get_count args) = printing F pretty (do
      n ← count F (as_query_provider F p) (attach F args.address) args.height
      done (leaf_count n))
    run_accumulator (get_peaks args) = printing F pretty (do
      cs ← peaks F (as_query_provider F p) (attach F args.address) args.height
      done (peak_list cs))
    run_accumulator (get_root args) = printing F pretty (do
      c ← root F (as_query_provider F p) (attach F args.address) args.height
      done (root_text (F.cid_text c)))

  unfoldable pub handle_accumulator :
      (Document F → Result String)
      → Cli F
      → AccumulatorCommands
      → Run (F.Console × F.World) (Unit {0})
  handle_accumulator pretty cli command = do
    p ← lift (rpc_provider F cli none)
    id ← lift (get_subnet_id F cli)
    run_accumulator pretty p id command
