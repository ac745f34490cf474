-- ===== src/Effects/Success/Cli/Main.antt =====
-- cli/src/main.rs: `main`, where a command that submits a transaction succeeds.
use basin.Prelude.{◌≡◌, refl, String, none, true}
use basin.Result.{Result, is_ok}
use basin.Foreign.{Foreign}
use basin.Provider.JsonRpc.{JsonRpcProvider}
use basin.Provider.JsonRpc.Complete.{as_provider}
use basin.Signer.Subnet.{SubnetId}
use basin.Signer.Wallet.{wallet_signer}
use basin.Sdk.Network.{init}
use basin.Sdk.Accumulator
use basin.Sdk.ObjectStore
use basin.Cli.Choice.{get_network}
use basin.Cli.{Cli, to_tx_params, get_subnet_id}
use basin.Cli.Command.{Document, rpc_provider, write_access}
use basin.Cli.Account.{
  AccountCommands, create, info, deposit_funds, withdraw_funds, transfer_funds, run_account,
  handle_account,
}
use basin.Cli.Accumulator.{
  AccumulatorCommands, create, list, push_value, get_leaf, get_count, get_peaks, get_root,
  run_accumulator, handle_accumulator,
}
use basin.Cli.Objectstore.{
  ObjectstoreCommands, create, list, put, remove, fetch, find, object_provider, run_objectstore,
  handle_objectstore,
}
use basin.Cli.Main.{Commands, main, dispatch, account, machine, objectstore, accumulator}
use basin.Effects.{alone, beside, stay, then_read, none-then, network_step, unmoved}
use basin.Effects.Cli.Account.{account_submits}
use basin.Effects.Cli.Machines.{accumulator_submits}
use basin.Effects.Cli.Objectstore.{objectstore_submits}
use basin.Effects.Cli.Main.{submits}
use basin.Effects.Success.{Submitted, Sends, quiet_last, result_first}
use basin.Effects.Success.Sdk.{new_accumulator-Sends, new_store-Sends}
use basin.Effects.Success.Cli.{
  printing-Sends, with_wallet-Sends, push_input-Sends, put_file-Sends, delete_object-Sends,
  deposit_from_parent-Sends, withdraw_to_parent-Sends, transfer_within-Sends,
}

module _ (F : Foreign) (pretty : Document F → Result String) where
  run_account-Sends :
      (cli : Cli F) (id : SubnetId F) (p : JsonRpcProvider F) (command : AccountCommands F)
      → account_submits F command ≡ 1
      → Sends F (alone F) (run_account F cli id p command)
  unfolding run_account
  run_account-Sends cli id p create one = cc
  run_account-Sends cli id p (info a) one = cc
  run_account-Sends cli id p (deposit_funds a) one = deposit_from_parent-Sends F cli id a
  run_account-Sends cli id p (withdraw_funds a) one = withdraw_to_parent-Sends F cli id a
  run_account-Sends cli id p (transfer_funds a) one = transfer_within-Sends F cli id a

  run_accumulator-Sends :
      (p : JsonRpcProvider F) (id : SubnetId F) (command : AccumulatorCommands F)
      → accumulator_submits F command ≡ 1
      → Sends F (beside F) (run_accumulator F pretty p id command)
  unfolding run_accumulator
  run_accumulator-Sends p id (create a) one =
      let access = write_access a.public_write in
      let gas = (to_tx_params F a.tx_args).gas_params in
      printing-Sends F pretty _ (
        with_wallet-Sends F p _ id _ _ (
          quiet_last F (beside F) (Accumulator.new F (as_provider F p) (wallet_signer F) access gas)
            _ (new_accumulator-Sends F p (wallet_signer F) access gas)
            λ made. unmoved F (beside F) 0 _ λ s. refl))
  run_accumulator-Sends p id (push_value a) one =
      printing-Sends F pretty _ (push_input-Sends F p id a)
  run_accumulator-Sends p id (list a) one = cc
  run_accumulator-Sends p id (get_leaf a) one = cc
  run_accumulator-Sends p id (get_count a) one = cc
  run_accumulator-Sends p id (get_peaks a) one = cc
  run_accumulator-Sends p id (get_root a) one = cc

  run_objectstore-Sends :
      (cli : Cli F) (id : SubnetId F) (command : ObjectstoreCommands F)
      → objectstore_submits F command ≡ 1
      → Sends F (beside F) (run_objectstore F pretty cli id command)
  unfolding run_objectstore
  run_objectstore-Sends cli id (create a) one =
      let access = write_access a.public_write in
      let gas = (to_tx_params F a.tx_args).gas_params in
      result_first F (beside F) (rpc_provider F cli none) _ λ p. printing-Sends F pretty _ (
        with_wallet-Sends F p _ id _ _ (
          quiet_last F (beside F) (ObjectStore.new F (as_provider F p) (wallet_signer F) access gas)
            _ (new_store-Sends F p (wallet_signer F) access gas)
            λ made. unmoved F (beside F) 0 _ λ s. refl))
  run_objectstore-Sends cli id (put a) one =
      result_first F (beside F) (object_provider F cli a.object_api_url) _
        λ p. printing-Sends F pretty _ (put_file-Sends F p id a)
  run_objectstore-Sends cli id (remove a) one =
      result_first F (beside F) (rpc_provider F cli none) _
        λ p. printing-Sends F pretty _ (delete_object-Sends F p id a)
  run_objectstore-Sends cli id (list a) one = cc
  run_objectstore-Sends cli id (fetch a) one = cc
  run_objectstore-Sends cli id (find a) one = cc

  dispatch-Sends :
      (cli : Cli F) (command : Commands F)
      → submits F command ≡ 1
      → Sends F (beside F) (dispatch F pretty cli command)
  unfolding dispatch handle_account handle_accumulator handle_objectstore
  dispatch-Sends cli (machine a) one = cc
  dispatch-Sends cli (account a) one = result_first F (beside F) (rpc_provider F cli none) _ λ p.
      result_first F (beside F) (get_subnet_id F cli) _
        λ id. printing-Sends F pretty _ (run_account-Sends cli id p a one)
  dispatch-Sends cli (objectstore a) one =
      result_first F (beside F) (get_subnet_id F cli) _ λ id. run_objectstore-Sends cli id a one
  dispatch-Sends cli (accumulator a) one =
      result_first F (beside F) (rpc_provider F cli none) _ λ p.
        result_first F (beside F) (get_subnet_id F cli) _ λ id. run_accumulator-Sends p id a one

  -- If a command succeeds that creates a machine, pushes, puts, removes or moves funds, exactly one
  -- transaction was submitted, to the node or to an Ethereum endpoint; all other steps of the
  -- command, before and after it, submit none.
  pub main-Submitted :
      (cli : Cli F) (command : Commands F) (c : F.Console) (w : F.World)
      → submits F command ≡ 1
      → is_ok (main F pretty cli command (c, w)).0 ≡ true
      → Submitted F w (main F pretty cli command (c, w)).1.1
  unfolding main
  main-Submitted cli command c w one success =
      let start = F.set_current_network (init (get_network cli.network)) w in
      let (v, v', before, sent, after) = dispatch-Sends cli command one (c, start) success in
      (
        v,
        v',
        none-then F 0 w start v
            (then_read 0 w w start (stay 0 w) (network_step (init (get_network cli.network)) w))
            before,
        sent,
        after,
      )
