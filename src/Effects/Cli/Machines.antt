-- ===== src/Effects/Cli/Machines.antt =====
-- cli/src/machine.rs, machine/accumulator.rs, machine/objectstore.rs: the commands of the machines.
use basin.Prelude.{ℕ, String, refl, none, arith}
use basin.Result.{Result}
use basin.Run.{on_world}
use basin.Foreign.{Foreign}
use basin.Provider.JsonRpc.{JsonRpcProvider, as_query_provider}
use basin.Provider.JsonRpc.Complete.{as_provider}
use basin.Signer.Subnet.{SubnetId}
use basin.Signer.Wallet.{wallet_signer}
use basin.Sdk.Machine.{machine_info}
use basin.Sdk.Accumulator
use basin.Sdk.Accumulator.{attach, push, leaf, count, peaks, root, PushOptions}
use basin.Cli.Choice.{get_broadcast_mode}
use basin.Cli.Machine.{MachineArgs, handle_machine}
use basin.Cli.{Cli, to_tx_params, get_subnet_id}
use basin.Cli.Command.{Document, write_access, rpc_provider}
use basin.Cli.Accumulator.{
  AccumulatorCommands, create, list, push_value, get_leaf, get_count, get_peaks, get_root,
  run_accumulator, handle_accumulator,
}
use basin.Effects.{
  Within, stay, alone, beside, lift>>=, none>>=, >>=none, unmoved, on_world-Reaches, one_read,
  input_step, read_step,
}
use basin.Effects.Provider.{IsQuiet, as_query_provider-IsQuiet, as_provider-IsFrugal}
use basin.Effects.Sdk.{new_accumulator-Within, push-Within}
use basin.Effects.Queries.{
  machine_info-Within, leaf-Within, count-Within, peaks-Within, root-Within,
}
use basin.Effects.Cli.{printing-Within, with_wallet-Within, listed-Within}

module _ (F : Foreign) where
  -- How many transactions a command may submit.
  abbrev pub accumulator_submits : AccumulatorCommands F → ℕ
  accumulator_submits (create a) = 1
  accumulator_submits (list a) = 0
  accumulator_submits (push_value a) = 1
  accumulator_submits (get_leaf a) = 0
  accumulator_submits (get_count a) = 0
  accumulator_submits (get_peaks a) = 0
  accumulator_submits (get_root a) = 0

module _ (F : Foreign) (pretty : Document F → Result String) where
  module _ (p : JsonRpcProvider F) (id : SubnetId F) where
    quiet : IsQuiet F (as_query_provider F p)
    quiet = as_query_provider-IsQuiet F p

    run_accumulator-Within :
        (command : AccumulatorCommands F)
        → Within F
            (beside F)
            (accumulator_submits F command)
            (run_accumulator F pretty p id command)
    unfolding run_accumulator
    run_accumulator-Within (create a) = printing-Within F 1 pretty _ (
        with_wallet-Within F 1 p _ id _ _ (
          >>=none F (beside F) 1
            (Accumulator.new F (as_provider F p) (wallet_signer F) (write_access a.public_write)
              (to_tx_params F a.tx_args).gas_params)
            _
            (new_accumulator-Within F (as_provider F p) (as_provider-IsFrugal F p) (wallet_signer F)
              (write_access a.public_write) (to_tx_params F a.tx_args).gas_params)
            λ made. unmoved F (beside F) 0 _ λ s. refl))
    run_accumulator-Within (list a) =
        printing-Within F 0 pretty _ (listed-Within F p id a F.accumulator_kind)
    run_accumulator-Within (push_value a) = printing-Within F 1 pretty _ (
        with_wallet-Within F 1 p _ id _ _ (
          none>>= F (beside F) 1 (on_world (F.open_input a.input)) _
            (on_world-Reaches F 0 _ (one_read F _ (input_step a.input)))
            λ reader.
              none>>= F (beside F) 1 (on_world (F.read_to_end reader)) _
                (on_world-Reaches F 0 _ (one_read F _ (read_step reader)))
                λ payload.
                  let options : PushOptions F = record {
                    broadcast_mode = get_broadcast_mode a.broadcast_mode;
                    gas_params = (to_tx_params F a.tx_args).gas_params;
                  } in
                  >>=none F (beside F) 1
                    (push F (as_provider F p) (wallet_signer F) (attach F a.address) payload
                      options)
                    _
                    (push-Within F (as_provider F p) (as_provider-IsFrugal F p) (wallet_signer F)
                      (attach F a.address) payload options)
                    λ tx. unmoved F (beside F) 0 _ λ s. refl))
    run_accumulator-Within (get_leaf a) =
        none>>= F (beside F) 0
          (on_world (leaf F (as_query_provider F p) (attach F a.address) a.index a.height)) _
          (on_world-Reaches F 0 _ (leaf-Within F _ quiet (attach F a.address) a.height a.index))
          λ bytes s. stay 0 s.1
    run_accumulator-Within (get_count a) = printing-Within F 0 pretty _ (
        none>>= F (alone F) 0 (count F (as_query_provider F p) (attach F a.address) a.height) _
          (count-Within F _ quiet (attach F a.address) a.height)
          λ n. unmoved F (alone F) 0 _ λ w. refl)
    run_accumulator-Within (get_peaks a) = printing-Within F 0 pretty _ (
        none>>= F (alone F) 0 (peaks F (as_query_provider F p) (attach F a.address) a.height) _
          (peaks-Within F _ quiet (attach F a.address) a.height)
          λ n. unmoved F (alone F) 0 _ λ w. refl)
    run_accumulator-Within (get_root a) = printing-Within F 0 pretty _ (
        none>>= F (alone F) 0 (root F (as_query_provider F p) (attach F a.address) a.height) _
          (root-Within F _ quiet (attach F a.address) a.height)
          λ n. unmoved F (alone F) 0 _ λ w. refl)

  pub handle_accumulator-Within :
      (cli : Cli F) (command : AccumulatorCommands F)
      → Within F
          (beside F)
          (accumulator_submits F command)
          (handle_accumulator F pretty cli command)
  unfolding handle_accumulator
  handle_accumulator-Within cli command =
      let n = accumulator_submits F command in
      lift>>= F (beside F) n (rpc_provider F cli none) _ λ p.
        lift>>= F (beside F) n (get_subnet_id F cli) _ λ id. run_accumulator-Within p id command

  pub handle_machine-Within :
      (cli : Cli F) (args : MachineArgs F)
      → Within F (beside F) 0 (handle_machine F pretty cli args)
  unfolding handle_machine
  handle_machine-Within cli args = lift>>= F (beside F) 0 (rpc_provider F cli none) _ λ p.
      printing-Within F 0 pretty _ (
        none>>= F (alone F) 0 (machine_info F (as_query_provider F p) args.address args.height) _
          (machine_info-Within F _ (as_query_provider-IsQuiet F p) args.address args.height)
          λ m. unmoved F (alone F) 0 _ λ w. ground arith)
