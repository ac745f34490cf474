-- ===== src/Effects/Success/Cli.antt =====
-- cli/src/main.rs and the handlers: a command that succeeds has submitted its transaction.
pub mod Main
use basin.Prelude.{ℕ, String, Option, refl, not, arith}
use basin.Result.{Result}
use basin.Run.{Run, on_world, ◌>>=◌}
use basin.Foreign.{Foreign}
use basin.Provider.JsonRpc.{JsonRpcProvider, as_query_provider}
use basin.Provider.JsonRpc.Complete.{as_provider}
use basin.Signer.Subnet.{SubnetId, parent}
use basin.Signer.Wallet.{Wallet, ethereum, new_secp256k1, set_sequence, wallet_signer}
use basin.Foreign.Data.{WriteAccess}
use basin.Sdk.Accumulator
use basin.Sdk.Accumulator.{push, PushOptions}
use basin.Sdk.ObjectStore
use basin.Sdk.ObjectStore.{AddOptions, DeleteOptions, add, delete}
use basin.Sdk.Account.{deposit, withdraw, transfer}
use basin.Cli.Choice.{get_broadcast_mode}
use basin.Cli.{Cli, to_tx_params, unwrap_or, get_subnet_config, get_parent_subnet_config}
use basin.Cli.Command.{Document, CreateArgs, printing, with_wallet, write_access}
use basin.Cli.Account.{
  FundArgs, TransferArgs, deposit_from_parent, withdraw_to_parent, transfer_within,
}
use basin.Cli.Accumulator.{PushArgs, push_input}
use basin.Cli.Objectstore.{PutArgs, DeleteArgs, put_file, delete_object, file_reader}
use basin.Effects.{
  stay, alone, beside, unmoved, one_read, on_world-Reaches, input_step, read_step, open_step,
  is_file_step,
}
use basin.Effects.Provider.{as_query_provider-IsQuiet}
use basin.Effects.Queries.{set_sequence-Within}
use basin.Effects.Success.{
  Sends, quiet_first, quiet_last, result_first, unless-Sends, on_world-Sends,
}
use basin.Effects.Success.Sdk.{push-Sends, add-Sends, delete-Sends}
use basin.Effects.Success.Evm.{evm_deposit-Sends, evm_withdraw-Sends, evm_transfer-Sends}

module _ (F : Foreign) where
  pub printing-Sends :
      (pretty : Document F → Result String) (m : Run F.World (Document F))
      → Sends F (alone F) m
      → Sends F (beside F) (printing F pretty m)
  unfolding printing
  printing-Sends pretty m h =
      quiet_last F (beside F) (on_world m) _ (on_world-Sends F m h) λ d s. stay 0 s.1

  pub with_wallet-Sends :
      {A : Type 0} (p : JsonRpcProvider F) (sk : F.SecretKey) (id : SubnetId F) (o : Option ℕ)
      (action : Run (Wallet F × F.World) A)
      → Sends F (beside F) action
      → Sends F (alone F) (with_wallet F p sk id o action)
  unfolding with_wallet
  with_wallet-Sends p sk id o action h =
      result_first F (alone F) (new_secp256k1 F sk ethereum id) _ λ wallet w.
        quiet_first F (beside F) (set_sequence F o (as_query_provider F p)) _
          (set_sequence-Within F (as_query_provider F p) (as_query_provider-IsQuiet F p) o) (λ _. h)
          (wallet, w)

  module _ (p : JsonRpcProvider F) (id : SubnetId F) where
    pub push_input-Sends : (a : PushArgs F) → Sends F (alone F) (push_input F p id a)
    unfolding push_input
    push_input-Sends a = with_wallet-Sends p _ id _ _ (
        quiet_first F (beside F) (on_world (F.open_input a.input)) _
          (on_world-Reaches F 0 _ (one_read F _ (input_step a.input)))
          λ reader.
            quiet_first F (beside F) (on_world (F.read_to_end reader)) _
              (on_world-Reaches F 0 _ (one_read F _ (read_step reader)))
              λ payload.
                let options : PushOptions F = record {
                  broadcast_mode = get_broadcast_mode a.broadcast_mode;
                  gas_params = (to_tx_params F a.tx_args).gas_params;
                } in
                quiet_last F (beside F)
                  (push F (as_provider F p) (wallet_signer F) (Accumulator.attach F a.address)
                    payload options)
                  _
                  (push-Sends F p (wallet_signer F) (Accumulator.attach F a.address) payload
                    options)
                  λ tx. unmoved F (beside F) 0 _ λ s. refl)

    pub put_file-Sends : (a : PutArgs F) → Sends F (alone F) (put_file F p id a)
    unfolding put_file
    put_file-Sends a = with_wallet-Sends p _ id _ _ (
        quiet_first F (beside F) (on_world (F.file_open a.input)) _
          (on_world-Reaches F 0 _ (one_read F _ (open_step a.input)))
          λ file.
            quiet_first F (beside F) (on_world (F.file_is_file file)) _
              (on_world-Reaches F 0 _ (one_read F _ (is_file_step file)))
              λ is_file.
                let options : AddOptions F = record {
                  overwrite = a.overwrite;
                  broadcast_mode = get_broadcast_mode a.broadcast_mode;
                  gas_params = (to_tx_params F a.tx_args).gas_params;
                  metadata = F.hash_map_of a.metadata;
                } in
                let store = ObjectStore.attach F a.address in
                unless-Sends F (beside F) (not is_file) _ _ (λ s. refl)
                  (quiet_last F (beside F)
                    (add F (as_provider F p) (wallet_signer F) store a.key (file_reader F file)
                      options)
                    _ (add-Sends F p (wallet_signer F) store a.key (file_reader F file) options)
                    λ tx. unmoved F (beside F) 0 _ λ s. refl))

    pub delete_object-Sends : (a : DeleteArgs F) → Sends F (alone F) (delete_object F p id a)
    unfolding delete_object
    delete_object-Sends a =
        let options : DeleteOptions F = record {
          broadcast_mode = get_broadcast_mode a.broadcast_mode;
          gas_params = (to_tx_params F a.tx_args).gas_params;
        } in
        let store = ObjectStore.attach F a.address in
        with_wallet-Sends p _ id _ _ (
          quiet_last F (beside F) (delete F (as_provider F p) (wallet_signer F) store a.key options)
            _ (delete-Sends F p (wallet_signer F) store a.key options)
            λ tx. unmoved F (beside F) 0 _ λ s. refl)

  module _ (cli : Cli F) (id : SubnetId F) where
    pub deposit_from_parent-Sends :
        (a : FundArgs F) → Sends F (alone F) (deposit_from_parent F cli id a)
    unfolding deposit_from_parent deposit
    deposit_from_parent-Sends a =
        result_first F (alone F) (get_parent_subnet_config F cli id a.subnet) _ λ config.
          result_first F (alone F) (parent F id) _ λ above.
            result_first F (alone F) (new_secp256k1 F a.private_key ethereum above) _ λ wallet.
              quiet_last F (alone F)
                (deposit F (wallet_signer F) wallet (unwrap_or a.to wallet.addr) config a.amount) _
                (evm_deposit-Sends F (wallet_signer F) wallet _ config a.amount)
                λ tx. unmoved F (alone F) 0 _ λ w. refl

    pub withdraw_to_parent-Sends :
        (a : FundArgs F) → Sends F (alone F) (withdraw_to_parent F cli id a)
    unfolding withdraw_to_parent withdraw
    withdraw_to_parent-Sends a =
        result_first F (alone F) (get_subnet_config F cli id a.subnet) _ λ config.
          result_first F (alone F) (new_secp256k1 F a.private_key ethereum id) _ λ wallet.
            quiet_last F (alone F)
              (withdraw F (wallet_signer F) wallet (unwrap_or a.to wallet.addr) config a.amount) _
              (evm_withdraw-Sends F (wallet_signer F) wallet _ config a.amount)
              λ tx. unmoved F (alone F) 0 _ λ w. refl

    pub transfer_within-Sends :
        (a : TransferArgs F) → Sends F (alone F) (transfer_within F cli id a)
    unfolding transfer_within transfer
    transfer_within-Sends a =
        result_first F (alone F) (get_subnet_config F cli id a.subnet) _ λ config.
          result_first F (alone F) (new_secp256k1 F a.private_key ethereum id) _ λ wallet.
            quiet_last F (alone F) (transfer F (wallet_signer F) wallet a.to config a.amount) _
              (evm_transfer-Sends F (wallet_signer F) wallet _ config a.amount)
              λ tx. unmoved F (alone F) 0 _ λ w. refl
