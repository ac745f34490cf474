-- ===== src/Effects/Cli/Account.antt =====
-- cli/src/account.rs: the commands of the account.
use basin.Prelude.{ℕ, String, refl, none, arith}
use basin.Result.{Result}
use basin.Foreign.{Foreign}
use basin.Provider.JsonRpc.{JsonRpcProvider, as_query_provider}
use basin.Signer.Subnet.{SubnetId, parent}
use basin.Signer.Wallet.{ethereum, new_secp256k1, wallet_signer}
use basin.Signer.Void.{Void, void_signer}
use basin.Sdk.Account.{account_sequence, balance, deposit, withdraw, transfer}
use basin.Sdk.Network.{EvmSubnet}
use basin.Cli.{
  Cli, unwrap_or, get_subnet_id, get_address, get_subnet_config, get_parent_subnet_config,
}
use basin.Cli.Command.{Document, rpc_provider, with_state}
use basin.Cli.Account.{
  AccountCommands, create, info, deposit_funds, withdraw_funds, transfer_funds, run_account,
  handle_account,
}
use basin.Effects.{Within, alone, beside, lift>>=, none>>=, >>=none, unmoved, one_read, key_step}
use basin.Effects.Provider.{as_query_provider-IsQuiet}
use basin.Effects.Queries.{account_sequence-Within}
use basin.Effects.Evm.{
  evm_balance-Within, evm_deposit-Within, evm_withdraw-Within, evm_transfer-Within,
}
use basin.Effects.Cli.{printing-Within}

module _ (F : Foreign) where
  -- How many transactions a command may submit.
  abbrev pub account_submits : AccountCommands F → ℕ
  account_submits create = 0
  account_submits (info a) = 0
  account_submits (deposit_funds a) = 1
  account_submits (withdraw_funds a) = 1
  account_submits (transfer_funds a) = 1

  balance-Within :
      (v : Void F) (subnet : EvmSubnet F)
      → Within F (alone F) 0 (balance F (void_signer F) v subnet)
  unfolding balance
  balance-Within v subnet = evm_balance-Within F _ subnet

  module _ (cli : Cli F) (id : SubnetId F) (p : JsonRpcProvider F) where
    run_account-Within :
        (command : AccountCommands F)
        → Within F (alone F) (account_submits command) (run_account F cli id p command)
    unfolding run_account deposit withdraw transfer
    run_account-Within create =
        none>>= F (alone F) 0 F.random_key _ (one_read F _ key_step)
          λ sk. unmoved F (alone F) 0 _ λ w. ground arith
    run_account-Within (info a) = lift>>= F (alone F) 0 (get_address F a.address id) _ λ address.
        let void : Void F = record { address = address } in
        lift>>= F (alone F) 0 (F.delegated address) _ λ eth.
          none>>= F (alone F) 0
            (with_state void
              (account_sequence F (as_query_provider F p) (void_signer F) a.address.height))
            _
            (λ w.
              account_sequence-Within F _ (as_query_provider-IsQuiet F p) (void_signer F)
                a.address.height (void, w))
            λ sequence. lift>>= F (alone F) 0 (get_subnet_config F cli id a.subnet) _ λ own.
              none>>= F (alone F) 0 (balance F (void_signer F) void own) _ (balance-Within void own)
                λ own_balance.
                  lift>>= F (alone F) 0 (get_parent_subnet_config F cli id a.subnet) _ λ above.
                    none>>= F (alone F) 0 (balance F (void_signer F) void above) _
                      (balance-Within void above) λ b. unmoved F (alone F) 0 _ λ w. refl
    run_account-Within (deposit_funds a) =
        lift>>= F (alone F) 1 (get_parent_subnet_config F cli id a.subnet) _ λ config.
          lift>>= F (alone F) 1 (parent F id) _ λ above.
            lift>>= F (alone F) 1 (new_secp256k1 F a.private_key ethereum above) _ λ wallet.
              >>=none F (alone F) 1
                (deposit F (wallet_signer F) wallet (unwrap_or a.to wallet.addr) config a.amount) _
                (evm_deposit-Within F (wallet_signer F) wallet _ config a.amount)
                λ tx. unmoved F (alone F) 0 _ λ w. refl
    run_account-Within (withdraw_funds a) =
        lift>>= F (alone F) 1 (get_subnet_config F cli id a.subnet) _ λ config.
          lift>>= F (alone F) 1 (new_secp256k1 F a.private_key ethereum id) _ λ wallet.
            >>=none F (alone F) 1
              (withdraw F (wallet_signer F) wallet (unwrap_or a.to wallet.addr) config a.amount) _
              (evm_withdraw-Within F (wallet_signer F) wallet _ config a.amount)
              λ tx. unmoved F (alone F) 0 _ λ w. refl
    run_account-Within (transfer_funds a) =
        lift>>= F (alone F) 1 (get_subnet_config F cli id a.subnet) _ λ config.
          lift>>= F (alone F) 1 (new_secp256k1 F a.private_key ethereum id) _ λ wallet.
            >>=none F (alone F) 1 (transfer F (wallet_signer F) wallet a.to config a.amount) _
              (evm_transfer-Within F (wallet_signer F) wallet _ config a.amount)
              λ tx. unmoved F (alone F) 0 _ λ w. refl

  pub handle_account-Within :
      (pretty : Document F → Result String) (cli : Cli F) (command : AccountCommands F)
      → Within F (beside F) (account_submits command) (handle_account F pretty cli command)
  unfolding handle_account
  handle_account-Within pretty cli command =
      let n = account_submits command in
      lift>>= F (beside F) n (rpc_provider F cli none) _ λ p.
        lift>>= F (beside F) n (get_subnet_id F cli) _
          λ id. printing-Within F n pretty _ (run_account-Within cli id p command)
