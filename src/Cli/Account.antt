-- ===== src/Cli/Account.antt =====
-- cli/src/account.rs: the handler of the account's commands.
pub mod Config
pub mod Laws
pub mod Networks
pub mod Transfers
use basin.Prelude.{String, Option, none}
use basin.Result.{Result}
use basin.Run.{Run, done, lift, ◌>>=◌}
use basin.Foreign.{Foreign}
use basin.Provider.JsonRpc.{JsonRpcProvider, as_query_provider}
use basin.Signer.Subnet.{SubnetId, parent}
use basin.Signer.Wallet.{ethereum, new_secp256k1, wallet_signer}
use basin.Signer.Key.{random_secretkey}
use basin.Provider.Util.{get_delegated_address}
use basin.Signer.Void.{void_signer}
use basin.Sdk.Account.{account_sequence, balance, deposit, withdraw, transfer}
use basin.Cli.{
  Cli, SubnetArgs, AddressArgs, unwrap_or, get_subnet_id, get_address, get_subnet_config,
  get_parent_subnet_config,
}
use basin.Cli.Command.{
  Document, account_key, account_info, eth_receipt, printing, rpc_provider, with_state,
}

module _ (F : Foreign) where
  pub record InfoArgs : Type 0 where
    pub address : AddressArgs F
    pub subnet : SubnetArgs F

  pub record FundArgs : Type 0 where
    pub private_key : F.SecretKey
    pub to : Option F.Address
    pub amount : F.TokenAmount
    pub subnet : SubnetArgs F

  pub record TransferArgs : Type 0 where
    pub private_key : F.SecretKey
    pub to : F.Address
    pub amount : F.TokenAmount
    pub subnet : SubnetArgs F

  pub data AccountCommands : Type 0 where
    create : AccountCommands
    info : InfoArgs → AccountCommands
    deposit_funds withdraw_funds : FundArgs → AccountCommands
    transfer_funds : TransferArgs → AccountCommands

  create_account : Run F.World (Document F)
  create_account = do
    sk ← random_secretkey F
    address ← lift (F.ethereum_address sk)
    eth_address ← lift (get_delegated_address F address)
    done (account_key (F.hex_encode (F.secret_bytes sk)) eth_address (F.address_text address))

  module _ (cli : Cli F) (id : SubnetId F) where
    show_account : JsonRpcProvider F → InfoArgs → Run F.World (Document F)
    show_account p args = do
      address ← lift (get_address F args.address id)
      eth_address ← lift (get_delegated_address F address)
      sequence ←
          with_state (record { address = address })
            (account_sequence F (as_query_provider F p) (void_signer F) args.address.height)
      own ← lift (get_subnet_config F cli id args.subnet)
      own_balance ← balance F (void_signer F) (record { address = address }) own
      above ← lift (get_parent_subnet_config F cli id args.subnet)
      parent_balance ← balance F (void_signer F) (record { address = address }) above
      done (
          account_info eth_address (F.address_text address) sequence (F.tokens_text own_balance)
            (F.tokens_text parent_balance))

    -- The signer of a deposit targets the parent subnet.
    unfoldable pub deposit_from_parent : FundArgs → Run F.World (Document F)
    deposit_from_parent args = do
      config ← lift (get_parent_subnet_config F cli id args.subnet)
      above ← lift (parent F id)
      wallet ← lift (new_secp256k1 F args.private_key ethereum above)
      tx ← deposit F (wallet_signer F) wallet (unwrap_or args.to wallet.addr) config args.amount
      done (eth_receipt tx)

    unfoldable pub withdraw_to_parent : FundArgs → Run F.World (Document F)
    withdraw_to_parent args = do
      config ← lift (get_subnet_config F cli id args.subnet)
      wallet ← lift (new_secp256k1 F args.private_key ethereum id)
      tx ← withdraw F (wallet_signer F) wallet (unwrap_or args.to wallet.addr) config args.amount
      done (eth_receipt tx)

    unfoldable pub transfer_within : TransferArgs → Run F.World (Document F)
    transfer_within args = do
      config ← lift (get_subnet_config F cli id args.subnet)
      wallet ← lift (new_secp256k1 F args.private_key ethereum id)
      tx ← transfer F (wallet_signer F) wallet args.to config args.amount
      done (eth_receipt tx)

    unfoldable pub run_account : JsonRpcProvider F → AccountCommands → Run F.World (Document F)
    unfolding create_account show_account deposit_from_parent withdraw_to_parent transfer_within
    run_account p create = create_account
    run_account p (info args) = show_account p args
    run_account p (deposit_funds args) = deposit_from_parent args
    run_account p (withdraw_funds args) = withdraw_to_parent args
    run_account p (transfer_funds args) = transfer_within args

  unfoldable pub handle_account :
      (Document F → Result String) → Cli F → AccountCommands → Run (F.Console × F.World) (Unit {0})
  handle_account pretty cli command = do
    p ← lift (rpc_provider F cli none)
    id ← lift (get_subnet_id F cli)
    printing F pretty (run_account cli id p command)
