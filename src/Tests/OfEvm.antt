-- ===== src/Tests/OfEvm.antt =====
-- The theorems on moving funds, in the small world.
use basin.Prelude.{◌+◌, ◌≡◌, refl, none, some, true, false, [], ◌∷◌, arith, String}
use basin.Prelude.Int.{pos}
use basin.Result.{Result, ok}
use basin.Foreign.{Foreign}
use basin.Foreign.Evm.{Middleware, ContractCall, fund, release}
use basin.Provider.Util.{parse_address}
use basin.Signer.Subnet.{SubnetId, parent, inner, chain_id}
use basin.Signer.Wallet.{new_secp256k1, wallet_signer}
use basin.Sdk.Network.{
  EvmSubnet, evm_rpc_url, evm_registry, evm_gateway, parent_evm_rpc_url, parent_evm_registry,
  parent_evm_gateway,
}
use basin.Sdk.Fees.{premium_estimation, fees_of, estimate_priority_fee, first_rewards, positive}
use basin.Sdk.Evm.{
  evm_deposit, evm_withdraw, evm_transfer, get_gateway, get_eth_signer, get_eth_provider,
  client_send, call_with_premium_estimation,
}
use basin.Sdk.Evm.Laws.{call_price_zero}
use basin.Sdk.Account.{deposit, withdraw, transfer}
use basin.Cli.Choice
use basin.Cli.{Cli, SubnetArgs, get_subnet_config, get_parent_subnet_config}
use basin.Cli.Command.{Document, eth_receipt}
use basin.Cli.Account.{
  FundArgs, TransferArgs, transfer_within, deposit_funds, handle_account, deposit_from_parent,
  withdraw_to_parent,
}
use basin.Cli.Account.Laws.{Moved, deposit_from_parent-Moved, withdraw_to_parent-Moved}
use basin.Cli.Account.Config.{of_parent, of_subnet, IsEndpoint}
use basin.Cli.Account.Transfers.{Transferred, transfer_within-Transferred}
use basin.Cli.Account.Networks.{Stops, funds-elsewhere}
use basin.Tests.Encodings.{unbounded-IsExact}
use basin.Tests.Toy.{toy, toy_eth}

abbrev child_net : SubnetId toy
child_net = record { faux = ""; real = (7, true ∷ []) }

abbrev parent_net : SubnetId toy
parent_net = record { faux = ""; real = (7, []) }

abbrev evm_args : SubnetArgs toy
evm_args = record {
  evm_rpc_url = some "http://evm/";
  evm_rpc_timeout = 30;
  evm_rpc_auth_token = some "token";
  evm_gateway = none;
  evm_registry = none;
}

abbrev fund_args : FundArgs toy
fund_args = record { private_key = 77; to = none; amount = pos 5; subnet = evm_args }

abbrev on_testnet : Cli toy
on_testnet = record { network = Choice.testnet; subnet = none; rpc_url = none }

abbrev on_devnet : Cli toy
on_devnet = record {
  network = Choice.devnet;
  subnet = some child_net;
  rpc_url = some "http://here/";
}

abbrev endpoint : EvmSubnet toy
endpoint = record {
  id = child_net;
  provider_http = "http://evm/";
  provider_timeout = none;
  auth_token = none;
  registry_addr = false;
  gateway_addr = true;
}

abbrev json : Document toy → Result String
json d = ok "json"

deposit_from_parent-Moved_example :
    (on_testnet.network ≡ Choice.testnet)
    × (above : SubnetId toy) × (child : toy.GatewaySubnet) × (parent toy child_net ≡ ok above)
    × (toy.gateway_subnet (inner toy child_net) ≡ ok child)
    × Moved toy of_parent above fund_args (fund child) 0 (eth_receipt 2)
unfolding deposit_from_parent deposit evm_deposit get_gateway get_eth_signer get_eth_provider
    client_send premium_estimation fees_of estimate_priority_fee first_rewards positive
    get_parent_subnet_config parent_evm_rpc_url parent_evm_registry parent_evm_gateway parse_address
    parent new_secp256k1 wallet_signer
deposit_from_parent-Moved_example =
    deposit_from_parent-Moved toy on_testnet child_net fund_args 0 (eth_receipt 2) refl

withdraw_to_parent-Moved_example :
    (on_testnet.network ≡ Choice.testnet)
    × Moved toy of_subnet child_net fund_args release 0 (eth_receipt 2)
unfolding withdraw_to_parent withdraw evm_withdraw get_gateway get_eth_signer get_eth_provider
    client_send premium_estimation fees_of estimate_priority_fee first_rewards positive
    get_subnet_config evm_rpc_url evm_registry evm_gateway parse_address new_secp256k1 wallet_signer
withdraw_to_parent-Moved_example =
    withdraw_to_parent-Moved toy on_testnet child_net fund_args 0 (eth_receipt 2) refl

abbrev transfer_args : TransferArgs toy
transfer_args = record { private_key = 77; to = true; amount = pos 5; subnet = evm_args }

transfer_within-Transferred_example :
    (on_testnet.network ≡ Choice.testnet)
    × (key : toy.LocalWallet) × (client : Middleware toy.types) × (receipt : toy.EthReceipt)
    × (toy.local_wallet (toy.secret_bytes 77) ≡ ok key)
    × (client.wallet ≡ toy.with_chain_id key (chain_id toy child_net))
    × IsEndpoint toy of_subnet evm_args client.provider
    × Transferred toy client true (pos 5) 0 receipt
    × (◌≡◌ {A = Document toy} (eth_receipt 2) (eth_receipt receipt))
unfolding transfer_within transfer evm_transfer get_eth_signer get_eth_provider premium_estimation
    fees_of estimate_priority_fee first_rewards positive get_subnet_config evm_rpc_url evm_registry
    evm_gateway parse_address new_secp256k1 wallet_signer
transfer_within-Transferred_example =
    transfer_within-Transferred toy on_testnet child_net transfer_args 0 (eth_receipt 2) refl

funds-elsewhere_example :
    Stops (handle_account toy json on_devnet (deposit_funds fund_args)) ([], 0)
funds-elsewhere_example =
    funds-elsewhere toy json on_devnet (deposit_funds fund_args) [] 0 (λ h. cc) refl

-- The small world with no rewards in the history.
abbrev quiet : Foreign
quiet = record toy { eth = record toy_eth { fee_history = λ s w. (ok ((0 ∷ []) ∷ []), w + 1) } }

abbrev quiet_client : Middleware quiet.types
quiet_client = record { provider = "http://evm/"; wallet = (1, 7) }

abbrev quiet_call : ContractCall quiet.types
quiet_call = record {
  gateway = record { address = true; client = quiet_client };
  method = release true;
  value = some 5;
  gas_price = none;
}

call_price_zero_example :
    call_with_premium_estimation quiet quiet_client quiet_call 0
    ≡ (ok (record quiet_call { gas_price = some 0 }), 2)
unfolding first_rewards positive
call_price_zero_example =
    call_price_zero quiet quiet_client quiet_call 0 1 2 100 ((0 ∷ []) ∷ []) (0 ∷ [])
      unbounded-IsExact (omega arith) refl refl refl refl
