-- ===== src/Sdk/Evm.antt =====
-- sdk/src/ipc/manager.rs: the calls of the EVM manager, on the Ethereum endpoint of a subnet.
pub mod Laws
pub mod Endpoint
use basin.Prelude.{ℕ, String, ◌<>◌, Option, none, some}
use basin.Prelude.Int.{pos}
use basin.Result
use basin.Result.{Result, ok, err, message, ok_or}
use basin.Run.{Run, done, lift, ◌>>=◌}
use basin.Foreign.{Foreign}
use basin.Foreign.Evm.{Middleware, Gateway, GatewayMethod, fund, release, ContractCall}
use basin.Signer.Subnet.{inner, chain_id}
use basin.Signer.Interface.{Signer}
use basin.Sdk.Network.{EvmSubnet}
use basin.Sdk.Fees.{premium_estimation}

-- in seconds
abbrev pub eth_provider_polling_time : ℕ
eth_provider_polling_time = 1

abbrev pub transaction_receipt_retries : ℕ
transaction_receipt_retries = 200

module _ (F : Foreign) where
  -- The header of a client with an authorization token.
  auth_value : Option String → Result (Option F.HeaderValue)
  auth_value none = ok none
  auth_value (some token) = Result.map_ok some (F.header_of_text (F.bearer_text token))

  unfoldable pub get_eth_provider : EvmSubnet F → Result F.EthProvider
  unfolding auth_value
  get_eth_provider subnet = Result.◌>>=◌ (auth_value subnet.auth_token) λ auth.
      Result.◌>>=◌ (F.build_client auth subnet.provider_timeout)
        λ client. ok (F.eth_provider subnet.provider_http client eth_provider_polling_time)

  module _ {S : Type 0} (signer : Signer F S) (s : S) where
    unfoldable pub get_eth_signer : EvmSubnet F → Result (Middleware F.types)
    get_eth_signer subnet = Result.◌>>=◌ (get_eth_provider subnet) λ provider.
        Result.◌>>=◌ (ok_or (message "failed to get secret key from signer") (signer.secret_key s))
          λ sk.
            Result.◌>>=◌
              (ok_or (message "failed to get subnet ID from signer") (signer.subnet_id s))
              λ id. Result.◌>>=◌ (F.local_wallet (F.secret_bytes sk)) λ wallet.
                ok (record { provider = provider; wallet = F.with_chain_id wallet (chain_id F id) })

    unfoldable pub get_gateway : EvmSubnet F → Result (Gateway F.types)
    get_gateway subnet = Result.◌>>=◌ (F.delegated subnet.gateway_addr) λ address.
        Result.◌>>=◌ (get_eth_signer subnet)
          λ client. ok (record { address = address; client = client })

  -- `EvmManager::balance`
  unfoldable pub evm_balance : F.Address → EvmSubnet F → Run F.World F.TokenAmount
  evm_balance address subnet = do
    provider ← lift (get_eth_provider subnet)
    to ← lift (F.delegated address)
    balance ← F.get_balance provider to
    n ← lift (F.as_u128 balance)
    done (F.tokens_from_atto (pos n))

  unfoldable pub call_with_premium_estimation :
      Middleware F.types → ContractCall F.types → Run F.World (ContractCall F.types)
  call_with_premium_estimation signer call = do
    fees ← premium_estimation F signer
    done (record call { gas_price = some fees.0 })

  unfoldable pub client_send : Middleware F.types → ContractCall F.types → Run F.World F.EthReceipt
  unfolding call_with_premium_estimation
  client_send client call = do
    priced ← call_with_premium_estimation client call
    tx ← F.send_call priced
    receipt ← F.await_retries tx transaction_receipt_retries
    lift (
        ok_or (message "txn sent to network, but receipt cannot be obtained, please check scanner")
          receipt)

  pub amount_u128 : F.TokenAmount → Result ℕ
  amount_u128 amount = ok_or (message "invalid value to fund") (F.to_u128 (F.atto amount))

  call_of : Gateway F.types → GatewayMethod F.types → ℕ → ContractCall F.types
  call_of gateway method value = record {
    gateway = gateway;
    method = method;
    value = some value;
    gas_price = none;
  }

  module _ {S : Type 0} (signer : Signer F S) (s : S) where
    -- `EvmManager::deposit`
    unfoldable pub evm_deposit : F.Address → EvmSubnet F → F.TokenAmount → Run F.World F.EthReceipt
    unfolding amount_u128 call_of
    evm_deposit to subnet amount = do
      gateway ← lift (get_gateway signer s subnet)
      subnet_id ← lift (F.gateway_subnet (inner F subnet.id))
      value ← lift (amount_u128 amount)
      address ← lift (F.fvm_address to)
      client_send gateway.client (call_of gateway (fund subnet_id address) value)

    -- `EvmManager::withdraw`
    unfoldable pub evm_withdraw : F.Address → EvmSubnet F → F.TokenAmount → Run F.World F.EthReceipt
    unfolding amount_u128 call_of
    evm_withdraw to subnet amount = do
      gateway ← lift (get_gateway signer s subnet)
      value ← lift (amount_u128 amount)
      address ← lift (F.fvm_address to)
      client_send gateway.client (call_of gateway (release address) value)

    -- `EvmManager::transfer`
    unfoldable pub evm_transfer : F.Address → EvmSubnet F → F.TokenAmount → Run F.World F.EthReceipt
    evm_transfer to subnet amount = do
      client ← lift (get_eth_signer signer s subnet)
      fees ← premium_estimation F client
      address ← lift (F.delegated to)
      value ← lift (F.fil_to_eth_amount amount)
      pending ← F.send_transaction client (record {
        to = address;
        value = value;
        max_priority_fee_per_gas = fees.0;
        max_fee_per_gas = fees.1;
      })
      receipt ← F.await_receipt pending
      lift (ok_or (message "transfer did not return receipt") receipt)
