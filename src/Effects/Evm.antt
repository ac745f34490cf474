-- ===== src/Effects/Evm.antt =====
-- sdk/src/ipc/manager.rs: how many transactions the EVM manager submits.
use basin.Prelude.{refl, arith}
use basin.Result.{ok_or, message}
use basin.Foreign.{Foreign}
use basin.Foreign.Evm.{Middleware, ContractCall, Eip1559Request}
use basin.Signer.Subnet.{inner}
use basin.Signer.Interface.{Signer}
use basin.Sdk.Network.{EvmSubnet}
use basin.Sdk.Fees.{premium_estimation}
use basin.Sdk.Evm.{
  evm_balance, evm_deposit, evm_withdraw, evm_transfer, client_send, call_with_premium_estimation,
  get_gateway, get_eth_signer, get_eth_provider, amount_u128, transaction_receipt_retries,
}
use basin.Effects.{
  Within, alone, lift>>=, none>>=, >>=none, unmoved, one_read, one_submit, balance_step, block_step,
  history_step, await_step, receipt_step, call_step, transfer_step,
}

module _ (F : Foreign) where
  pub premium_estimation-Within :
      (m : Middleware F.types) → Within F (alone F) 0 (premium_estimation F m)
  unfolding premium_estimation
  premium_estimation-Within m w =
      none>>= F (alone F) 0 (F.latest_base_fee m) _ (one_read F _ (block_step m))
        (λ block. lift>>= F (alone F) 0 (ok_or (message "Latest block not found") block) _ λ base.
          lift>>= F (alone F) 0 (ok_or (message "EIP-1559 not activated") base) _ λ fee.
            none>>= F (alone F) 0 (F.fee_history m) _ (one_read F _ (history_step m))
              λ rewards. unmoved F (alone F) 0 _ λ v. refl)
        w

  pub evm_balance-Within :
      (a : F.Address) (subnet : EvmSubnet F) → Within F (alone F) 0 (evm_balance F a subnet)
  unfolding evm_balance
  evm_balance-Within a subnet = lift>>= F (alone F) 0 (get_eth_provider F subnet) _ λ provider.
      lift>>= F (alone F) 0 (F.delegated a) _ λ to.
        none>>= F (alone F) 0 (F.get_balance provider to) _
          (one_read F _ (balance_step provider to)) λ n. unmoved F (alone F) 0 _ λ v. ground arith

  client_send-Within :
      (m : Middleware F.types) (c : ContractCall F.types) → Within F (alone F) 1 (client_send F m c)
  unfolding client_send
  client_send-Within m c =
      none>>= F (alone F) 1 (call_with_premium_estimation F m c) _
        (λ w.
          none>>= F (alone F) 0 (premium_estimation F m) _ (premium_estimation-Within m)
            (λ fees. unmoved F (alone F) 0 _ λ v. refl) w)
        λ priced.
          >>=none F (alone F) 1 (F.send_call priced) _ (one_submit F _ (call_step priced)) λ tx.
            none>>= F (alone F) 0 (F.await_retries tx transaction_receipt_retries) _
              (one_read F _ (await_step tx transaction_receipt_retries))
              λ r. unmoved F (alone F) 0 _ λ v. refl

  module _ {S : Type 0} (signer : Signer F S) (s : S) (to : F.Address) (subnet : EvmSubnet F)
      (amount : F.TokenAmount) where
    pub evm_deposit-Within : Within F (alone F) 1 (evm_deposit F signer s to subnet amount)
    unfolding evm_deposit
    evm_deposit-Within = lift>>= F (alone F) 1 (get_gateway F signer s subnet) _ λ gateway.
        lift>>= F (alone F) 1 (F.gateway_subnet (inner F subnet.id)) _ λ id.
          lift>>= F (alone F) 1 (amount_u128 F amount) _ λ value.
            lift>>= F (alone F) 1 (F.fvm_address to) _
              λ address. client_send-Within gateway.client _

    pub evm_withdraw-Within : Within F (alone F) 1 (evm_withdraw F signer s to subnet amount)
    unfolding evm_withdraw
    evm_withdraw-Within = lift>>= F (alone F) 1 (get_gateway F signer s subnet) _ λ gateway.
        lift>>= F (alone F) 1 (amount_u128 F amount) _ λ value.
          lift>>= F (alone F) 1 (F.fvm_address to) _ λ address. client_send-Within gateway.client _

    pub evm_transfer-Within : Within F (alone F) 1 (evm_transfer F signer s to subnet amount)
    unfolding evm_transfer
    evm_transfer-Within = lift>>= F (alone F) 1 (get_eth_signer F signer s subnet) _ λ client.
        none>>= F (alone F) 1 (premium_estimation F client) _ (premium_estimation-Within client)
          λ fees. lift>>= F (alone F) 1 (F.delegated to) _ λ address.
            lift>>= F (alone F) 1 (F.fil_to_eth_amount amount) _ λ value.
              let t : Eip1559Request F.types = record {
                to = address;
                value = value;
                max_priority_fee_per_gas = fees.0;
                max_fee_per_gas = fees.1;
              } in
              >>=none F (alone F) 1 (F.send_transaction client t) _
                (one_submit F _ (transfer_step client t))
                λ pending.
                  none>>= F (alone F) 0 (F.await_receipt pending) _
                    (one_read F _ (receipt_step pending)) λ r. unmoved F (alone F) 0 _ λ v. refl
