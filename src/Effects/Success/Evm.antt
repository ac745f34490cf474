-- ===== src/Effects/Success/Evm.antt =====
-- sdk/src/ipc/manager.rs: a call of the EVM manager that succeeds was submitted.
use basin.Prelude.{refl}
use basin.Foreign.{Foreign}
use basin.Foreign.Evm.{Middleware, ContractCall, Eip1559Request}
use basin.Signer.Subnet.{inner}
use basin.Signer.Interface.{Signer}
use basin.Sdk.Network.{EvmSubnet}
use basin.Sdk.Fees.{premium_estimation}
use basin.Sdk.Evm.{
  evm_deposit, evm_withdraw, evm_transfer, client_send, call_with_premium_estimation, get_gateway,
  get_eth_signer, amount_u128, transaction_receipt_retries,
}
use basin.Effects.{
  alone, none>>=, unmoved, one_read, await_step, receipt_step, call_step, transfer_step,
}
use basin.Effects.Evm.{premium_estimation-Within}
use basin.Effects.Success.{Sends, quiet_first, quiet_last, result_first, one-Sends}

module _ (F : Foreign) where
  client_send-Sends :
      (m : Middleware F.types) (c : ContractCall F.types) → Sends F (alone F) (client_send F m c)
  unfolding client_send
  client_send-Sends m c =
      quiet_first F (alone F) (call_with_premium_estimation F m c) _
        (none>>= F (alone F) 0 (premium_estimation F m) _ (premium_estimation-Within F m)
          λ fees. unmoved F (alone F) 0 _ λ v. refl)
        λ priced.
          quiet_last F (alone F) (F.send_call priced) _ (one-Sends F _ (call_step priced)) λ tx.
            none>>= F (alone F) 0 (F.await_retries tx transaction_receipt_retries) _
              (one_read F _ (await_step tx transaction_receipt_retries))
              λ r. unmoved F (alone F) 0 _ λ v. refl

  module _ {S : Type 0} (signer : Signer F S) (s : S) (to : F.Address) (subnet : EvmSubnet F)
      (amount : F.TokenAmount) where
    pub evm_deposit-Sends : Sends F (alone F) (evm_deposit F signer s to subnet amount)
    unfolding evm_deposit
    evm_deposit-Sends = result_first F (alone F) (get_gateway F signer s subnet) _ λ gateway.
        result_first F (alone F) (F.gateway_subnet (inner F subnet.id)) _ λ id.
          result_first F (alone F) (amount_u128 F amount) _ λ value.
            result_first F (alone F) (F.fvm_address to) _
              λ address. client_send-Sends gateway.client _

    pub evm_withdraw-Sends : Sends F (alone F) (evm_withdraw F signer s to subnet amount)
    unfolding evm_withdraw
    evm_withdraw-Sends = result_first F (alone F) (get_gateway F signer s subnet) _ λ gateway.
        result_first F (alone F) (amount_u128 F amount) _ λ value.
          result_first F (alone F) (F.fvm_address to) _
            λ address. client_send-Sends gateway.client _

    pub evm_transfer-Sends : Sends F (alone F) (evm_transfer F signer s to subnet amount)
    unfolding evm_transfer
    evm_transfer-Sends = result_first F (alone F) (get_eth_signer F signer s subnet) _ λ client.
        quiet_first F (alone F) (premium_estimation F client) _ (premium_estimation-Within F client)
          λ fees. result_first F (alone F) (F.delegated to) _ λ address.
            result_first F (alone F) (F.fil_to_eth_amount amount) _ λ value.
              let t : Eip1559Request F.types = record {
                to = address;
                value = value;
                max_priority_fee_per_gas = fees.0;
                max_fee_per_gas = fees.1;
              } in
              quiet_last F (alone F) (F.send_transaction client t) _
                (one-Sends F _ (transfer_step client t))
                λ pending.
                  none>>= F (alone F) 0 (F.await_receipt pending) _
                    (one_read F _ (receipt_step pending)) λ r. unmoved F (alone F) 0 _ λ v. refl
