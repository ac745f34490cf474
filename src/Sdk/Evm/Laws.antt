-- ===== src/Sdk/Evm/Laws.antt =====
-- sdk/src/ipc/manager.rs: what deposits, withdrawals and transfers send.
use basin.Prelude.{ℕ, ◌*◌, ◌<◌, ◌≡◌, refl, ◌∙◌, ap, none, some, List, [], false, arith}
use basin.Result.{Result, ok, err, halt, is_ok}
use basin.Result.Laws.{ok_or-eq-ok}
use basin.Run.{Run, done, proceed}
use basin.Run.Laws.{>>=-eq-ok, proceed-eq-ok, run-eq}
use basin.Foreign.{Foreign}
use basin.Foreign.Int256.{IsExact, u256_mod}
use basin.Foreign.Evm.{Middleware, Gateway, fund, release, ContractCall}
use basin.Signer.Subnet.{inner}
use basin.Signer.Interface.{Signer}
use basin.Sdk.Network.{EvmSubnet}
use basin.Sdk.Fees.{
  premium_estimation, first_rewards, positive, estimate_priority_fee, estimate_positive,
}
use basin.Sdk.Fees.Surge.{fees_of_cover}
use basin.Sdk.Evm.{
  evm_deposit, evm_withdraw, evm_transfer, client_send, call_with_premium_estimation, get_gateway,
  get_eth_signer, amount_u128, transaction_receipt_retries,
}

module _ (F : Foreign) {S : Type 0} (signer : Signer F S) (s : S) where
  abbrev Unsent : Run F.World F.EthReceipt → F.World → Type 0
  Unsent m w = ((m w).1 ≡ w) × (is_ok (m w).0 ≡ false)

  -- An amount that is no u128, as a negative one, is neither deposited nor withdrawn: the call fails
  -- and nothing is sent, not even the queries for the estimate of the fees.
  pub amount_refused :
      (to : F.Address) (subnet : EvmSubnet F) (amount : F.TokenAmount) (w : F.World)
      → F.to_u128 (F.atto amount) ≡ none
      → Unsent (evm_deposit F signer s to subnet amount) w
        × Unsent (evm_withdraw F signer s to subnet amount) w
  unfolding evm_deposit evm_withdraw
  amount_refused to subnet amount w h = ((ground arith, ground arith), (ground arith, ground arith))

  -- A signer with no secret key moves no funds: deposit, withdrawal and transfer fail, and nothing
  -- is sent.
  pub keyless_refused :
      (to : F.Address) (subnet : EvmSubnet F) (amount : F.TokenAmount) (w : F.World)
      → signer.secret_key s ≡ none
      → Unsent (evm_deposit F signer s to subnet amount) w
        × Unsent (evm_withdraw F signer s to subnet amount) w
        × Unsent (evm_transfer F signer s to subnet amount) w
  unfolding evm_deposit evm_withdraw evm_transfer get_gateway get_eth_signer
  keyless_refused to subnet amount w h =
      ((ground arith, ground arith), (ground arith, ground arith), (ground arith, ground arith))

module _ (F : Foreign) where
  -- How a call was sent that got the receipt `r`: the fees were estimated, the call sent once with the
  -- estimated priority fee as its gas price, and the receipt awaited.
  pub record Sent (client : Middleware F.types) (call : ContractCall F.types) (w : F.World)
      (r : F.EthReceipt) : Type 0 where
    pub fees : ℕ × ℕ
    pub tx : F.PendingTx
    pub w₁ : F.World
    pub w₂ : F.World
    pub estimated : premium_estimation F client w ≡ (ok fees, w₁)
    pub sent : F.send_call (record call { gas_price = some fees.0 }) w₁ ≡ (ok tx, w₂)
    pub awaited : (F.await_retries tx transaction_receipt_retries w₂).0 ≡ ok (some r)

  after_done :
      {A B C : Type 0} (p : Result A) (g : A → B) (f : B → Run F.World C) (w : F.World) {c : C}
      → (proceed (proceed p (λ a. done (g a)) w).0 f (proceed p (λ a. done (g a)) w).1).0 ≡ ok c
      → (a : A) × (p ≡ ok a) × ((f (g a) w).0 ≡ ok c)
  after_done (ok a) g f w h = (a, refl, h)
  after_done (err e) g f w h = cc
  after_done (halt x) g f w h = cc

  pub client_send-Sent :
      (client : Middleware F.types) (call : ContractCall F.types) (w : F.World) (r : F.EthReceipt)
      → (client_send F client call w).0 ≡ ok r
      → Sent client call w r
  unfolding client_send
  client_send-Sent client call w r h =
      let m = premium_estimation F client in
      let (fees, e, h₁) = after_done (m w).0 _ _ (m w).1 h in
      let w₁ = (m w).1 in
      let send = F.send_call (record call { gas_price = some fees.0 }) in
      let (tx, f, h₂) = >>=-eq-ok send _ w₁ h₁ in
      let w₂ = (send w₁).1 in
      let (receipt, g, h₃) = >>=-eq-ok (F.await_retries tx transaction_receipt_retries) _ w₂ h₂ in
      record {
        fees = fees;
        tx = tx;
        w₁ = w₁;
        w₂ = w₂;
        estimated = run-eq m w fees e;
        sent = run-eq send w₁ tx f;
        awaited = g ∙ ap ok (ok_or-eq-ok _ receipt h₃);
      }

module _ (F : Foreign) {S : Type 0} (signer : Signer F S) (s : S) where
  -- A deposit that succeeds sent one call of the gateway's `fund`, for the subnet and the recipient,
  -- with the amount as its value; its gas price is the estimated priority fee, and the receipt is
  -- that of this call.
  pub evm_deposit-Sent :
      (to : F.Address) (subnet : EvmSubnet F) (amount : F.TokenAmount) (w : F.World)
      (r : F.EthReceipt)
      → (evm_deposit F signer s to subnet amount w).0 ≡ ok r
      → (gateway : Gateway F.types) × (id : F.GatewaySubnet) × (value : ℕ)
        × (address : F.FvmAddress) × (get_gateway F signer s subnet ≡ ok gateway)
        × (F.gateway_subnet (inner F subnet.id) ≡ ok id)
        × (F.to_u128 (F.atto amount) ≡ some value)
        × (F.fvm_address to ≡ ok address)
        × Sent F gateway.client
            (record {
              gateway = gateway;
              method = fund id address;
              value = some value;
              gas_price = none;
            })
            w
            r
  unfolding evm_deposit
  evm_deposit-Sent to subnet amount w r h =
      let (gateway, e, h₁) = proceed-eq-ok (get_gateway F signer s subnet) _ w h in
      let (id, f, h₂) = proceed-eq-ok (F.gateway_subnet (inner F subnet.id)) _ w h₁ in
      let (value, g, h₃) = proceed-eq-ok (amount_u128 F amount) _ w h₂ in
      let (address, k, h₄) = proceed-eq-ok (F.fvm_address to) _ w h₃ in
      (
        gateway,
        id,
        value,
        address,
        e,
        f,
        ok_or-eq-ok _ _ g,
        k,
        client_send-Sent F gateway.client _ w r h₄,
      )

  -- A withdrawal that succeeds sent one call of the gateway's `release`, for the recipient, likewise.
  pub evm_withdraw-Sent :
      (to : F.Address) (subnet : EvmSubnet F) (amount : F.TokenAmount) (w : F.World)
      (r : F.EthReceipt)
      → (evm_withdraw F signer s to subnet amount w).0 ≡ ok r
      → (gateway : Gateway F.types) × (value : ℕ) × (address : F.FvmAddress) × (get_gateway F signer
            s subnet
          ≡ ok gateway)
        × (F.to_u128 (F.atto amount) ≡ some value)
        × (F.fvm_address to ≡ ok address)
        × Sent F gateway.client
            (record {
              gateway = gateway;
              method = release address;
              value = some value;
              gas_price = none;
            })
            w
            r
  unfolding evm_withdraw
  evm_withdraw-Sent to subnet amount w r h =
      let (gateway, e, h₁) = proceed-eq-ok (get_gateway F signer s subnet) _ w h in
      let (value, g, h₂) = proceed-eq-ok (amount_u128 F amount) _ w h₁ in
      let (address, k, h₃) = proceed-eq-ok (F.fvm_address to) _ w h₂ in
      (gateway, value, address, e, ok_or-eq-ok _ _ g, k, client_send-Sent F gateway.client _ w r h₃)

module _ (F : Foreign) where
  -- If no block of the history paid a positive reward, a call is priced at 0, whatever the base fee
  -- of the latest block: the cap of the estimate, which covers the base fee, is not used.
  pub call_price_zero :
      (client : Middleware F.types) (call : ContractCall F.types) (w w₁ w₂ : F.World) (base : ℕ)
      (rewards : List (List ℕ)) (firsts : List ℕ)
      → IsExact F.ints
      → base * 16 < u256_mod
      → F.latest_base_fee client w ≡ (ok (some (some base)), w₁)
      → F.fee_history client w₁ ≡ (ok rewards, w₂)
      → first_rewards rewards ≡ ok firsts
      → positive firsts ≡ []
      → call_with_premium_estimation F client call w ≡ (ok (record call { gas_price = some 0 }), w₂)
  unfolding call_with_premium_estimation premium_estimation estimate_priority_fee estimate_positive
  call_price_zero client call w w₁ w₂ base rewards firsts exact room asked told first
        none_positive =
      let free : estimate_priority_fee F.ints F.threshold_max_change rewards ≡ ok 0 =
        rw (first, none_positive) refl in
      let (cap, e, _, _) =
        fees_of_cover F.ints F.threshold_max_change base 0 rewards exact room (omega arith) free in
      rw (ap (λ x. x.0) asked, ap (λ x. x.1) asked, ap (λ x. x.0) told, ap (λ x. x.1) told, e) refl
