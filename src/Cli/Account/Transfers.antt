-- ===== src/Cli/Account/Transfers.antt =====
-- What a transfer of the command line sends.
use basin.Prelude.{ℕ, ◌≡◌, ap, ◌∙◌, sym, inl, some}
use basin.Result.{ok}
use basin.Result.Laws.{ok_or-eq-ok, ok-injective}
use basin.Run.Laws.{>>=-eq-ok, proceed-eq-ok, run-eq}
use basin.Foreign.{Foreign}
use basin.Foreign.Evm.{Middleware}
use basin.Signer.Subnet.{SubnetId, chain_id}
use basin.Signer.Wallet.{Wallet, ethereum, new_secp256k1, wallet_signer}
use basin.Sdk.Network.{EvmSubnet}
use basin.Sdk.Fees.{premium_estimation}
use basin.Sdk.Evm.{get_eth_signer, evm_transfer}
use basin.Sdk.Account.{transfer}
use basin.Cli.Choice
use basin.Cli.{Cli, get_subnet_config}
use basin.Cli.Laws.{subnet_config_testnet}
use basin.Cli.Command.{Document, eth_receipt}
use basin.Cli.Account.Config.{
  of_subnet, IsEndpoint, get_subnet_config-IsConfig, get_eth_provider-IsEndpoint,
}
use basin.Cli.Account.{TransferArgs, transfer_within}
use basin.Cli.Account.Laws.{new_secp256k1-eq, get_eth_signer-signs}

module _ (F : Foreign) where
  -- How one transfer was sent that got the receipt `r`: the fees were estimated, the transaction sent
  -- once with the two values of the estimate as the priority fee and the cap, and the receipt awaited.
  pub record Transferred (client : Middleware F.types) (to : F.Address) (amount : F.TokenAmount)
      (w : F.World) (r : F.EthReceipt) : Type 0 where
    pub fees : ℕ × ℕ
    pub address : F.EthAddress
    pub value : ℕ
    pub tx : F.PendingTx
    pub w₁ : F.World
    pub w₂ : F.World
    pub estimated : premium_estimation F client w ≡ (ok fees, w₁)
    pub recipient : F.delegated to ≡ ok address
    pub worth : F.fil_to_eth_amount amount ≡ ok value
    pub sent :
        F.send_transaction client
          (record {
            to = address;
            value = value;
            max_priority_fee_per_gas = fees.0;
            max_fee_per_gas = fees.1;
          })
          w₁
        ≡ (ok tx, w₂)
    pub awaited : (F.await_receipt tx w₂).0 ≡ ok (some r)

  evm_transfer-Transferred :
      (wallet : Wallet F) (to : F.Address) (subnet : EvmSubnet F) (amount : F.TokenAmount)
      (w : F.World) (r : F.EthReceipt)
      → (evm_transfer F (wallet_signer F) wallet to subnet amount w).0 ≡ ok r
      → (client : Middleware F.types) × (get_eth_signer F (wallet_signer F) wallet subnet
          ≡ ok client)
        × Transferred client to amount w r
  unfolding evm_transfer
  evm_transfer-Transferred wallet to subnet amount w r h =
      let (client, e, h₁) =
        proceed-eq-ok (get_eth_signer F (wallet_signer F) wallet subnet) _ w h in
      let m = premium_estimation F client in
      let (fees, f, h₂) = >>=-eq-ok m _ w h₁ in
      let w₁ = (m w).1 in
      let (address, g, h₃) = proceed-eq-ok (F.delegated to) _ w₁ h₂ in
      let (value, k, h₄) = proceed-eq-ok (F.fil_to_eth_amount amount) _ w₁ h₃ in
      let send = F.send_transaction client (record {
        to = address;
        value = value;
        max_priority_fee_per_gas = fees.0;
        max_fee_per_gas = fees.1;
      }) in
      let (tx, sent, h₅) = >>=-eq-ok send _ w₁ h₄ in
      let w₂ = (send w₁).1 in
      let (receipt, awaited, h₆) = >>=-eq-ok (F.await_receipt tx) _ w₂ h₅ in
      (
        client,
        e,
        record {
          fees = fees;
          address = address;
          value = value;
          tx = tx;
          w₁ = w₁;
          w₂ = w₂;
          estimated = run-eq m w fees f;
          recipient = g;
          worth = k;
          sent = run-eq send w₁ tx sent;
          awaited = awaited ∙ ap ok (ok_or-eq-ok _ receipt h₆);
        },
      )

  -- A transfer that succeeds was made on the test network: a client that signs with the given key for
  -- the chain of the subnet sent one transaction to the recipient's Ethereum address, with the amount
  -- as its value, and the first and the second value of the estimate as its priority fee and its cap.
  -- It went to the endpoint that is given, or else to that of the preset of the subnet, with the given
  -- token and timeout, and its receipt is what is printed.
  pub transfer_within-Transferred :
      (cli : Cli F) (id : SubnetId F) (args : TransferArgs F) (w : F.World) (d : Document F)
      → (transfer_within F cli id args w).0 ≡ ok d
      → (cli.network ≡ Choice.testnet)
        × (key : F.LocalWallet) × (client : Middleware F.types) × (receipt : F.EthReceipt)
        × (F.local_wallet (F.secret_bytes args.private_key) ≡ ok key)
        × (client.wallet ≡ F.with_chain_id key (chain_id F id))
        × IsEndpoint F of_subnet args.subnet client.provider
        × Transferred client args.to args.amount w receipt
        × (d ≡ eth_receipt receipt)
  unfolding transfer_within transfer
  transfer_within-Transferred cli id args w d h =
      let (config, e, h₁) = proceed-eq-ok (get_subnet_config F cli id args.subnet) _ w h in
      let made = new_secp256k1 F args.private_key ethereum id in
      let (wallet, g, h₂) = proceed-eq-ok made _ w h₁ in
      let move = transfer F (wallet_signer F) wallet args.to config args.amount in
      let (receipt, k, shown) = proceed-eq-ok (move w).0 _ (move w).1 h₂ in
      let (client, c, transferred) =
        evm_transfer-Transferred wallet args.to config args.amount w receipt k in
      let (own, sk, sub) = new_secp256k1-eq F args.private_key id wallet g in
      let (key, f, signs, provider) = get_eth_signer-signs F wallet config client c in
      let on_testnet = (subnet_config_testnet F cli id args.subnet config (inl e)).0 in
      (
        on_testnet,
        key,
        client,
        receipt,
        sym (ap (λ x. F.local_wallet (F.secret_bytes x)) sk) ∙ f,
        signs ∙ ap (λ i. F.with_chain_id key (chain_id F i)) sub,
        get_eth_provider-IsEndpoint F of_subnet args.subnet config client.provider
            (get_subnet_config-IsConfig F cli id args.subnet config on_testnet e) provider,
        transferred,
        sym (ok-injective shown),
      )
