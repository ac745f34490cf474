-- ===== src/Cli/Account/Laws.antt =====
-- What deposits and withdrawals of the command line send, and on which networks funds move.
use basin.Prelude.{ℕ, ◌≡◌, ap, ◌∙◌, sym, inl, inr, none, some, arith}
use basin.Result.{ok}
use basin.Result.Laws.{>>=-eq-ok, ok-injective}
use basin.Run.Laws.{proceed-eq-ok}
use basin.Foreign.{Foreign}
use basin.Foreign.Evm.{Gateway, GatewayMethod, Middleware, fund, release}
use basin.Signer.Subnet.{SubnetId, parent, chain_id, inner}
use basin.Signer.Wallet.{Wallet, ethereum, new_secp256k1, wallet_signer}
use basin.Sdk.Network.{EvmSubnet}
use basin.Sdk.Evm.{get_gateway, get_eth_signer, get_eth_provider}
use basin.Sdk.Evm.Laws.{Sent, evm_deposit-Sent, evm_withdraw-Sent}
use basin.Sdk.Account.{deposit, withdraw}
use basin.Cli.Choice
use basin.Cli.{Cli, unwrap_or, get_subnet_config, get_parent_subnet_config}
use basin.Cli.Laws.{subnet_config_testnet}
use basin.Cli.Command.{Document, eth_receipt}
use basin.Cli.Account.Config.{
  Preset, of_subnet, of_parent, IsEndpoint, IsContract, IsConfig, get_subnet_config-IsConfig,
  get_parent_subnet_config-IsConfig, get_eth_provider-IsEndpoint, delegated-IsContract,
}
use basin.Cli.Account.{FundArgs, deposit_from_parent, withdraw_to_parent}

module _ (F : Foreign) where
  -- How funds were moved with the given arguments and a signer for the chain of a subnet, by a method
  -- of the gateway. One call was sent to the gateway's contract at the endpoint, both of which are
  -- those given or else the preset ones, for the recipient or else the account of the key, and the
  -- document that is printed is its receipt.
  pub record Moved (preset : Preset) (chain : SubnetId F) (args : FundArgs F)
      (method : F.FvmAddress → GatewayMethod F.types) (w : F.World) (d : Document F) : Type 0 where
    pub key : F.LocalWallet
    pub sender : F.Address
    pub gateway : Gateway F.types
    pub value : ℕ
    pub address : F.FvmAddress
    pub receipt : F.EthReceipt
    pub own_key : F.local_wallet (F.secret_bytes args.private_key) ≡ ok key
    pub own_address : F.ethereum_address args.private_key ≡ ok sender
    pub signs : gateway.client.wallet ≡ F.with_chain_id key (chain_id F chain)
    pub endpoint : IsEndpoint F preset args.subnet gateway.client.provider
    pub contract : IsContract F preset args.subnet gateway.address
    pub amount : F.to_u128 (F.atto args.amount) ≡ some value
    pub recipient : F.fvm_address (unwrap_or args.to sender) ≡ ok address
    pub sent :
        Sent F gateway.client
          (record {
            gateway = gateway;
            method = method address;
            value = some value;
            gas_price = none;
          })
          w
          receipt
    pub shown : d ≡ eth_receipt receipt

  -- A wallet that was made of a key.
  pub new_secp256k1-eq :
      (sk : F.SecretKey) (id : SubnetId F) (wallet : Wallet F)
      → new_secp256k1 F sk ethereum id ≡ ok wallet
      → (F.ethereum_address sk ≡ ok wallet.addr) × (wallet.sk ≡ sk) × (wallet.subnet_id ≡ id)
  unfolding new_secp256k1
  new_secp256k1-eq sk id wallet h = ground arith

  -- A client signs with the wallet's key for the chain of the wallet's subnet, and speaks to the
  -- endpoint of the configuration.
  pub get_eth_signer-signs :
      (wallet : Wallet F) (subnet : EvmSubnet F) (client : Middleware F.types)
      → get_eth_signer F (wallet_signer F) wallet subnet ≡ ok client
      → (key : F.LocalWallet) × (F.local_wallet (F.secret_bytes wallet.sk) ≡ ok key)
        × (client.wallet ≡ F.with_chain_id key (chain_id F wallet.subnet_id))
        × (get_eth_provider F subnet ≡ ok client.provider)
  unfolding get_eth_signer wallet_signer
  get_eth_signer-signs wallet subnet client h =
      let (provider, e, h₁) = >>=-eq-ok (get_eth_provider F subnet) _ h in
      let (key, f, h₂) = >>=-eq-ok (F.local_wallet (F.secret_bytes wallet.sk)) _ h₁ in
      let same = ok-injective h₂ in
      (key, f, sym (ap (λ x. x.wallet) same), e ∙ ap (λ x. ok x.provider) same)

  get_gateway-signs :
      (wallet : Wallet F) (subnet : EvmSubnet F) (gateway : Gateway F.types)
      → get_gateway F (wallet_signer F) wallet subnet ≡ ok gateway
      → (get_eth_signer F (wallet_signer F) wallet subnet ≡ ok gateway.client)
        × (F.delegated subnet.gateway_addr ≡ ok gateway.address)
  unfolding get_gateway
  get_gateway-signs wallet subnet gateway h =
      let (address, e, h₁) = >>=-eq-ok (F.delegated subnet.gateway_addr) _ h in
      let (client, f, h₂) = >>=-eq-ok (get_eth_signer F (wallet_signer F) wallet subnet) _ h₁ in
      let same = ok-injective h₂ in
      (f ∙ ap (λ x. ok x.client) same, e ∙ ap (λ x. ok x.address) same)

  call_made-Moved :
      (preset : Preset) (chain : SubnetId F) (args : FundArgs F)
      (method : F.FvmAddress → GatewayMethod F.types) (w : F.World) (wallet : Wallet F)
      (config : EvmSubnet F) (gateway : Gateway F.types) (value : ℕ) (address : F.FvmAddress)
      (receipt : F.EthReceipt) (d : Document F)
      → IsConfig F preset args.subnet config
      → new_secp256k1 F args.private_key ethereum chain ≡ ok wallet
      → get_gateway F (wallet_signer F) wallet config ≡ ok gateway
      → F.to_u128 (F.atto args.amount) ≡ some value
      → F.fvm_address (unwrap_or args.to wallet.addr) ≡ ok address
      → Sent F gateway.client
          (record {
            gateway = gateway;
            method = method address;
            value = some value;
            gas_price = none;
          })
          w
          receipt
      → ok (eth_receipt receipt) ≡ ok d
      → Moved preset chain args method w d
  call_made-Moved preset chain args method w wallet config gateway value address receipt d
        configured made got amount to sent shown =
      let (own, sk, id) = new_secp256k1-eq args.private_key chain wallet made in
      let (client, contract) = get_gateway-signs wallet config gateway got in
      let (key, e, signs, provider) = get_eth_signer-signs wallet config gateway.client client in
      record {
        key = key;
        sender = wallet.addr;
        gateway = gateway;
        value = value;
        address = address;
        receipt = receipt;
        own_key = sym (ap (λ k. F.local_wallet (F.secret_bytes k)) sk) ∙ e;
        own_address = own;
        signs = signs ∙ ap (λ i. F.with_chain_id key (chain_id F i)) id;
        endpoint =
            get_eth_provider-IsEndpoint F preset args.subnet config gateway.client.provider
              configured provider;
        contract =
            delegated-IsContract F preset args.subnet config gateway.address configured contract;
        amount = amount;
        recipient = to;
        sent = sent;
        shown = sym (ok-injective shown);
      }

  module _ (cli : Cli F) (id : SubnetId F) (args : FundArgs F) (w : F.World) (d : Document F) where
    -- A deposit that succeeds was made on the test network: a signer with the given key for the parent
    -- of the subnet sent one call of `fund`, for the subnet itself and the recipient, or else the
    -- account of the key, with the amount as its value and the estimated priority fee as its gas price.
    -- It went to the endpoint and the gateway's contract that are given, or else to those of the preset
    -- of the parent, with the given token and timeout, and its receipt is what is printed.
    pub deposit_from_parent-Moved :
        (deposit_from_parent F cli id args w).0 ≡ ok d
        → (cli.network ≡ Choice.testnet)
          × (above : SubnetId F) × (child : F.GatewaySubnet) × (parent F id ≡ ok above)
          × (F.gateway_subnet (inner F id) ≡ ok child)
          × Moved of_parent above args (fund child) w d
    unfolding deposit_from_parent deposit
    deposit_from_parent-Moved h =
        let (config, e, h₁) = proceed-eq-ok (get_parent_subnet_config F cli id args.subnet) _ w h in
        let (above, f, h₂) = proceed-eq-ok (parent F id) _ w h₁ in
        let made = new_secp256k1 F args.private_key ethereum above in
        let (wallet, g, h₃) = proceed-eq-ok made _ w h₂ in
        let move =
          deposit F (wallet_signer F) wallet (unwrap_or args.to wallet.addr) config args.amount in
        let (receipt, k, shown) = proceed-eq-ok (move w).0 _ (move w).1 h₃ in
        let (gateway, child, value, address, got, named, amount, to, sent) =
          evm_deposit-Sent F (wallet_signer F) wallet (unwrap_or args.to wallet.addr) config
            args.amount w receipt k in
        let (on_testnet, same, _) = subnet_config_testnet F cli id args.subnet config (inr e) in
        (
          on_testnet,
          above,
          child,
          f,
          rw same at named,
          call_made-Moved of_parent above args (fund child) w wallet config gateway value address
              receipt d (get_parent_subnet_config-IsConfig F cli id args.subnet config on_testnet e)
              g got amount to sent shown,
        )

    -- A withdrawal that succeeds was made on the test network: a signer with the given key for the
    -- subnet itself sent one call of `release`, for the recipient or else the account of the key, with
    -- the amount as its value and the estimated priority fee as its gas price. It went to the endpoint
    -- and the gateway's contract that are given, or else to those of the preset of the subnet, with the
    -- given token and timeout, and its receipt is what is printed.
    pub withdraw_to_parent-Moved :
        (withdraw_to_parent F cli id args w).0 ≡ ok d
        → (cli.network ≡ Choice.testnet) × Moved of_subnet id args release w d
    unfolding withdraw_to_parent withdraw
    withdraw_to_parent-Moved h =
        let (config, e, h₁) = proceed-eq-ok (get_subnet_config F cli id args.subnet) _ w h in
        let made = new_secp256k1 F args.private_key ethereum id in
        let (wallet, g, h₂) = proceed-eq-ok made _ w h₁ in
        let to_address = unwrap_or args.to wallet.addr in
        let move = withdraw F (wallet_signer F) wallet to_address config args.amount in
        let (receipt, k, shown) = proceed-eq-ok (move w).0 _ (move w).1 h₂ in
        let (gateway, value, address, got, amount, to, sent) =
          evm_withdraw-Sent F (wallet_signer F) wallet to_address config args.amount w receipt k in
        let on_testnet = (subnet_config_testnet F cli id args.subnet config (inl e)).0 in
        (
          on_testnet,
          call_made-Moved of_subnet id args release w wallet config gateway value address receipt d
              (get_subnet_config-IsConfig F cli id args.subnet config on_testnet e) g got amount to
              sent shown,
        )
