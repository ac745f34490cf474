-- ===== src/Foreign/Evm.antt =====
-- The libraries `ethers`, `ethers_contract` and the gateway's bindings towards the Ethereum endpoint
-- of a subnet, with the structs that the code fills in.
use basin.Prelude.{ℕ, String, Option, List}
use basin.Prelude.Int.{ℤ}
use basin.Prelude.Bytes.{Bytes}
use basin.Result.{Result}
use basin.Run.{Run}
use basin.Foreign.Data.{Types}

module _ (T : Types) where
  open T use {EthProvider, LocalWallet, EthAddress, GatewaySubnet, FvmAddress}

  -- `SignerMiddleware<Provider<Http>, Wallet<SigningKey>>`
  pub record Middleware : Type 0 where
    pub provider : EthProvider
    pub wallet : LocalWallet

  -- `GatewayManagerFacet`
  pub record Gateway : Type 0 where
    pub address : EthAddress
    pub client : Middleware

  pub data GatewayMethod : Type 0 where
    fund : GatewaySubnet → FvmAddress → GatewayMethod
    release : FvmAddress → GatewayMethod

  -- `ContractCall`, with the value and the gas price where they have been set
  pub record ContractCall : Type 0 where
    pub gateway : Gateway
    pub method : GatewayMethod
    pub value : Option ℕ
    pub gas_price : Option ℕ

  -- `Eip1559TransactionRequest`
  pub record Eip1559Request : Type 0 where
    pub to : EthAddress
    pub value : ℕ
    pub max_priority_fee_per_gas : ℕ
    pub max_fee_per_gas : ℕ

module _ (T : Types) where
  open T use {World, Address, TokenAmount, RealSubnet, SecretKey, Url, HeaderValue, WebClient}
  open T use {
    EthProvider, LocalWallet, EthAddress, GatewaySubnet, FvmAddress, PendingTx, EthReceipt,
  }

  pub record Eth : Type 0 where
    -- `Authorization::Bearer(token).to_string()` and `HeaderValue::from_str`
    pub bearer_text : String → String
    pub header_of_text : String → Result HeaderValue
    -- `Client::builder()` with an Authorization header and a timeout in seconds, `.build()`
    pub build_client : Option HeaderValue → Option ℕ → Result WebClient
    -- `Http::new_with_client`, `Provider::new` and `set_interval` with an interval in seconds
    pub eth_provider : Url → WebClient → ℕ → EthProvider
    -- `LocalWallet::from_bytes` and `with_chain_id`
    pub local_wallet : Bytes → Result LocalWallet
    pub with_chain_id : LocalWallet → ℕ → LocalWallet
    pub get_balance : EthProvider → EthAddress → Run World ℕ
    -- `U256::as_u128`, and `to_u128` of a BigInt
    pub as_u128 : ℕ → Result ℕ
    pub to_u128 : ℤ → Option ℕ
    pub fil_to_eth_amount : TokenAmount → Result ℕ
    pub gateway_subnet : RealSubnet → Result GatewaySubnet
    pub fvm_address : Address → Result FvmAddress
    -- `get_block(Latest)`, of which the code reads `base_fee_per_gas`
    pub latest_base_fee : Middleware T → Run World (Option (Option ℕ))
    -- `fee_history(…)`'s rewards, a row for each past block
    pub fee_history : Middleware T → Run World (List (List ℕ))
    -- `EIP1559_FEE_ESTIMATION_THRESHOLD_MAX_CHANGE`
    pub threshold_max_change : ℤ
    -- `ContractCall::send`, and `retries(n)` on what it returns, awaited
    pub send_call : ContractCall T → Run World PendingTx
    pub await_retries : PendingTx → ℕ → Run World (Option EthReceipt)
    -- `send_transaction(tx, None)`, and what it returns, awaited
    pub send_transaction : Middleware T → Eip1559Request T → Run World PendingTx
    pub await_receipt : PendingTx → Run World (Option EthReceipt)
    -- `encode_hex_with_prefix`
    pub eth_text : EthAddress → String
    -- `transaction_hash.to_fixed_bytes()` of a receipt
    pub receipt_hash : EthReceipt → Bytes
