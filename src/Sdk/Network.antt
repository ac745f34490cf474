-- ===== src/Sdk/Network.antt =====
-- sdk/src/network.rs and sdk/src/ipc/subnet.rs: the presets of the networks.
use basin.Prelude.{ℕ, String, Option, none, some}
use basin.Result.{Result, ok, err, message, ◌>>=◌}
use basin.Foreign.{Foreign}
use basin.Foreign.Data.{FvmNetwork, fvm_mainnet, fvm_testnet}
use basin.Provider.Util.{parse_address}
use basin.Signer.Subnet.{SubnetId, subnet_of_text}

pub data Network : Type 0 where
  mainnet testnet localnet devnet : Network

-- `init`: the network that becomes the current one of the process.
unfoldable pub init : Network → FvmNetwork
init mainnet = fvm_mainnet
init _ = fvm_testnet

-- Durations are in seconds.
abbrev pub rpc_timeout : ℕ
rpc_timeout = 60

pub record SubnetOptions : Type 0 where
  pub evm_rpc_timeout : ℕ
  pub evm_rpc_auth_token : Option String

-- `SubnetOptions::default`
unfoldable pub default_subnet : SubnetOptions
default_subnet = record { evm_rpc_timeout = rpc_timeout; evm_rpc_auth_token = none }

abbrev pub pre_mainnet : {A : Type 0} → Result A
pre_mainnet = err (message "network is pre-mainnet")

abbrev pub no_parent : {A : Type 0} → Result A
no_parent = err (message "network has no parent")

-- The four networks' answers where the local ones have none: only testnet has a preset.
abbrev pub testnet_only : {A : Type 0} → Network → Result A → Result A
testnet_only mainnet preset = pre_mainnet
testnet_only testnet preset = preset
testnet_only localnet preset = no_parent
testnet_only devnet preset = no_parent

module _ (F : Foreign) where
  pub record EvmSubnet : Type 0 where
    pub id : SubnetId F
    pub provider_http : F.Url
    pub provider_timeout : Option ℕ
    pub auth_token : Option String
    pub registry_addr : F.Address
    pub gateway_addr : F.Address

  unfoldable pub subnet_id : Network → Result (SubnetId F)
  subnet_id mainnet = pre_mainnet
  subnet_id testnet = subnet_of_text F "/r314159/t410fbslswn3rqrpdjoozbuoll6mnnfsolbp2wi3vbmi"
  subnet_id localnet = subnet_of_text F "/r314159/t410f726d2jv6uj4mpkcbgg5ndlpp3l7dd5rlcpgzkoi"
  subnet_id devnet = subnet_of_text F "test"

  unfoldable pub rpc_url : Network → Result F.Url
  rpc_url mainnet = pre_mainnet
  rpc_url testnet = F.url_of_text "https://api.n1.testnet.basin.storage"
  rpc_url _ = F.url_of_text "http://127.0.0.1:26657"

  unfoldable pub object_api_url : Network → Result F.Url
  object_api_url mainnet = pre_mainnet
  object_api_url testnet = F.url_of_text "https://object-api.n1.testnet.basin.storage"
  object_api_url _ = F.url_of_text "http://127.0.0.1:8001"

  unfoldable pub evm_rpc_url : Network → Result F.Url
  evm_rpc_url n = testnet_only n (F.url_of_text "https://evm-api.n1.testnet.basin.storage")

  unfoldable pub evm_gateway : Network → Result F.Address
  evm_gateway n = testnet_only n (parse_address F "0x77aa40b105843728088c0132e43fc44348881da8")

  unfoldable pub evm_registry : Network → Result F.Address
  evm_registry n = testnet_only n (parse_address F "0x74539671a1d2f1c8f200826baba665179f53a1b7")

  unfoldable pub parent_evm_rpc_url : Network → Result F.Url
  parent_evm_rpc_url n =
      testnet_only n (F.url_of_text "https://api.calibration.node.glif.io/rpc/v1")

  unfoldable pub parent_evm_gateway : Network → Result F.Address
  parent_evm_gateway n =
      testnet_only n (parse_address F "0x129682c2ae89d8157Ad46Ea402E13f81C1C2e2d0")

  unfoldable pub parent_evm_registry : Network → Result F.Address
  parent_evm_registry n =
      testnet_only n (parse_address F "0x7Eb0a3511BB5DB2b5f945e6EB801Cb3Be9238c42")

  unfoldable pub subnet_config : Network → SubnetOptions → Result EvmSubnet
  subnet_config n options = do
    id ← subnet_id n
    url ← evm_rpc_url n
    registry ← evm_registry n
    gateway ← evm_gateway n
    ok (record {
      id = id;
      provider_http = url;
      provider_timeout = some options.evm_rpc_timeout;
      auth_token = options.evm_rpc_auth_token;
      registry_addr = registry;
      gateway_addr = gateway;
    })

  unfoldable pub parent_subnet_config : Network → SubnetOptions → Result EvmSubnet
  parent_subnet_config n options = do
    id ← subnet_id n
    url ← parent_evm_rpc_url n
    registry ← parent_evm_registry n
    gateway ← parent_evm_gateway n
    ok (record {
      id = id;
      provider_http = url;
      provider_timeout = some options.evm_rpc_timeout;
      auth_token = options.evm_rpc_auth_token;
      registry_addr = registry;
      gateway_addr = gateway;
    })
