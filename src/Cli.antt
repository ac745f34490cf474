-- ===== src/Cli.antt =====
-- cli/src/main.rs and account.rs: how the command line chooses between an argument and a preset.
pub mod Choice
pub mod Laws
pub mod Command
pub mod Accumulator
pub mod Machine
pub mod Objectstore
pub mod Account
pub mod Main
use basin.Prelude.{ℕ, String, Option, none, some}
use basin.Result.{Result, ok, halt, exit, map_ok, ◌>>=◌}
use basin.Foreign.{Foreign}
use basin.Foreign.Data.{QueryHeight}
use basin.Provider.Tx.{BroadcastMode, async, sync, commit}
use basin.Provider.Message.{GasParams}
use basin.Signer.Subnet.{SubnetId}
use basin.Signer.Wallet.{Wallet, ethereum, new_secp256k1}
use basin.Sdk.Network.{
  EvmSubnet, subnet_id, rpc_url, evm_rpc_url, evm_registry, evm_gateway, parent_evm_rpc_url,
  parent_evm_registry, parent_evm_gateway,
}
use basin.Cli.Choice.{Network, get_network}

-- `Option::unwrap_or`
abbrev pub unwrap_or : {A : Type 0} → Option A → A → A
unwrap_or none a = a
unwrap_or (some b) a = b

module _ (F : Foreign) where
  -- The arguments that name the network.
  pub record Cli : Type 0 where
    pub network : Network
    pub subnet : Option (SubnetId F)
    pub rpc_url : Option F.Url

  pub record SubnetArgs : Type 0 where
    pub evm_rpc_url : Option F.Url
    pub evm_rpc_timeout : ℕ
    pub evm_rpc_auth_token : Option String
    pub evm_gateway : Option F.Address
    pub evm_registry : Option F.Address

  pub record AddressArgs : Type 0 where
    pub private_key : Option F.SecretKey
    pub address : Option F.Address
    pub height : QueryHeight

  pub record TxArgs : Type 0 where
    pub gas_limit : Option ℕ
    pub gas_fee_cap : Option F.TokenAmount
    pub gas_premium : Option F.TokenAmount
    pub sequence : Option ℕ

  pub record TxParams : Type 0 where
    pub sequence : Option ℕ
    pub gas_params : GasParams F

  unfoldable pub to_tx_params : TxArgs → TxParams
  to_tx_params a = record {
    sequence = a.sequence;
    gas_params = record {
      gas_limit = unwrap_or a.gas_limit F.block_gas_limit;
      gas_fee_cap = unwrap_or a.gas_fee_cap F.zero_tokens;
      gas_premium = unwrap_or a.gas_premium F.zero_tokens;
    };
  }

  -- The preset is evaluated, and its error returned, before `unwrap_or` looks at the argument.
  unfoldable pub overridden : {A : Type 0} → Option A → Result A → Result A
  overridden argument preset = do a ← preset; ok (unwrap_or argument a)

  unfoldable pub get_subnet_id : Cli → Result (SubnetId F)
  unfolding overridden
  get_subnet_id cli = overridden cli.subnet (subnet_id F (get_network cli.network))

  unfoldable pub get_rpc_url : Cli → Result F.Url
  unfolding overridden
  get_rpc_url cli = overridden cli.rpc_url (rpc_url F (get_network cli.network))

  unfoldable pub get_subnet_config : Cli → SubnetId F → SubnetArgs → Result (EvmSubnet F)
  unfolding overridden
  get_subnet_config cli id args = do
    url ← overridden args.evm_rpc_url (evm_rpc_url F (get_network cli.network))
    registry ← overridden args.evm_registry (evm_registry F (get_network cli.network))
    gateway ← overridden args.evm_gateway (evm_gateway F (get_network cli.network))
    ok (record {
      id = id;
      provider_http = url;
      provider_timeout = some args.evm_rpc_timeout;
      auth_token = args.evm_rpc_auth_token;
      registry_addr = registry;
      gateway_addr = gateway;
    })

  unfoldable pub get_parent_subnet_config : Cli → SubnetId F → SubnetArgs → Result (EvmSubnet F)
  unfolding overridden
  get_parent_subnet_config cli id args = do
    url ← overridden args.evm_rpc_url (parent_evm_rpc_url F (get_network cli.network))
    registry ← overridden args.evm_registry (parent_evm_registry F (get_network cli.network))
    gateway ← overridden args.evm_gateway (parent_evm_gateway F (get_network cli.network))
    ok (record {
      id = id;
      provider_http = url;
      provider_timeout = some args.evm_rpc_timeout;
      auth_token = args.evm_rpc_auth_token;
      registry_addr = registry;
      gateway_addr = gateway;
    })

  -- `Cli::command().error(…).exit()` ends the process.
  unfoldable pub get_address : AddressArgs → SubnetId F → Result F.Address
  get_address args id = elim args.address [
    | some a ↦ ok a
    | none ↦ elim args.private_key [
      | some sk ↦ map_ok (λ w. w.addr) (new_secp256k1 F sk ethereum id)
      | none ↦
          halt
            (exit "the following required arguments were not provided: --private-key OR --address")
    ]
  ]
