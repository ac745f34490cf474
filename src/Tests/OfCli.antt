-- ===== src/Tests/OfCli.antt =====
-- The theorems on the command line, in the small world.
use basin.Prelude.{◌≡◌, ◌↔◌, inl, refl, none, some, true, false, []}
use basin.Result.{ok, is_ok}
use basin.Signer.Subnet.{SubnetId}
use basin.Sdk.Network.{
  mainnet, devnet, EvmSubnet, subnet_id, rpc_url, evm_rpc_url, evm_registry, evm_gateway,
}
use basin.Provider.Util.{parse_address}
use basin.Cli.Choice
use basin.Cli.{Cli, SubnetArgs, AddressArgs, get_subnet_config, get_subnet_id, get_rpc_url}
use basin.Cli.Laws.{subnet_config_testnet, override_iff}
use basin.Foreign.Data.{committed}
use basin.Tests.Toy.{toy}

abbrev test_net : SubnetId toy
test_net = record { faux = "test"; real = (0, []) }

abbrev line : Cli toy
line = record { network = Choice.devnet; subnet = some test_net; rpc_url = some "http://here/" }

override_iff_example :
    ((get_subnet_id toy line ≡ ok test_net) ↔ (is_ok (subnet_id toy devnet) ≡ true))
    × ((get_rpc_url toy line ≡ ok "http://here/") ↔ (is_ok (rpc_url toy devnet) ≡ true))
    × (is_ok (subnet_id toy mainnet) ≡ false)
    × (is_ok (rpc_url toy mainnet) ≡ false)
override_iff_example = override_iff toy line test_net "http://here/" refl refl

abbrev nothing_given : AddressArgs toy
nothing_given = record { private_key = none; address = none; height = committed }

abbrev test_line : Cli toy
test_line = record { network = Choice.testnet; subnet = none; rpc_url = none }

abbrev test_args : SubnetArgs toy
test_args = record {
  evm_rpc_url = some "http://evm/";
  evm_rpc_timeout = 30;
  evm_rpc_auth_token = none;
  evm_gateway = none;
  evm_registry = some false;
}

abbrev test_config : EvmSubnet toy
test_config = record {
  id = test_net;
  provider_http = "http://evm/";
  provider_timeout = some 30;
  auth_token = none;
  registry_addr = false;
  gateway_addr = true;
}

subnet_config_testnet_example :
    (test_line.network ≡ Choice.testnet)
    × (test_config.id ≡ test_net)
    × (test_config.provider_timeout ≡ some test_args.evm_rpc_timeout)
unfolding get_subnet_config evm_rpc_url evm_registry evm_gateway parse_address
subnet_config_testnet_example =
    subnet_config_testnet toy test_line test_net test_args test_config (inl refl)
