-- ===== src/Examples/Account.antt =====
-- sdk/examples/account_create.rs, account_balance.rs, account_deposit.rs.
pub mod Laws
use basin.Prelude.{String, ◌<>◌, List}
use basin.Run.{Run, lift, on_world, ◌>>=◌}
use basin.Foreign.{Foreign}
use basin.Signer.Subnet.{parent}
use basin.Signer.Key.{random_secretkey}
use basin.Signer.Interface.{evm_address}
use basin.Signer.Wallet.{ethereum, new_secp256k1, wallet_signer}
use basin.Sdk.Network.{testnet, subnet_id, default_subnet, subnet_config, parent_subnet_config}
use basin.Sdk.Account.{balance, deposit}
use basin.Examples.{key_argument, say, use_testnet}

module _ (F : Foreign) where
  unfoldable pub account_create : Run (F.Console × F.World) (Unit {0})
  account_create = do
    _ ← use_testnet F
    sk ← on_world (random_secretkey F)
    eth_address ← lift (F.actor_eth_address sk)
    let address = F.address_of_eth eth_address
    let sk_hex = F.hex_encode (F.secret_bytes sk)
    _ ← say F ("Private key: " <> sk_hex)
    _ ← say F ("Address: " <> F.actor_eth_text eth_address)
    say F ("FVM address: " <> F.address_text address)

  unfoldable pub account_balance : List String → Run (F.Console × F.World) (Unit {0})
  account_balance args = do
    sk ← lift (key_argument F args)
    _ ← use_testnet F
    id ← lift (subnet_id F testnet)
    above ← lift (parent F id)
    signer ← lift (new_secp256k1 F sk ethereum above)
    subnet ← lift (subnet_config F testnet default_subnet)
    amount ← on_world (balance F (wallet_signer F) signer subnet)
    eth_address ← lift (evm_address F (wallet_signer F) signer)
    say F ("Balance of " <> (F.eth_text eth_address <> (": " <> F.tokens_text amount)))

  unfoldable pub account_deposit : List String → Run (F.Console × F.World) (Unit {0})
  account_deposit args = do
    sk ← lift (key_argument F args)
    _ ← use_testnet F
    id ← lift (subnet_id F testnet)
    above ← lift (parent F id)
    signer ← lift (new_secp256k1 F sk ethereum above)
    subnet ← lift (parent_subnet_config F testnet default_subnet)
    tx ← on_world (deposit F (wallet_signer F) signer signer.addr subnet (F.tokens_from_whole 1))
    eth_address ← lift (evm_address F (wallet_signer F) signer)
    _ ← say F ("Deposited 1 tFIL to " <> F.eth_text eth_address)
    say F ("Transaction hash: 0x" <> F.hex_encode (F.receipt_hash tx))
