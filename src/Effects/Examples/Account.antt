-- ===== src/Effects/Examples/Account.antt =====
-- sdk/examples/account_create.rs, account_balance.rs, account_deposit.rs.
use basin.Prelude.{String, List, refl}
use basin.Run.{on_world}
use basin.Foreign.{Foreign}
use basin.Signer.Subnet.{parent}
use basin.Signer.Interface.{evm_address}
use basin.Signer.Wallet.{ethereum, new_secp256k1, wallet_signer}
use basin.Sdk.Network.{testnet, subnet_id, default_subnet, subnet_config, parent_subnet_config}
use basin.Sdk.Account.{balance, deposit}
use basin.Examples.{key_argument}
use basin.Examples.Account.{account_create, account_balance, account_deposit}
use basin.Effects.{beside, on_world-Reaches, one_read, key_step}
use basin.Effects.Evm.{evm_balance-Within, evm_deposit-Within}
use basin.Effects.Success.{on_world-Sends}
use basin.Effects.Success.Evm.{evm_deposit-Sends}
use basin.Effects.Examples.{
  Counts, last-Counts, none-Counts, one-Counts, lift-Counts, say-Counts, testnet-Counts,
}

module _ (F : Foreign) where
  pub account_create-Counts : Counts F (beside F) 0 (account_create F)
  unfolding account_create
  account_create-Counts = testnet-Counts F 0 _ (
      none-Counts F (beside F) 0 (on_world F.random_key) _
        (on_world-Reaches F 0 _ (one_read F _ key_step))
        λ sk. lift-Counts F (beside F) 0 (F.actor_eth_address sk) _ λ eth.
          say-Counts F (beside F) (λ c d w. refl) 0 _ _
            (say-Counts F (beside F) (λ c d w. refl) 0 _ _
              (last-Counts F (beside F) (λ c d w. refl) _)))

  pub account_balance-Counts : (args : List String) → Counts F (beside F) 0 (account_balance F args)
  unfolding account_balance balance
  account_balance-Counts args = lift-Counts F (beside F) 0 (key_argument F args) _ λ sk.
      testnet-Counts F 0 _ (
        lift-Counts F (beside F) 0 (subnet_id F testnet) _ λ id.
          lift-Counts F (beside F) 0 (parent F id) _ λ above.
            lift-Counts F (beside F) 0 (new_secp256k1 F sk ethereum above) _ λ signer.
              lift-Counts F (beside F) 0 (subnet_config F testnet default_subnet) _ λ subnet.
                none-Counts F (beside F) 0 (on_world (balance F (wallet_signer F) signer subnet)) _
                  (on_world-Reaches F 0 _ (evm_balance-Within F _ subnet))
                  λ amount.
                    lift-Counts F (beside F) 0 (evm_address F (wallet_signer F) signer) _
                      λ eth. last-Counts F (beside F) (λ c d w. refl) _)

  pub account_deposit-Counts : (args : List String) → Counts F (beside F) 1 (account_deposit F args)
  unfolding account_deposit deposit
  account_deposit-Counts args = lift-Counts F (beside F) 1 (key_argument F args) _ λ sk.
      testnet-Counts F 1 _ (
        lift-Counts F (beside F) 1 (subnet_id F testnet) _ λ id.
          lift-Counts F (beside F) 1 (parent F id) _ λ above.
            lift-Counts F (beside F) 1 (new_secp256k1 F sk ethereum above) _ λ signer.
              lift-Counts F (beside F) 1 (parent_subnet_config F testnet default_subnet) _ λ subnet.
                let amount = F.tokens_from_whole 1 in
                let sends =
                  evm_deposit-Sends F (wallet_signer F) signer signer.addr subnet amount in
                one-Counts F (beside F) 0
                  (on_world (deposit F (wallet_signer F) signer signer.addr subnet amount)) _
                  (on_world-Reaches F 1 _
                    (evm_deposit-Within F (wallet_signer F) signer signer.addr subnet amount))
                  (on_world-Sends F _ sends)
                  λ tx. lift-Counts F (beside F) 0 (evm_address F (wallet_signer F) signer) _ λ eth.
                    say-Counts F (beside F) (λ c d w. refl) 0 _ _
                      (last-Counts F (beside F) (λ c d w. refl) _))
