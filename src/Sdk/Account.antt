-- ===== src/Sdk/Account.antt =====
-- sdk/src/account.rs: the sequence of an account, and its funds in a subnet.
use basin.Prelude.{ℕ, ◌<>◌, ◌≡◌, none, some, arith}
use basin.Result.{ok, err, message}
use basin.Run.{Run, on_world, lift, done, ◌>>=◌}
use basin.Foreign.{Foreign}
use basin.Foreign.Data.{QueryHeight, pending}
use basin.Provider.Query.{QueryProvider, run_actor_state}
use basin.Signer.Interface.{Signer}
use basin.Sdk.Network.{EvmSubnet}
use basin.Sdk.Evm.{evm_balance, evm_deposit, evm_withdraw, evm_transfer}
use basin.Signer.Wallet.{Wallet, wallet_signer, init_sequence}

module _ (F : Foreign) {S : Type 0} where
  unfoldable pub account_sequence : QueryProvider F → Signer F S → QueryHeight → Run (S × F.World) ℕ
  account_sequence p signer height s =
      (do
        res ← on_world (run_actor_state F p (signer.address s.0) height)
        elim res.value [
          | some found ↦ done found.1.sequence
          | none ↦ lift (
              err (
                message (
                  "failed to get sequence; actor "
                  <> F.address_text (signer.address s.0)
                  <> " cannot be found")))
        ])
        s

module _ (F : Foreign) {S : Type 0} (signer : Signer F S) (s : S) where
  unfoldable pub balance : EvmSubnet F → Run F.World F.TokenAmount
  balance subnet = evm_balance F (signer.address s) subnet

  unfoldable pub deposit : F.Address → EvmSubnet F → F.TokenAmount → Run F.World F.EthReceipt
  deposit to subnet amount = evm_deposit F signer s to subnet amount

  unfoldable pub withdraw : F.Address → EvmSubnet F → F.TokenAmount → Run F.World F.EthReceipt
  withdraw to subnet amount = evm_withdraw F signer s to subnet amount

  unfoldable pub transfer : F.Address → EvmSubnet F → F.TokenAmount → Run F.World F.EthReceipt
  transfer to subnet amount = evm_transfer F signer s to subnet amount

module _ (F : Foreign) where
  -- If the account's sequence is reported in the pending state, `init_sequence` succeeds, gives the
  -- wallet that sequence and changes nothing else of it, and asks the network the same.
  pub init_sequence-account_sequence :
      (p : QueryProvider F) (wallet : Wallet F) (w : F.World) (n : ℕ)
      → (account_sequence F p (wallet_signer F) pending (wallet, w)).0 ≡ ok n
      → init_sequence F p (wallet, w) ≡ (
        ok tt,
        (
          record wallet { sequence = n },
          (account_sequence F p (wallet_signer F) pending (wallet, w)).1.1,
        ),
      )
  unfolding account_sequence init_sequence wallet_signer
  init_sequence-account_sequence p wallet w n h = ground arith
