-- ===== src/Cli/Command/Laws.antt =====
-- The wallet of a command, when its sequence is given.
use basin.Prelude.{ℕ, ◌≡◌, refl, Option, some}
use basin.Result.{ok}
use basin.Run.{Run}
use basin.Foreign.{Foreign}
use basin.Provider.JsonRpc.{JsonRpcProvider}
use basin.Signer.Subnet.{SubnetId}
use basin.Signer.Wallet.{Wallet, new_secp256k1, set_sequence}
use basin.Cli.Command.{with_wallet}

module _ (F : Foreign) where
  -- The wallet of a key, with the given address and sequence.
  abbrev pub wallet_at : F.SecretKey → SubnetId F → F.Address → ℕ → Wallet F
  wallet_at sk id sender n = record { addr = sender; sk = sk; subnet_id = id; sequence = n }

  -- Nothing is asked of the network before the action.
  pub with_wallet-given :
      {A : Type 0} (p : JsonRpcProvider F) (sk : F.SecretKey) (id : SubnetId F) (o : Option ℕ)
      (n : ℕ) (sender : F.Address) (action : Run (Wallet F × F.World) A) (w : F.World)
      → o ≡ some n
      → F.ethereum_address sk ≡ ok sender
      → with_wallet F p sk id o action w
        ≡ ((action (wallet_at sk id sender n, w)).0, (action (wallet_at sk id sender n, w)).1.1)
  unfolding with_wallet new_secp256k1 set_sequence
  with_wallet-given p sk id o n sender action w given own = rw (given, own) refl
