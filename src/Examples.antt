-- ===== src/Examples.antt =====
-- sdk/examples: the example programs, and what they share. A program gets the arguments of its call,
-- of which the first is its own name.
pub mod Account
pub mod Accumulator
pub mod Objectstore
use basin.Prelude.{ℕ, String, ltb, if◌then◌else◌, List, length, get_elem?}
use basin.Result
use basin.Result.{Result, ok, err, message, expect}
use basin.Run.{Run, on_local, on_world}
use basin.Foreign.{Foreign}
use basin.Signer.Key.{parse_secret_key}
use basin.Signer.Wallet.{Wallet}
use basin.Sdk.Network.{Network, testnet, init}

module _ (F : Foreign) where
  unfoldable pub key_argument : List String → Result F.SecretKey
  key_argument args =
      if ltb (length args) 2
      then err (message "missing hex-encoded private key")
      else Result.◌>>=◌ (expect "index out of bounds" (get_elem? args 1)) (parse_secret_key F)

  -- `println!`
  unfoldable pub say : {W : Type 0} → String → Run (F.Console × W) (Unit {0})
  say s = on_local λ c. (ok tt, F.println s c)

  -- `Network::Testnet.init()`
  abbrev pub use_testnet : Run (F.Console × F.World) (Unit {0})
  use_testnet = on_world λ w. (ok tt, F.set_current_network (init testnet) w)

  -- A wallet beside the world, which ends with what is done with it.
  abbrev pub with_signer :
      {A : Type 0}
      → Wallet F
      → Run (F.Console × (Wallet F × F.World)) A
      → Run (F.Console × F.World) A
  with_signer wallet m s =
      ((m (s.0, (wallet, s.1))).0, ((m (s.0, (wallet, s.1))).1.0, (m (s.0, (wallet, s.1))).1.1.1))
