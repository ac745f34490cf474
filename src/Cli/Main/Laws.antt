-- ===== src/Cli/Main/Laws.antt =====
-- What `main` does for every command.
use basin.Prelude.{◌≡◌, refl, String}
use basin.Result.{Result, err, message}
use basin.Foreign.{Foreign}
use basin.Foreign.Data.{fvm_mainnet}
use basin.Sdk.Network.{init, rpc_url, subnet_id}
use basin.Cli.Choice
use basin.Cli.{Cli, get_rpc_url, get_subnet_id, overridden}
use basin.Cli.Command.{Document, rpc_provider}
use basin.Cli.Account.{handle_account}
use basin.Cli.Accumulator.{handle_accumulator}
use basin.Cli.Machine.{handle_machine}
use basin.Cli.Objectstore.{handle_objectstore}
use basin.Cli.Main.{Commands, main, account, machine, objectstore, accumulator}

module _ (F : Foreign) where
  -- On the main network every command fails with the same message, whatever its arguments and the
  -- overrides are: nothing is printed, and nothing is done but to set the current network.
  pub main-mainnet :
      (pretty : Document F → Result String) (cli : Cli F) (command : Commands F) (c : F.Console)
      (w : F.World)
      → cli.network ≡ Choice.mainnet
      → main F pretty cli command (c, w)
        ≡ (err (message "network is pre-mainnet"), (c, F.set_current_network fvm_mainnet w))
  unfolding main handle_account handle_accumulator handle_machine handle_objectstore rpc_provider
      init get_rpc_url get_subnet_id rpc_url subnet_id overridden
  main-mainnet pretty cli (account a) c w h = rw h refl
  main-mainnet pretty cli (machine a) c w h = rw h refl
  main-mainnet pretty cli (objectstore a) c w h = rw h refl
  main-mainnet pretty cli (accumulator a) c w h = rw h refl
