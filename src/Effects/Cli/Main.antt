-- ===== src/Effects/Cli/Main.antt =====
-- cli/src/main.rs: `main`.
use basin.Prelude.{ℕ, String}
use basin.Result.{Result}
use basin.Foreign.{Foreign}
use basin.Sdk.Network.{init}
use basin.Cli.{Cli}
use basin.Cli.Choice.{get_network}
use basin.Cli.Command.{Document}
use basin.Cli.Main.{Commands, main, dispatch, account, machine, objectstore, accumulator}
use basin.Effects.{Within, Reaches, stay, then_read, network_step, none-then, beside}
use basin.Effects.Cli.Account.{account_submits, handle_account-Within}
use basin.Effects.Cli.Machines.{
  accumulator_submits, handle_accumulator-Within, handle_machine-Within,
}
use basin.Effects.Cli.Objectstore.{objectstore_submits, handle_objectstore-Within}

module _ (F : Foreign) where
  -- How many transactions a command may submit: one where it creates a machine, pushes, puts,
  -- removes or moves funds, and else none.
  abbrev pub submits : Commands F → ℕ
  submits (account a) = account_submits F a
  submits (machine a) = 0
  submits (objectstore a) = objectstore_submits F a
  submits (accumulator a) = accumulator_submits F a

module _ (F : Foreign) (pretty : Document F → Result String) where
  dispatch-Within :
      (cli : Cli F) (command : Commands F)
      → Within F (beside F) (submits F command) (dispatch F pretty cli command)
  unfolding dispatch
  dispatch-Within cli (account a) = handle_account-Within F pretty cli a
  dispatch-Within cli (machine a) = handle_machine-Within F pretty cli a
  dispatch-Within cli (objectstore a) = handle_objectstore-Within F pretty cli a
  dispatch-Within cli (accumulator a) = handle_accumulator-Within F pretty cli a

  -- Whatever its outcome, a command that creates a machine, pushes, puts, removes or moves funds
  -- submits at most one transaction, to the node or to an Ethereum endpoint, and every other command
  -- submits none. An upload to the object API is no transaction.
  pub main-Within :
      (cli : Cli F) (command : Commands F) (c : F.Console) (w : F.World)
      → Reaches F (submits F command) w (main F pretty cli command (c, w)).1.1
  unfolding main
  main-Within cli command c w =
      let network = init (get_network cli.network) in
      none-then F (submits F command) w (F.set_current_network network w) _
        (then_read 0 w w _ (stay 0 w) (network_step network w))
        (dispatch-Within cli command (c, F.set_current_network network w))
