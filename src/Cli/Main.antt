-- ===== src/Cli/Main.antt =====
-- cli/src/main.rs: the commands, and `main` after its arguments have been parsed.
pub mod Laws
pub mod Output
use basin.Prelude.{String}
use basin.Result.{Result}
use basin.Run.{Run}
use basin.Foreign.{Foreign}
use basin.Sdk.Network.{init}
use basin.Cli.{Cli}
use basin.Cli.Choice.{get_network}
use basin.Cli.Command.{Document}
use basin.Cli.Account.{AccountCommands, handle_account}
use basin.Cli.Accumulator.{AccumulatorCommands, handle_accumulator}
use basin.Cli.Machine.{MachineArgs, handle_machine}
use basin.Cli.Objectstore.{ObjectstoreCommands, handle_objectstore}

module _ (F : Foreign) where
  pub data Commands : Type 0 where
    account : AccountCommands F → Commands
    machine : MachineArgs F → Commands
    objectstore : ObjectstoreCommands F → Commands
    accumulator : AccumulatorCommands F → Commands

  module _ (pretty : Document F → Result String) (cli : Cli F) where
    unfoldable pub dispatch : Commands → Run (F.Console × F.World) (Unit {0})
    dispatch (account args) = handle_account F pretty cli args
    dispatch (objectstore args) = handle_objectstore F pretty cli args
    dispatch (accumulator args) = handle_accumulator F pretty cli args
    dispatch (machine args) = handle_machine F pretty cli args

    -- The network is made the current one before a command is run.
    unfoldable pub main : Commands → Run (F.Console × F.World) (Unit {0})
    unfolding dispatch
    main command s =
        dispatch command (s.0, F.set_current_network (init (get_network cli.network)) s.1)
