-- ===== src/Cli/Machine.antt =====
-- cli/src/machine.rs: the handler of `machine info`.
use basin.Prelude.{String, none}
use basin.Result.{Result}
use basin.Run.{Run, done, lift, ◌>>=◌}
use basin.Foreign.{Foreign}
use basin.Foreign.Data.{QueryHeight}
use basin.Provider.Util.{get_delegated_address}
use basin.Provider.JsonRpc.{JsonRpcProvider, as_query_provider}
use basin.Sdk.Machine.{machine_info}
use basin.Cli.{Cli}
use basin.Cli.Command.{Document, machine_kind, printing, rpc_provider}

module _ (F : Foreign) where
  pub record MachineArgs : Type 0 where
    pub address : F.Address
    pub height : QueryHeight

  run_info : JsonRpcProvider F → MachineArgs → Run F.World (Document F)
  run_info p args = do
    metadata ← machine_info F (as_query_provider F p) args.address args.height
    owner ← lift (get_delegated_address F metadata.owner)
    done (machine_kind metadata.kind (F.eth_text owner))

  unfoldable pub handle_machine :
      (Document F → Result String) → Cli F → MachineArgs → Run (F.Console × F.World) (Unit {0})
  unfolding run_info
  handle_machine pretty cli args = do
    p ← lift (rpc_provider F cli none)
    printing F pretty (run_info p args)
