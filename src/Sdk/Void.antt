-- ===== src/Sdk/Void.antt =====
-- sdk/src/machine.rs and machine/: the machines with the signer of signer/src/void.rs.
use basin.Prelude.{String, ◌≡◌, arith}
use basin.Prelude.Bytes.{Bytes}
use basin.Foreign.{Foreign}
use basin.Foreign.Data.{WriteAccess}
use basin.Provider.Message.{GasParams}
use basin.Provider.Interface.{Provider}
use basin.Signer.Void.{Void, void_signer}
use basin.Sdk.Machine.{deploy_machine}
use basin.Sdk.Accumulator.{Accumulator, PushOptions, push}
use basin.Sdk.ObjectStore.{ObjectStore, AddOptions, DeleteOptions, Reader, add, upload, delete}

module _ (F : Foreign) where
  -- With a void signer no operation that would change the chain or store an object sends anything:
  -- deploying a machine, pushing, adding and deleting leave the signer and the world as they were.
  pub void_unsent :
      (provider : Provider F) (s : Void F × F.World) (kind : F.Kind) (access : WriteAccess)
      (gas : GasParams F) (acc : Accumulator F) (payload : Bytes) (push_options : PushOptions F)
      (store : ObjectStore F) (key : String) (reader : Reader) (add_options : AddOptions F)
      (delete_options : DeleteOptions F)
      → ((deploy_machine F provider (void_signer F) kind access gas s).1 ≡ s)
        × ((push F provider (void_signer F) acc payload push_options s).1 ≡ s)
        × ((add F provider (void_signer F) store key reader add_options s).1 ≡ s)
        × ((delete F provider (void_signer F) store key delete_options s).1 ≡ s)
  unfolding deploy_machine push add upload delete void_signer
  void_unsent provider s kind access gas acc payload po store key reader ao delete_options =
      (ground arith, ground arith, ground arith, ground arith)
