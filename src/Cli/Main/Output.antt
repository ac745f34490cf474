-- ===== src/Cli/Main/Output.antt =====
-- What a command leaves on the terminal.
use basin.Prelude.{◌≡◌, ◌⊎◌, inl, inr, refl, Bool, true, false, String, none}
use basin.Result.{Result, ok, err, halt, is_ok}
use basin.Run.{Run, proceed, lift, on_local, ◌>>=◌}
use basin.Foreign.{Foreign}
use basin.Provider.JsonRpc.{JsonRpcProvider}
use basin.Signer.Subnet.{SubnetId}
use basin.Cli.{Cli, get_subnet_id}
use basin.Cli.Command.{Document, printing, print_json, rpc_provider}
use basin.Cli.Account.{handle_account}
use basin.Cli.Accumulator.{
  AccumulatorCommands, create, list, push_value, get_leaf, get_count, get_peaks, get_root,
  run_accumulator, handle_accumulator,
}
use basin.Cli.Machine.{handle_machine}
use basin.Cli.Objectstore.{
  ObjectstoreCommands, create, list, put, remove, fetch, find, object_provider, run_objectstore,
  handle_objectstore,
}
use basin.Cli.Main.{Commands, dispatch, main, account, machine, objectstore, accumulator}

module _ (F : Foreign) where
  -- The commands that write the bytes of a leaf or of an object, and no document.
  abbrev pub writes_bytes : Commands F → Bool
  writes_bytes (account a) = false
  writes_bytes (machine a) = false
  writes_bytes (objectstore (create a)) = false
  writes_bytes (objectstore (list a)) = false
  writes_bytes (objectstore (put a)) = false
  writes_bytes (objectstore (remove a)) = false
  writes_bytes (objectstore (fetch a)) = true
  writes_bytes (objectstore (find a)) = false
  writes_bytes (accumulator (create a)) = false
  writes_bytes (accumulator (list a)) = false
  writes_bytes (accumulator (push_value a)) = false
  writes_bytes (accumulator (get_leaf a)) = true
  writes_bytes (accumulator (get_count a)) = false
  writes_bytes (accumulator (get_peaks a)) = false
  writes_bytes (accumulator (get_root a)) = false

  module _ (pretty : Document F → Result String) (c : F.Console) where
    -- No success and no output, or success and the text of one document.
    abbrev pub Reports : Result (Unit {0}) × (F.Console × F.World) → Type 0
    Reports x =
        ((is_ok x.0 ≡ false) × (x.1.0 ≡ c))
        ⊎ ((d : Document F) × (json : String) × (pretty d ≡ ok json)
            × (x.0 ≡ ok tt)
            × (x.1.0 ≡ F.println json c))

    shown :
        (d : Document F) (r : Result String) (w : F.World)
        → pretty d ≡ r
        → Reports (on_local (lift r >>= λ json t. (ok tt, F.println json t)) (c, w))
    shown d (ok json) w h = inr (d, json, h, refl, refl)
    shown d (err e) w h = inl (refl, refl)
    shown d (halt x) w h = inl (refl, refl)

    proceed-Reports :
        {A : Type 0} (r : Result A) (f : A → Run (F.Console × F.World) (Unit {0})) (w : F.World)
        → ((a : A) → Reports (f a (c, w)))
        → Reports (proceed r f (c, w))
    proceed-Reports (ok a) f w h = h a
    proceed-Reports (err e) f w h = inl (refl, refl)
    proceed-Reports (halt x) f w h = inl (refl, refl)

    printing-Reports :
        (m : Run F.World (Document F)) (w : F.World) → Reports (printing F pretty m (c, w))
    unfolding printing print_json
    printing-Reports m w = proceed-Reports (m w).0 _ (m w).1 λ d. shown d (pretty d) (m w).1 refl

    run_accumulator-Reports :
        (p : JsonRpcProvider F) (id : SubnetId F) (command : AccumulatorCommands F) (w : F.World)
        → writes_bytes (accumulator command) ≡ false
        → Reports (run_accumulator F pretty p id command (c, w))
    unfolding run_accumulator
    run_accumulator-Reports p id (get_leaf a) w h = cc
    run_accumulator-Reports p id (create a) w h = printing-Reports _ w
    run_accumulator-Reports p id (list a) w h = printing-Reports _ w
    run_accumulator-Reports p id (push_value a) w h = printing-Reports _ w
    run_accumulator-Reports p id (get_count a) w h = printing-Reports _ w
    run_accumulator-Reports p id (get_peaks a) w h = printing-Reports _ w
    run_accumulator-Reports p id (get_root a) w h = printing-Reports _ w

    module _ (cli : Cli F) (w : F.World) where
      run_objectstore-Reports :
          (id : SubnetId F) (command : ObjectstoreCommands F)
          → writes_bytes (objectstore command) ≡ false
          → Reports (run_objectstore F pretty cli id command (c, w))
      unfolding run_objectstore
      run_objectstore-Reports id (fetch a) h = cc
      run_objectstore-Reports id (create a) h =
          proceed-Reports (rpc_provider F cli none) _ w λ p. printing-Reports _ w
      run_objectstore-Reports id (list a) h =
          proceed-Reports (rpc_provider F cli none) _ w λ p. printing-Reports _ w
      run_objectstore-Reports id (put a) h =
          proceed-Reports (object_provider F cli a.object_api_url) _ w λ p. printing-Reports _ w
      run_objectstore-Reports id (remove a) h =
          proceed-Reports (rpc_provider F cli none) _ w λ p. printing-Reports _ w
      run_objectstore-Reports id (find a) h =
          proceed-Reports (rpc_provider F cli none) _ w λ p. printing-Reports _ w

      handled-Reports :
          (command : Commands F)
          → writes_bytes command ≡ false
          → Reports (dispatch F pretty cli command (c, w))
      unfolding dispatch handle_account handle_machine handle_objectstore handle_accumulator
      handled-Reports (account a) h =
          proceed-Reports (rpc_provider F cli none) _ w
            λ p. proceed-Reports (get_subnet_id F cli) _ w λ id. printing-Reports _ w
      handled-Reports (machine a) h =
          proceed-Reports (rpc_provider F cli none) _ w λ p. printing-Reports _ w
      handled-Reports (objectstore a) h =
          proceed-Reports (get_subnet_id F cli) _ w λ id. run_objectstore-Reports id a h
      handled-Reports (accumulator a) h =
          proceed-Reports (rpc_provider F cli none) _ w
            λ p. proceed-Reports (get_subnet_id F cli) _ w λ id. run_accumulator-Reports p id a w h

  -- Every command but the two that write the bytes of a leaf or of an object either succeeds and
  -- prints the text of one document, and nothing else, or does not succeed and leaves the terminal
  -- as it was.
  pub main-Reports :
      (pretty : Document F → Result String) (cli : Cli F) (command : Commands F) (c : F.Console)
      (w : F.World)
      → writes_bytes command ≡ false
      → Reports pretty c (main F pretty cli command (c, w))
  unfolding main
  main-Reports pretty cli command c w h = handled-Reports pretty c cli _ command h
