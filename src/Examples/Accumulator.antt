-- ===== src/Examples/Accumulator.antt =====
-- sdk/examples/accumulator_push.rs.
pub mod Laws
use basin.Prelude.{ℕ, String, ◌<>◌, List, Option, none, some, decimal}
use basin.Result.{Result, ok, err, halt, panic}
use basin.Run.{Run, lift, on_world, ◌>>=◌}
use basin.Foreign.{Foreign}
use basin.Foreign.Data.{only_owner, committed}
use basin.Provider.Message.{default_gas}
use basin.Provider.Http.{new_http}
use basin.Provider.JsonRpc.{JsonRpcProvider, as_query_provider}
use basin.Provider.JsonRpc.Complete.{as_provider}
use basin.Signer.Wallet.{Wallet, ethereum, new_secp256k1, wallet_signer, init_sequence}
use basin.Sdk.Network.{testnet, subnet_id, rpc_url}
use basin.Provider.Tx.{TxReceipt}
use basin.Sdk.Accumulator.{Accumulator, new, push, leaf, count, root, default_push, PushReturn}
use basin.Examples.{key_argument, say, use_testnet, with_signer}

abbrev pub unwrap_or_stop {ℓ} : {A : Type ℓ} → Result A → Result A
unwrap_or_stop (ok a) = ok a
unwrap_or_stop (err e) = halt (panic "called `Result::unwrap()` on an `Err` value")
unwrap_or_stop (halt h) = halt h

-- `Option::unwrap`, with what it does where there is nothing.
abbrev pub value_or {ℓ} : {A : Type ℓ} → Result A → Option A → Result A
value_or absent none = absent
value_or absent (some a) = ok a

abbrev pub unwrap_panics {ℓ} : {A : Type ℓ} → Result A
unwrap_panics = halt (panic "called `Option::unwrap()` on a `None` value")

module _ (F : Foreign) where
  module _ (absent : Result (PushReturn F)) (p : JsonRpcProvider F) where
    -- The program from the receipt of the push on.
    unfoldable pub report_push :
        Accumulator F
        → TxReceipt F.types (PushReturn F)
        → Run (F.Console × (Wallet F × F.World)) (Unit {0})
    report_push machine tx = do
      returned ← lift (value_or absent tx.return_data)
      _ ← say F (
          "Pushed to accumulator "
          <> (F.address_text machine.address <> (" with index " <> decimal returned.index)))
      _ ← say F ("Transaction hash: 0x" <> F.hash_text tx.hash)
      value ← on_world (on_world (leaf F (as_query_provider F p) machine 0 committed))
      text ← lift (unwrap_or_stop (F.from_utf8 value))
      _ ← say F ("Value at index 0: '" <> (text <> "'"))
      n ← on_world (on_world (count F (as_query_provider F p) machine committed))
      _ ← say F ("Count: " <> decimal n)
      cid ← on_world (on_world (root F (as_query_provider F p) machine committed))
      say F ("State root: " <> F.cid_text cid)

    unfoldable pub accumulator_session : Run (F.Console × (Wallet F × F.World)) (Unit {0})
    accumulator_session = do
      _ ← on_world (init_sequence F (as_query_provider F p))
      made ← on_world (new F (as_provider F p) (wallet_signer F) only_owner (default_gas F))
      let machine = made.0
      _ ← say F ("Created new accumulator " <> F.address_text machine.address)
      _ ← say F ("Transaction hash: 0x" <> F.hash_text made.1.hash)
      tx ← on_world (
          push F (as_provider F p) (wallet_signer F) machine (F.as_bytes "my_value")
            (default_push F))
      report_push machine tx

  -- The program up to where its wallet is made, and what is done with the wallet.
  unfoldable pub with_accumulator_signer :
      (JsonRpcProvider F → Run (F.Console × (Wallet F × F.World)) (Unit {0}))
      → List String
      → Run (F.Console × F.World) (Unit {0})
  with_accumulator_signer session args = do
    sk ← lift (key_argument F args)
    _ ← use_testnet F
    url ← lift (rpc_url F testnet)
    provider ← lift (new_http F url none none)
    id ← lift (subnet_id F testnet)
    wallet ← lift (new_secp256k1 F sk ethereum id)
    with_signer F wallet (session provider)

  -- The program, with what is done where the receipt of the push has no data.
  unfoldable pub accumulator_push_or :
      Result (PushReturn F) → List String → Run (F.Console × F.World) (Unit {0})
  unfolding accumulator_session with_accumulator_signer report_push
  accumulator_push_or absent = with_accumulator_signer (accumulator_session absent)

  unfoldable pub accumulator_push : List String → Run (F.Console × F.World) (Unit {0})
  unfolding accumulator_push_or
  accumulator_push = accumulator_push_or unwrap_panics
