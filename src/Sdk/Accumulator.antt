-- ===== src/Sdk/Accumulator.antt =====
-- sdk/src/machine/accumulator.rs: a machine that accumulates a stream of events.
pub mod Laws
use basin.Prelude.{
  ℕ, ◌*◌, String, ◌<>◌, ltb, if◌then◌else◌, Option, none, some, List, [], length, decimal,
}
use basin.Prelude.Bytes.{Bytes}
use basin.Result.{Result, ok, err, message, ok_or, map_ok}
use basin.Run.{Run, done, lift, on_local, on_world, ◌>>=◌}
use basin.Foreign.{Foreign, Codec}
use basin.Foreign.Data.{DeliverTx, QueryHeight, WriteAccess}
use basin.Provider.Tx.{BroadcastMode, default_mode, TxReceipt}
use basin.Provider.Message.{GasParams, default_gas, local_message}
use basin.Provider.Response.{decode_as, decode_cid}
use basin.Provider.Query.{QueryProvider, run_call}
use basin.Provider.Interface.{Provider}
use basin.Signer.Interface.{Signer}
use basin.Sdk.Machine.{DeployTxReceipt, deploy_machine}

abbrev pub max_acc_payload_size : ℕ
max_acc_payload_size = 1024 * 500

module _ (F : Foreign) where
  pub record PushOptions : Type 0 where
    pub broadcast_mode : BroadcastMode
    pub gas_params : GasParams F

  -- `PushOptions::default`
  unfoldable pub default_push : PushOptions
  default_push = record { broadcast_mode = default_mode; gas_params = default_gas F }

  pub record PushReturn : Type 0 where
    pub root : F.Cid
    pub index : ℕ

  pub record Accumulator : Type 0 where
    pub address : F.Address

  -- `Machine::attach`
  unfoldable pub attach : F.Address → Accumulator
  attach a = record { address = a }

  unfoldable pub decode_push_return : DeliverTx F.types → Result PushReturn
  decode_push_return tx =
      map_ok (λ r. record { root = r.root; index = r.index })
        (decode_as F F.push_return_codec "PushReturn" tx)

  module _ {S : Type 0} (provider : Provider F) (signer : Signer F S) where
    -- `Machine::new`
    unfoldable pub new :
        WriteAccess → GasParams F → Run (S × F.World) (Accumulator × DeployTxReceipt F)
    unfolding attach
    new access gas = do
      made ← deploy_machine F provider signer F.accumulator_kind access gas
      done (attach made.0, made.1)

    unfoldable pub push :
        Accumulator → Bytes → PushOptions → Run (S × F.World) (TxReceipt F.types PushReturn)
    push acc payload options =
        if ltb max_acc_payload_size (length payload)
        then lift
            (err (message ("max payload size is " <> decimal max_acc_payload_size <> " bytes")))
        else do
          params ← lift (F.bytes_ser_codec.encode payload)
          msg ← on_local (
              signer.transaction (record {
                to = acc.address;
                value = F.zero_tokens;
                method_num = F.push_method;
                params = params;
                object = none;
                gas_params = options.gas_params;
              }))
          on_world (provider.perform _ decode_push_return msg options.broadcast_mode)

  module _ (queries : QueryProvider F) (acc : Accumulator) where
    unfoldable pub leaf : ℕ → QueryHeight → Run F.World Bytes
    leaf index height = do
      params ← lift (F.u64_codec.encode index)
      response ←
          run_call F queries (local_message F acc.address F.get_method params) height
            (decode_as F F.maybe_bytes_codec "Option<Vec<u8>>")
      lift (ok_or (message ("leaf not found for index '" <> decimal index <> "'")) response.value)

    unfoldable pub count : QueryHeight → Run F.World ℕ
    count height = do
      response ←
          run_call F queries (local_message F acc.address F.count_method []) height
            (decode_as F F.u64_codec "u64")
      done response.value

    unfoldable pub peaks : QueryHeight → Run F.World (List F.Cid)
    peaks height = do
      response ←
          run_call F queries (local_message F acc.address F.peaks_method []) height
            (decode_as F F.cids_codec "Vec<Cid>")
      done response.value

    unfoldable pub root : QueryHeight → Run F.World F.Cid
    root height = do
      response ←
          run_call F queries (local_message F acc.address F.root_method []) height (decode_cid F)
      done response.value
