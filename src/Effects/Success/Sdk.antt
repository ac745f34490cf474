-- ===== src/Effects/Success/Sdk.antt =====
-- provider/src/json_rpc.rs and the machines of the SDK: a transaction that succeeds was submitted.
use basin.Prelude.{ℕ, String, refl, arith, not, ltb, length}
use basin.Prelude.Bytes.{Bytes}
use basin.Result.{Result}
use basin.Run.{lift, on_world, on_local, ◌>>=◌}
use basin.Foreign.{Foreign}
use basin.Foreign.Data.{DeliverTx, WriteAccess}
use basin.Provider.Tx.{BroadcastMode, async, sync, commit}
use basin.Provider.Message.{GasParams, serialize}
use basin.Provider.JsonRpc.{JsonRpcProvider, perform}
use basin.Provider.JsonRpc.Complete.{as_provider}
use basin.Signer.Interface.{Signer, Request}
use basin.Sdk.Machine.{deploy_machine, decode_create, create_request}
use basin.Sdk.Accumulator
use basin.Sdk.Accumulator.{Accumulator, PushOptions, push}
use basin.Sdk.ObjectStore
use basin.Sdk.ObjectStore.{
  ObjectStore, DeleteOptions, AddOptions, Reader, chunk_size, delete, upload, add, add_uploaded,
  add_params,
}
use basin.Sdk.ObjectStore.Content.{generate_cid}
use basin.Effects.{stay, alone, beside, unmoved, async_step, sync_step, commit_step}
use basin.Effects.Provider.{as_provider-IsFrugal}
use basin.Effects.Sdk.{upload-Within}
use basin.Effects.Success.{
  Sends, quiet_first, quiet_last, result_first, unless-Sends, one-Sends, on_world-Sends,
}

module _ (F : Foreign) (p : JsonRpcProvider F) where
  perform-Sends :
      (A : Type 0) (f : DeliverTx F.types → Result A) (m : F.ChainMessage) (mode : BroadcastMode)
      → Sends F (alone F) (perform F p f m mode)
  unfolding perform
  perform-Sends A f m async = result_first F (alone F) (serialize F m) _ λ bytes.
      quiet_last F (alone F) (F.broadcast_tx_async p.inner bytes) _
        (one-Sends F _ (async_step p.inner bytes)) λ r. unmoved F (alone F) 0 _ λ s. ground arith
  perform-Sends A f m sync = result_first F (alone F) (serialize F m) _ λ bytes.
      quiet_last F (alone F) (F.broadcast_tx_sync p.inner bytes) _
        (one-Sends F _ (sync_step p.inner bytes)) λ r. unmoved F (alone F) 0 _ λ s. ground arith
  perform-Sends A f m commit = result_first F (alone F) (serialize F m) _ λ bytes.
      quiet_last F (alone F) (F.broadcast_tx_commit p.inner bytes) _
        (one-Sends F _ (commit_step p.inner bytes)) λ r. unmoved F (alone F) 0 _ λ s. ground arith

  module _ {S : Type 0} (signer : Signer F S) where
    performed-Sends :
        (A : Type 0) (f : DeliverTx F.types → Result A) (m : F.ChainMessage) (mode : BroadcastMode)
        → Sends F (beside F) (on_world {S = S} ((as_provider F p).perform A f m mode))
    unfolding as_provider
    performed-Sends A f m mode = on_world-Sends F (perform F p f m mode) (perform-Sends A f m mode)

    transact-Sends :
        {A : Type 0} (params : Result Bytes) (request : Bytes → Request F)
        (f : DeliverTx F.types → Result A) (mode : BroadcastMode)
        → Sends F (beside F {S = S}) (
            lift params >>= λ b. on_local (signer.transaction (request b)) >>= λ m.
            on_world ((as_provider F p).perform A f m mode))
    transact-Sends params request f mode = result_first F (beside F) params _ λ b.
        quiet_first F (beside F) (on_local (signer.transaction (request b))) _ (λ s. stay 0 s.1)
          λ m. performed-Sends _ f m mode

    pub push-Sends :
        (acc : Accumulator F) (payload : Bytes) (o : PushOptions F)
        → Sends F (beside F) (push F (as_provider F p) signer acc payload o)
    unfolding push
    push-Sends acc payload o =
        unless-Sends F (beside F) (ltb 512000 (length payload)) _ _ (λ s. refl)
          (transact-Sends (F.bytes_ser_codec.encode payload) _ _ o.broadcast_mode)

    deploy_machine-Sends :
        (kind : F.Kind) (access : WriteAccess) (gas : GasParams F)
        → Sends F (beside F) (deploy_machine F (as_provider F p) signer kind access gas)
    unfolding deploy_machine
    deploy_machine-Sends kind access gas =
        result_first F (beside F)
          (F.create_params_codec.encode (record { kind = kind; write_access = access })) _
          λ params.
            quiet_first F (beside F) (on_local (create_request F signer gas params)) _
              (λ s. stay 0 s.1)
              λ m.
                quiet_last F (beside F)
                  (on_world ((as_provider F p).perform _ (decode_create F) m commit)) _
                  (performed-Sends _ (decode_create F) m commit)
                  λ tx. unmoved F (beside F) 0 _ λ s. refl

    pub new_accumulator-Sends :
        (access : WriteAccess) (gas : GasParams F)
        → Sends F (beside F) (Accumulator.new F (as_provider F p) signer access gas)
    unfolding Accumulator.new
    new_accumulator-Sends access gas =
        quiet_last F (beside F)
          (deploy_machine F (as_provider F p) signer F.accumulator_kind access gas) _
          (deploy_machine-Sends F.accumulator_kind access gas)
          λ made. unmoved F (beside F) 0 _ λ s. refl

    pub new_store-Sends :
        (access : WriteAccess) (gas : GasParams F)
        → Sends F (beside F) (ObjectStore.new F (as_provider F p) signer access gas)
    unfolding ObjectStore.new
    new_store-Sends access gas =
        quiet_last F (beside F)
          (deploy_machine F (as_provider F p) signer F.object_store_kind access gas) _
          (deploy_machine-Sends F.object_store_kind access gas)
          λ made. unmoved F (beside F) 0 _ λ s. refl

    module _ (store : ObjectStore F) (key : String) where
      pub delete-Sends :
          (o : DeleteOptions F) → Sends F (beside F) (delete F (as_provider F p) signer store key o)
      unfolding delete
      delete-Sends o =
          transact-Sends (F.delete_params_codec.encode (F.as_bytes key)) _ _ o.broadcast_mode

      add_uploaded-Sends :
          (o : AddOptions F) (cid : F.Cid) (size : ℕ) (c : F.Cid)
          → Sends F (beside F) (add_uploaded F (as_provider F p) signer store key o cid size c)
      unfolding add_uploaded
      add_uploaded-Sends o cid size c =
          unless-Sends F (beside F) (not (F.cid_eq c cid)) _ _ (λ s. refl)
            (transact-Sends
              (F.add_params_codec.encode
                (add_params F (as_provider F p) signer key cid o.overwrite o.metadata size))
              _ _ o.broadcast_mode)

      pub add-Sends :
          (reader : Reader) (o : AddOptions F)
          → Sends F (beside F) (add F (as_provider F p) signer store key reader o)
      unfolding add
      add-Sends reader o =
          result_first F (beside F)
            (generate_cid F (F.adder_new chunk_size) reader.reads F.default_cid) _
            λ made. result_first F (beside F) reader.rewind _ λ _.
              quiet_first F (beside F)
                (upload F (as_provider F p) signer store key reader.stream made.cid made.object_size
                  o.metadata o.overwrite)
                _
                (upload-Within F (as_provider F p) (as_provider-IsFrugal F p) signer store key
                  reader.stream made.cid made.object_size o.metadata o.overwrite)
                (add_uploaded-Sends o made.cid made.object_size)
