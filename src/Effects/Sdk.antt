-- ===== src/Effects/Sdk.antt =====
-- sdk/src/machine.rs, machine/accumulator.rs, machine/objectstore.rs, signer/src/wallet.rs: how many
-- transactions the operations submit, with any provider that submits none but in `perform`.
use basin.Prelude.{ℕ, String, List, refl, Bool, not, ltb, length, some}
use basin.Prelude.Bytes.{Bytes}
use basin.Result.{Result}
use basin.Run.{lift, on_world, on_local, ◌>>=◌}
use basin.Foreign.{Foreign}
use basin.Foreign.Data.{DeliverTx, WriteAccess}
use basin.Provider.Tx.{BroadcastMode, commit}
use basin.Provider.Message.{GasParams}
use basin.Provider.Interface.{Provider}
use basin.Signer.Interface.{Signer, Request}
use basin.Provider.Message.{object_upload_message}
use basin.Sdk.Machine.{deploy_machine, decode_create, create_request}
use basin.Sdk.Accumulator
use basin.Sdk.ObjectStore
use basin.Sdk.ObjectStore.{
  ObjectStore, DeleteOptions, AddOptions, Reader, chunk_size, delete, upload, add, add_uploaded,
  add_params, signer_chain_id,
}
use basin.Sdk.ObjectStore.Content.{generate_cid}
use basin.Sdk.Accumulator.{Accumulator, PushOptions, push, leaf, count, peaks, root}
use basin.Effects.{
  Within, stay, beside, lift>>=, none>>=, >>=none, if-Within, unmoved, on_world-Reaches,
}
use basin.Effects.Provider.{IsFrugal}

module _ (F : Foreign) {S : Type 0} (provider : Provider F) (frugal : IsFrugal F provider)
    (signer : Signer F S) where
  -- A transaction: parameters, the signer's message, and `perform`.
  transact-Within :
      {A : Type 0} (params : Result Bytes) (request : Bytes → Request F)
      (f : DeliverTx F.types → Result A) (mode : BroadcastMode)
      → Within F (beside F {S = S}) 1 (
          lift params >>= λ b.
          on_local (signer.transaction (request b)) >>= λ m. on_world (provider.perform A f m mode))
  transact-Within params request f mode = lift>>= F (beside F) 1 params _ λ b.
      none>>= F (beside F) 1 (on_local (signer.transaction (request b))) _ (λ s. stay 0 s.1)
        λ m. on_world-Reaches F 1 _ (frugal.perform _ f m mode)

  pub push-Within :
      (acc : Accumulator F) (payload : Bytes) (o : PushOptions F)
      → Within F (beside F) 1 (push F provider signer acc payload o)
  unfolding push
  push-Within acc payload o =
      if-Within F (beside F) 1 (ltb 512000 (length payload)) _ _ (λ s. stay 1 s.1)
        (transact-Within (F.bytes_ser_codec.encode payload) _ _ o.broadcast_mode)

  pub deploy_machine-Within :
      (kind : F.Kind) (access : WriteAccess) (gas : GasParams F)
      → Within F (beside F) 1 (deploy_machine F provider signer kind access gas)
  unfolding deploy_machine
  deploy_machine-Within kind access gas =
      lift>>= F (beside F) 1
        (F.create_params_codec.encode (record { kind = kind; write_access = access })) _
        λ params.
          none>>= F (beside F) 1 (on_local (create_request F signer gas params)) _ (λ s. stay 0 s.1)
            λ m.
              >>=none F (beside F) 1 (on_world (provider.perform _ (decode_create F) m commit)) _
                (on_world-Reaches F 1 _ (frugal.perform _ (decode_create F) m commit))
                λ tx. unmoved F (beside F) 0 _ λ s. refl

  pub new_accumulator-Within :
      (access : WriteAccess) (gas : GasParams F)
      → Within F (beside F) 1 (Accumulator.new F provider signer access gas)
  unfolding Accumulator.new
  new_accumulator-Within access gas =
      >>=none F (beside F) 1 (deploy_machine F provider signer F.accumulator_kind access gas) _
        (deploy_machine-Within F.accumulator_kind access gas)
        λ made. unmoved F (beside F) 0 _ λ s. refl

  pub new_store-Within :
      (access : WriteAccess) (gas : GasParams F)
      → Within F (beside F) 1 (ObjectStore.new F provider signer access gas)
  unfolding ObjectStore.new
  new_store-Within access gas =
      >>=none F (beside F) 1 (deploy_machine F provider signer F.object_store_kind access gas) _
        (deploy_machine-Within F.object_store_kind access gas)
        λ made. unmoved F (beside F) 0 _ λ s. refl

  module _ (store : ObjectStore F) (key : String) where
    pub delete-Within :
        (o : DeleteOptions F) → Within F (beside F) 1 (delete F provider signer store key o)
    unfolding delete
    delete-Within o =
        transact-Within (F.delete_params_codec.encode (F.as_bytes key)) _ _ o.broadcast_mode

    pub upload-Within :
        (stream : List (Result Bytes)) (cid : F.Cid) (size : ℕ) (metadata : List (String × String))
        (overwrite : Bool)
        → Within F
            (beside F)
            0
            (upload F provider signer store key stream cid size metadata overwrite)
    unfolding upload
    upload-Within stream cid size metadata overwrite s =
        lift>>= F (beside F) 0
          (F.add_params_codec.encode (add_params F provider signer key cid overwrite metadata size))
          _
          (λ params.
            let msg =
              object_upload_message F (signer.address s.0) store.address F.add_object_method
                params in
            let object = F.message_object (F.as_bytes key) cid store.address in
            lift>>= F (beside F) 0 (signer.sign_message msg (some object) s.0) _ λ signed.
              lift>>= F (beside F) 0 (F.signed_codec.encode signed) _ λ bytes.
                lift>>= F (beside F) 0 (signer_chain_id F provider signer s.0) _ λ id.
                  on_world-Reaches F 0 _ (frugal.upload stream size (F.url_safe_encode bytes) id))
          s

    add_uploaded-Within :
        (o : AddOptions F) (cid : F.Cid) (size : ℕ) (c : F.Cid)
        → Within F (beside F) 1 (add_uploaded F provider signer store key o cid size c)
    unfolding add_uploaded
    add_uploaded-Within o cid size c =
        if-Within F (beside F) 1 (not (F.cid_eq c cid)) _ _ (λ s. stay 1 s.1)
          (transact-Within
            (F.add_params_codec.encode
              (add_params F provider signer key cid o.overwrite o.metadata size))
            _ _ o.broadcast_mode)

    pub add-Within :
        (reader : Reader) (o : AddOptions F)
        → Within F (beside F) 1 (add F provider signer store key reader o)
    unfolding add
    add-Within reader o =
        lift>>= F (beside F) 1 (generate_cid F (F.adder_new chunk_size) reader.reads F.default_cid)
          _
          λ made. lift>>= F (beside F) 1 reader.rewind _ λ _.
            none>>= F (beside F) 1
              (upload F provider signer store key reader.stream made.cid made.object_size o.metadata
                o.overwrite)
              _ (upload-Within reader.stream made.cid made.object_size o.metadata o.overwrite)
              (add_uploaded-Within o made.cid made.object_size)
