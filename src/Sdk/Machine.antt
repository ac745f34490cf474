-- ===== src/Sdk/Machine.antt =====
-- sdk/src/machine.rs: deploying, listing and describing machines.
pub mod Laws
use basin.Prelude.{ℕ, String, str_eq, if◌then◌else◌, Option, none, some, List, [], ◌∷◌}
use basin.Prelude.Int.{ℤ}
use basin.Prelude.Bytes.{Bytes}
use basin.Result
use basin.Result.{Result, ok, expect}
use basin.Run.{Run, done, lift, on_local, on_world, ◌>>=◌}
use basin.Foreign.{Foreign, Codec}
use basin.Foreign.Data.{
  AdmMetadata, MachineMetadata, CreateReturn, QueryHeight, WriteAccess, DeliverTx,
}
use basin.Provider.Tx.{commit, TxReceipt}
use basin.Provider.Message.{GasParams, local_message}
use basin.Provider.Response.{decode_as}
use basin.Provider.Query.{QueryProvider, run_call}
use basin.Provider.Interface.{Provider}
use basin.Signer.Interface.{Signer}

module _ (F : Foreign) where
  pub record DeployTxReceipt : Type 0 where
    pub hash : F.Hash
    pub height : F.Height
    pub gas_used : ℤ

  unfoldable pub decode_create : DeliverTx F.types → Result (CreateReturn F.types)
  decode_create = decode_as F F.create_return_codec "CreateExternalReturn"

  pub decode_list : DeliverTx F.types → Result (List (AdmMetadata F.types))
  decode_list = decode_as F F.adm_list_codec "Vec<adm::Metadata>"

  decode_info : DeliverTx F.types → Result (MachineMetadata F.types)
  decode_info = decode_as F F.machine_codec "Metadata"

  -- What `deploy_machine` makes of a receipt: three `expect`s.
  unfoldable pub deployed :
      TxReceipt F.types (CreateReturn F.types) → Result (F.Address × DeployTxReceipt)
  deployed tx = Result.◌>>=◌ (expect "data exists" tx.return_data) λ created.
      Result.◌>>=◌ (expect "address exists" created.robust_address) λ address.
        Result.◌>>=◌ (expect "height exists" tx.height)
          λ height. ok (address, record { hash = tx.hash; height = height; gas_used = tx.gas_used })

  unfoldable pub create_request :
      {S : Type 0} → Signer F S → GasParams F → Bytes → Run S F.ChainMessage
  create_request signer gas params = signer.transaction (record {
    to = F.adm_actor;
    value = F.zero_tokens;
    method_num = F.create_external_method;
    params = params;
    object = none;
    gas_params = gas;
  })

  module _ {S : Type 0} (provider : Provider F) (signer : Signer F S) where
    unfoldable pub deploy_machine :
        F.Kind → WriteAccess → GasParams F → Run (S × F.World) (F.Address × DeployTxReceipt)
    unfolding deployed decode_create create_request
    deploy_machine kind access gas = do
      params ← lift (F.create_params_codec.encode (record { kind = kind; write_access = access }))
      message ← on_local (create_request signer gas params)
      tx ← on_world (provider.perform _ decode_create message commit)
      lift (deployed tx)

  -- `.filter(|m| m.kind.to_string() == Self::KIND.to_string())`
  of_kind : F.Kind → List (AdmMetadata F.types) → List (AdmMetadata F.types)
  of_kind k [] = []
  of_kind k (m ∷ ms) =
      let rest = of_kind k ms in
      if str_eq (F.kind_text m.kind) (F.kind_text k) then m ∷ rest else rest

  module _ {S : Type 0} (queries : QueryProvider F) (signer : Signer F S) where
    -- `Machine::list`, for the kind of the implementing machine.
    unfoldable pub list_machines :
        F.Kind → QueryHeight → Run (S × F.World) (List (AdmMetadata F.types))
    unfolding of_kind decode_list
    list_machines kind height s =
        (do
          params ← lift (F.list_params_codec.encode (record { owner = signer.address s.0 }))
          response ← on_world (
              run_call F queries (local_message F F.adm_actor F.list_metadata_method params) height
                decode_list)
          done (of_kind kind response.value))
          s

  unfoldable pub machine_info :
      QueryProvider F → F.Address → QueryHeight → Run F.World (MachineMetadata F.types)
  unfolding decode_info
  machine_info queries address height = do
    response ←
        run_call F queries (local_message F address F.get_metadata_method []) height decode_info
    done response.value
