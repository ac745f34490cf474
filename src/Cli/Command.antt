-- ===== src/Cli/Command.antt =====
-- cli/src/main.rs: what the handlers of the commands share. A handler works on the terminal and the
-- world.
pub mod Laws
use basin.Prelude.{ℕ, String, Bool, if◌then◌else◌, Option, none, some, List, [], ◌∷◌, map}
use basin.Prelude.Bytes.{Bytes}
use basin.Result.{Result, ok, err, halt}
use basin.Run.{Run, lift, on_world, on_local, ◌>>=◌}
use basin.Foreign.{Foreign}
use basin.Foreign.Data.{AdmMetadata, StoredObject, WriteAccess, only_owner, public_write}
use basin.Provider.Tx.{TxReceipt}
use basin.Provider.JsonRpc.{JsonRpcProvider, as_query_provider}
use basin.Provider.Http.{new_http}
use basin.Signer.Subnet.{SubnetId}
use basin.Signer.Wallet.{Wallet, ethereum, new_secp256k1, set_sequence}
use basin.Sdk.Machine.{DeployTxReceipt}
use basin.Sdk.Accumulator.{PushReturn}
use basin.Cli.{Cli, TxArgs, get_rpc_url}

-- A step with a state of its own, which ends with it.
abbrev pub with_state : {S W A : Type 0} → S → Run (S × W) A → Run W A
with_state s m w = ((m (s, w)).0, (m (s, w)).1.1)

module _ (F : Foreign) where
  -- The JSON documents that the commands print, with what `json!` puts in their fields.
  pub data Document : Type 0 where
    created : String → DeployTxReceipt F → Document
    listed : List (String × F.Kind) → Document
    receipt : TxReceipt F.types F.Cid → Document
    pushed : TxReceipt F.types (PushReturn F) → Document
    leaf_count : ℕ → Document
    peak_list : List F.Cid → Document
    root_text : String → Document
    object_list : List (String × (String × StoredObject)) → List String → Document
    machine_kind : F.Kind → String → Document
    account_key : String → F.EthAddress → String → Document
    account_info : F.EthAddress → String → ℕ → String → String → Document
    eth_receipt : F.EthReceipt → Document

  -- The arguments of the two commands that create a machine.
  pub record CreateArgs : Type 0 where
    pub private_key : F.SecretKey
    pub public_write : Bool
    pub tx_args : TxArgs F

  -- What a listing shows of a machine.
  unfoldable pub listing : List (AdmMetadata F.types) → Document
  listing ms = listed (map (λ m. (F.address_text m.address, m.kind)) ms)

  -- `print_json`, with `serde_json::to_string_pretty` as a parameter.
  unfoldable pub print_json : (Document → Result String) → Document → Run F.Console (Unit {0})
  print_json pretty d = do json ← lift (pretty d); λ c. (ok tt, F.println json c)

  -- A document that is computed on the world, and printed.
  unfoldable pub printing :
      (Document → Result String) → Run F.World Document → Run (F.Console × F.World) (Unit {0})
  unfolding print_json
  printing pretty m = do d ← on_world m; on_local (print_json pretty d)

  -- `JsonRpcProvider::new_http(get_rpc_url(&cli)?, None, objects)?`
  unfoldable pub rpc_provider : Cli F → Option F.Url → Result (JsonRpcProvider F)
  rpc_provider cli objects =
      basin.Result.◌>>=◌ (get_rpc_url F cli) λ url. new_http F url none objects

  -- A wallet with its sequence set, and what is done with it.
  unfoldable pub with_wallet :
      {A : Type 0}
      → JsonRpcProvider F
      → F.SecretKey
      → SubnetId F
      → Option ℕ
      → Run (Wallet F × F.World) A
      → Run F.World A
  with_wallet p sk id sequence action = do
    wallet ← lift (new_secp256k1 F sk ethereum id)
    with_state wallet (set_sequence F sequence (as_query_provider F p) >>= λ _. action)

unfoldable pub write_access : Bool → WriteAccess
write_access public = if public then public_write else only_owner
