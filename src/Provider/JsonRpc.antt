-- ===== src/Provider/JsonRpc.antt =====
-- provider/src/json_rpc.rs: the JSON RPC provider.
pub mod Perform
pub mod Objects
pub mod Complete
use basin.Prelude.{
  ℕ, String, ◌<>◌, str_eq, decimal, parse_u64, if◌then◌else◌, Option, none, some, List,
}
use basin.Prelude.Bytes.{Bytes}
use basin.Result.{Result, ok, err, message, with_context, ok_or}
use basin.Run.{Run, done, lift, ◌>>=◌}
use basin.Foreign.{Foreign, Codec}
use basin.Foreign.Data.{AbciQuery, DeliverTx, FvmQuery, QueryHeight}
use basin.Provider.Tx.{
  BroadcastMode, async, sync, commit, TxReceipt, pending_receipt, committed_receipt,
}
use basin.Provider.Message.{serialize}
use basin.Provider.Response.{cid_from_str}
use basin.Provider.Query.{QueryProvider}

-- What `message` makes of a transaction that the node refused.
unfoldable pub format_err : String → String → String
format_err info log = if str_eq log "" then info else ("info: " <> info <> "; log: " <> log)

module _ (F : Foreign) where
  pub record ObjectClient : Type 0 where
    pub url : F.Url

  pub record JsonRpcProvider : Type 0 where
    pub inner : F.HttpClient
    pub objects : Option ObjectClient

  -- `QueryProvider::query`
  unfoldable pub query :
      JsonRpcProvider → FvmQuery F.types → QueryHeight → Run F.World (AbciQuery F.types)
  query p q h = do
    bytes ← lift (with_context "failed to encode query" (F.query_codec.encode q))
    height ← lift (with_context "failed to conver to Height" (F.height_of (F.height_number h)))
    F.abci_query p.inner bytes height

  unfoldable pub as_query_provider : JsonRpcProvider → QueryProvider F
  as_query_provider p = record { query = query p }

  refuse : {A : Type 0} → String → Run F.World A
  refuse s = lift (err (message s))

  module _ {A : Type 0} (p : JsonRpcProvider) (f : DeliverTx F.types → Result A) where
    -- `TxProvider::perform`
    unfoldable pub perform : F.ChainMessage → BroadcastMode → Run F.World (TxReceipt F.types A)
    unfolding serialize refuse pending_receipt committed_receipt format_err
    perform m async = do
      bytes ← lift (serialize F m)
      response ← F.broadcast_tx_async p.inner bytes
      done (pending_receipt F.types response.hash)
    perform m sync = do
      bytes ← lift (serialize F m)
      response ← F.broadcast_tx_sync p.inner bytes
      if F.code_is_err response.code
          then refuse response.log
          else done (pending_receipt F.types response.hash)
    perform m commit = do
      bytes ← lift (serialize F m)
      response ← F.broadcast_tx_commit p.inner bytes
      if F.code_is_err response.check_tx.code
          then refuse (format_err response.check_tx.info response.check_tx.log)
          else if F.code_is_err response.deliver_tx.code
          then refuse (format_err response.deliver_tx.info response.deliver_tx.log)
          else do
            return_data ← lift (
                with_context "error decoding data from deliver_tx in commit"
                  (f response.deliver_tx))
            done (
                committed_receipt F.types response.hash response.height response.deliver_tx.gas_used
                  (some return_data))

  object_client : JsonRpcProvider → Result ObjectClient
  object_client p = ok_or (message "object provider is required") p.objects

  -- The tail of `upload`, `download` and `size` when the API answers with a failure.
  refuse_response : {A : Type 0} → String → F.Response → Run F.World A
  refuse_response what response = do
    body ← F.body_text response
    lift (err (message (what <> body)))

  pub object_url : ObjectClient → F.Address → String → ℕ → String
  object_url c address key height =
      F.url_text c.url
      <> "v1/objects/"
      <> F.address_text address
      <> "/"
      <> key
      <> "?height="
      <> decimal height

  -- `ObjectProvider::upload`
  unfoldable pub upload : JsonRpcProvider → List (Result Bytes) → ℕ → String → ℕ → Run F.World F.Cid
  unfolding object_client refuse_response
  upload p body total_bytes msg chain_id = do
    client ← lift (object_client p)
    response ←
        F.post_object (F.url_text client.url <> "v1/objects") (decimal chain_id) msg body
          total_bytes
    if F.is_success response
        then (do cid_str ← F.body_text response; lift (cid_from_str F cid_str))
        else refuse_response "failed to upload object: " response

  -- `ObjectProvider::download`
  unfoldable pub download :
      JsonRpcProvider → F.Address → String → Option String → ℕ → Run F.World F.Response
  unfolding object_client refuse_response object_url
  download p address key range height = do
    client ← lift (object_client p)
    response ←
        F.get_object (object_url client address key height)
          (elim range [ none ↦ none | some r ↦ some ("bytes=" <> r) ])
    if F.is_success response
        then done response
        else refuse_response "failed to download object: " response

  -- `ObjectProvider::size`. The text of a number's parse error is not kept.
  unfoldable pub size : JsonRpcProvider → F.Address → String → ℕ → Run F.World ℕ
  unfolding object_client refuse_response object_url
  size p address key height = do
    client ← lift (object_client p)
    response ← F.head_object (object_url client address key height)
    if F.is_success response
        then (do
          value ← lift (
              ok_or (message "missing content-length header in response for object size")
                (F.content_length response))
          header ← lift (F.header_text value)
          lift (ok_or (message "not a number") (parse_u64 header)))
        else refuse_response "failed to get object size: " response
