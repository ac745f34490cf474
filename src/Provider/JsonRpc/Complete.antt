-- ===== src/Provider/JsonRpc/Complete.antt =====
-- The JSON RPC provider as a `Provider`.
use basin.Foreign.{Foreign}
use basin.Provider.Tx.{commit}
use basin.Provider.Interface.{Provider, IsComplete}
use basin.Provider.JsonRpc.{JsonRpcProvider, as_query_provider, perform, upload, download, size}
use basin.Provider.JsonRpc.Perform.{perform_receipt}

module _ (F : Foreign) (p : JsonRpcProvider F) where
  unfoldable pub as_provider : Provider F
  as_provider = record {
    queries = as_query_provider F p;
    perform = λ A. perform F p;
    upload = upload F p;
    download = download F p;
    size = size F p;
  }

  pub as_provider-IsComplete : IsComplete F as_provider
  unfolding as_provider
  as_provider-IsComplete = record {
    height = λ A f m w r h. (perform_receipt F A p f m commit w r h).1;
    return_data = λ A f m w r h. (perform_receipt F A p f m commit w r h).2;
  }
