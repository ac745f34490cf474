-- ===== src/Provider/JsonRpc/Objects.antt =====
-- The calls of the object API.
use basin.Prelude.{ℕ, String, ◌≡◌, Option, none, List, arith}
use basin.Prelude.Bytes.{Bytes}
use basin.Result.{Result, err, message}
use basin.Foreign.{Foreign}
use basin.Provider.JsonRpc.{JsonRpcProvider, upload, download, size}

module _ (F : Foreign) (p : JsonRpcProvider F) where
  -- A provider with no object API refuses each of the three calls and sends nothing.
  pub no_object_api :
      (address : F.Address) (key msg : String) (range : Option String) (body : List (Result Bytes))
      (bytes chain_id height : ℕ) (w : F.World)
      → p.objects ≡ none
      → (upload F p body bytes msg chain_id w ≡ (err (message "object provider is required"), w))
        × (download F p address key range height w
            ≡ (err (message "object provider is required"), w))
        × (size F p address key height w ≡ (err (message "object provider is required"), w))
  unfolding upload download size
  no_object_api address key msg range body bytes chain_id height w h =
      (ground arith, ground arith, ground arith)
