-- ===== src/Provider/Interface.antt =====
-- provider/src/provider.rs, tx.rs and object.rs: what a client of the chain takes as its provider.
use basin.Prelude.{ℕ, String, List, Option, none, ◌≡◌, ◌≢◌}
use basin.Prelude.Bytes.{Bytes}
use basin.Result.{Result, ok}
use basin.Run.{Run}
use basin.Foreign.{Foreign}
use basin.Foreign.Data.{DeliverTx}
use basin.Provider.Tx.{BroadcastMode, commit, TxReceipt}
use basin.Provider.Query.{QueryProvider}

module _ (F : Foreign) where
  pub record Provider : Type 1 where
    pub queries : QueryProvider F
    pub perform :
        (A : Type 0)
        → (DeliverTx F.types → Result A)
        → F.ChainMessage
        → BroadcastMode
        → Run F.World (TxReceipt F.types A)
    pub upload : List (Result Bytes) → ℕ → String → ℕ → Run F.World F.Cid
    pub download : F.Address → String → Option String → ℕ → Run F.World F.Response
    pub size : F.Address → String → ℕ → Run F.World ℕ

  -- The receipt of a committed transaction has the height and the data.
  pub record IsComplete (p : Provider) : Type 1 where
    pub height :
        (A : Type 0) (f : DeliverTx F.types → Result A) (m : F.ChainMessage) (w : F.World)
        (r : TxReceipt F.types A)
        → (p.perform A f m commit w).0 ≡ ok r
        → r.height ≢ none
    pub return_data :
        (A : Type 0) (f : DeliverTx F.types → Result A) (m : F.ChainMessage) (w : F.World)
        (r : TxReceipt F.types A)
        → (p.perform A f m commit w).0 ≡ ok r
        → r.return_data ≢ none
