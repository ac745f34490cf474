-- ===== src/Provider/JsonRpc/Perform.antt =====
-- What `perform` sends and what its receipts say.
use basin.Prelude.{◌≡◌, ◌≢◌, not, ◌&&◌, none, some, arith}
use basin.Prelude.Int.{pos}
use basin.Prelude.Bytes.{Bytes}
use basin.Result.{Result, ok, err, halt, is_ok, ok_or, message}
use basin.Foreign.{Foreign}
use basin.Foreign.Data.{DeliverTx, CommitAnswer}
use basin.Provider.Tx.{BroadcastMode, async, sync, commit, pending, committed, TxReceipt}
use basin.Provider.Message.{serialize}
use basin.Provider.JsonRpc.{JsonRpcProvider, perform}

module _ (F : Foreign) (p : JsonRpcProvider F) where
  -- The world after one broadcast in the given mode.
  abbrev pub broadcast : BroadcastMode → Bytes → F.World → F.World
  broadcast async b w = (F.broadcast_tx_async p.inner b w).1
  broadcast sync b w = (F.broadcast_tx_sync p.inner b w).1
  broadcast commit b w = (F.broadcast_tx_commit p.inner b w).1

  abbrev pub broadcast_if_encoded : BroadcastMode → Result Bytes → F.World → F.World
  broadcast_if_encoded mode (ok b) w = broadcast mode b w
  broadcast_if_encoded mode (err e) w = w
  broadcast_if_encoded mode (halt h) w = w

module _ (F : Foreign) (A : Type 0) where
  -- What a receipt has to say in each mode.
  abbrev pub IsReceiptFor : BroadcastMode → TxReceipt F.types A → Type 0
  IsReceiptFor commit r = (r.status ≡ committed) × (r.height ≢ none) × (r.return_data ≢ none)
  IsReceiptFor _ r =
      (r.status ≡ pending) × (r.height ≡ none) × (r.gas_used ≡ pos 0) × (r.return_data ≡ none)

  module _ (p : JsonRpcProvider F) (f : DeliverTx F.types → Result A) (m : F.ChainMessage) where
    -- In every mode, and whether `perform` succeeds or fails, the encoded transaction is broadcast
    -- once in that mode and nothing else is sent. If it cannot be encoded nothing is sent.
    pub perform_world :
        (mode : BroadcastMode) (w : F.World)
        → (perform F p f m mode w).1 ≡ broadcast_if_encoded F p mode (serialize F m) w
    unfolding perform
    perform_world async w = ground arith
    perform_world sync w = ground arith
    perform_world commit w = ground arith

    -- A receipt fits its mode. After `Async` and `Sync` it is pending, with neither height, gas nor
    -- data. After `Commit` it is committed, with the height and the data.
    pub perform_receipt :
        (mode : BroadcastMode) (w : F.World) (r : TxReceipt F.types A)
        → (perform F p f m mode w).0 ≡ ok r
        → IsReceiptFor mode r
    unfolding perform
    perform_receipt async w r h = ground arith
    perform_receipt sync w r h = ground arith
    perform_receipt commit w r h = ground arith

    module _ (w : F.World) (b : Bytes) (a : CommitAnswer F.types) (encoded : serialize F m ≡ ok b)
        (answered : (F.broadcast_tx_commit p.inner b w).0 ≡ ok a) where
      -- If the node answers, a committed transaction succeeds exactly if both stages accepted it
      -- and the decoder reads the result.
      pub perform_commit-is_ok : is_ok (perform F p f m commit w).0 ≡ (
          not (F.code_is_err a.check_tx.code)
          && not (F.code_is_err a.deliver_tx.code)
          && is_ok (f a.deliver_tx))
      unfolding perform
      perform_commit-is_ok = ground arith

      -- The receipt of a committed transaction holds the hash and the height of the node's answer,
      -- and what the decoder made of it.
      pub perform_commit_receipt :
          (r : TxReceipt F.types A)
          → (perform F p f m commit w).0 ≡ ok r
          → (r.hash ≡ a.hash)
            × (r.height ≡ some a.height)
            × (f a.deliver_tx ≡ ok_or (message "no data") r.return_data)
      unfolding perform
      perform_commit_receipt r h = ground arith
