-- ===== src/Provider/Tx.antt =====
-- provider/src/tx.rs: how a transaction is broadcast, and its receipt.
use basin.Prelude.{String, str_eq, if◌then◌else◌, Option, none, some}
use basin.Prelude.Int.{ℤ, pos}
use basin.Result.{Result, ok, err, message}
use basin.Foreign.Data.{Types}

pub data BroadcastMode : Type 0 where
  async sync commit : BroadcastMode

-- `#[default]`
abbrev pub default_mode : BroadcastMode
default_mode = commit

-- `BroadcastMode::from_str`
unfoldable pub mode_of_text : String → Result BroadcastMode
mode_of_text s =
    if str_eq s "async"
    then ok async
    else if str_eq s "sync"
    then ok sync
    else if str_eq s "commit"
    then ok commit
    else err (message "invalid broadcast mode")

pub data TxStatus : Type 0 where
  pending committed : TxStatus

module _ (T : Types) where
  pub record TxReceipt (A : Type 0) : Type 0 where
    pub status : TxStatus
    pub hash : T.Hash
    pub height : Option T.Height
    pub gas_used : ℤ
    pub return_data : Option A

  -- `TxReceipt::pending`
  unfoldable pub pending_receipt : {A : Type 0} → T.Hash → TxReceipt A
  pending_receipt h = record {
    status = pending;
    hash = h;
    height = none;
    gas_used = pos 0;
    return_data = none;
  }

  -- `TxReceipt::committed`
  unfoldable pub committed_receipt : {A : Type 0} → T.Hash → T.Height → ℤ → Option A → TxReceipt A
  committed_receipt h height gas d = record {
    status = committed;
    hash = h;
    height = some height;
    gas_used = gas;
    return_data = d;
  }
