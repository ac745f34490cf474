-- ===== src/Provider/Message.antt =====
-- provider/src/message.rs: gas parameters, unsigned messages and their encoding.
use basin.Prelude.{ℕ}
use basin.Prelude.Bytes.{Bytes}
use basin.Result.{Result}
use basin.Foreign.{Foreign}
use basin.Foreign.Data.{Message}

module _ (F : Foreign) where
  pub record GasParams : Type 0 where
    pub gas_limit : ℕ
    pub gas_fee_cap : F.TokenAmount
    pub gas_premium : F.TokenAmount

  -- `GasParams::default`
  unfoldable pub default_gas : GasParams
  default_gas = record {
    gas_limit = F.block_gas_limit;
    gas_fee_cap = F.zero_tokens;
    gas_premium = F.zero_tokens;
  }

  unfoldable pub local_message : F.Address → ℕ → Bytes → Message F.types
  local_message to method_num params = record {
    version = 0;
    from = F.system_actor;
    to = to;
    sequence = 0;
    value = F.zero_tokens;
    method_num = method_num;
    params = params;
    gas_limit = 0;
    gas_fee_cap = F.zero_tokens;
    gas_premium = F.zero_tokens;
  }

  unfoldable pub object_upload_message : F.Address → F.Address → ℕ → Bytes → Message F.types
  object_upload_message from to method_num params = record {
    version = 0;
    from = from;
    to = to;
    sequence = 0;
    value = F.zero_tokens;
    method_num = method_num;
    params = params;
    gas_limit = 0;
    gas_fee_cap = F.zero_tokens;
    gas_premium = F.zero_tokens;
  }

  unfoldable pub serialize : F.ChainMessage → Result Bytes
  serialize m = F.chain_codec.encode m

  unfoldable pub serialize_signed : F.SignedMessage → Result Bytes
  serialize_signed m = F.signed_codec.encode m
