-- ===== src/Signer/Interface.antt =====
-- signer/src/signer.rs: what every signer offers. A signer keeps a state of its own, which only
-- `transaction` changes.
use basin.Prelude.{ℕ, Option}
use basin.Prelude.Bytes.{Bytes}
use basin.Result.{Result}
use basin.Run.{Run}
use basin.Foreign.{Foreign}
use basin.Foreign.Data.{Message}
use basin.Provider.Message.{GasParams}
use basin.Provider.Util.{get_delegated_address}
use basin.Signer.Subnet.{SubnetId}

module _ (F : Foreign) where
  -- The arguments of `transaction`.
  pub record Request : Type 0 where
    pub to : F.Address
    pub value : F.TokenAmount
    pub method_num : ℕ
    pub params : Bytes
    pub object : Option F.MessageObject
    pub gas_params : GasParams F

  pub record Signer (S : Type 0) : Type 0 where
    pub address : S → F.Address
    pub secret_key : S → Option F.SecretKey
    pub subnet_id : S → Option (SubnetId F)
    pub transaction : Request → Run S F.ChainMessage
    pub sign_message : Message F.types → Option F.MessageObject → S → Result F.SignedMessage
    pub verify_message :
        Message F.types → Option F.MessageObject → F.Signature → S → Result (Unit {0})

  -- The default method of the trait.
  unfoldable pub evm_address : {S : Type 0} → Signer S → S → Result F.EthAddress
  evm_address signer s = get_delegated_address F (signer.address s)
