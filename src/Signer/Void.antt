-- ===== src/Signer/Void.antt =====
-- signer/src/void.rs: the signer that cannot sign.
use basin.Prelude.{none}
use basin.Result.{err, message}
use basin.Run.{lift}
use basin.Foreign.{Foreign}
use basin.Signer.Interface.{Signer}

module _ (F : Foreign) where
  pub record Void : Type 0 where
    pub address : F.Address

  unfoldable pub void_signer : Signer F Void
  void_signer = record {
    address = λ v. v.address;
    secret_key = λ _. none;
    subnet_id = λ _. none;
    transaction = λ _. lift (err (message "void signer cannot create transactions"));
    sign_message = λ _ _ _. err (message "void signer cannot sign messages");
    verify_message = λ _ _ _ _. err (message "void signer cannot verify messages");
  }
