-- ===== src/Signer/Wallet.antt =====
-- signer/src/wallet.rs: the signer with a secret key and a sequence. The sequence stands behind a
-- mutex that `transaction` holds to its end, so concurrent calls on clones of a wallet run one after
-- the other on one sequence: the state here.
pub mod Nonces
pub mod Sequence
pub mod Clones
pub mod Progress
pub mod Lifetime
pub mod Uses
use basin.Prelude.{ℕ, ◌+◌, ◌%◌, u64_mod, String, ◌<>◌, Option, none, some}
use basin.Result
use basin.Result.{Result, ok, err, message}
use basin.Run.{Run, done, lift, on_world, ◌>>=◌}
use basin.Foreign.{Foreign}
use basin.Foreign.Data.{Message, ActorState, pending}
use basin.Provider.Query.{QueryProvider, run_actor_state}
use basin.Signer.Subnet.{SubnetId, chain_id}
use basin.Signer.Interface.{Request, Signer}

pub data AccountKind : Type 0 where
  regular ethereum : AccountKind

module _ (F : Foreign) where
  pub record Wallet : Type 0 where
    pub addr : F.Address
    pub sk : F.SecretKey
    pub subnet_id : SubnetId F
    pub sequence : ℕ

  -- The message that `transaction` builds, with a given sequence.
  unfoldable pub message_of : Wallet → Request F → Message F.types
  message_of w r = record {
    version = 0;
    from = w.addr;
    to = r.to;
    sequence = w.sequence;
    value = r.value;
    method_num = r.method_num;
    params = r.params;
    gas_limit = r.gas_params.gas_limit;
    gas_fee_cap = r.gas_params.gas_fee_cap;
    gas_premium = r.gas_params.gas_premium;
  }

  sign : Wallet → Message F.types → Option F.MessageObject → Result F.SignedMessage
  sign w m object = F.sign_secp256k1 m object w.sk (chain_id F w.subnet_id)

  -- `*sequence_guard += 1` on a u64 wraps in a release build, and comes before the signing.
  unfoldable pub transaction : Request F → Run Wallet F.ChainMessage
  unfolding message_of sign
  transaction r w = (
    Result.map_ok F.signed (sign w (message_of w r) r.object),
    record w { sequence = (w.sequence + 1) % u64_mod },
  )

  unfoldable pub wallet_signer : Signer F Wallet
  unfolding transaction
  wallet_signer = record {
    address = λ w. w.addr;
    secret_key = λ w. some w.sk;
    subnet_id = λ w. some w.subnet_id;
    transaction = transaction;
    sign_message = λ m object w. F.sign_secp256k1 m object w.sk (chain_id F w.subnet_id);
    verify_message = λ m object s w. F.verify_signature m object s (chain_id F w.subnet_id);
  }

  derive_address : F.SecretKey → AccountKind → Result F.Address
  derive_address sk regular = F.regular_address sk
  derive_address sk ethereum = F.ethereum_address sk

  unfoldable pub new_secp256k1 : F.SecretKey → AccountKind → SubnetId F → Result Wallet
  unfolding derive_address
  new_secp256k1 sk kind id =
      Result.map_ok (λ addr. record { addr = addr; sk = sk; subnet_id = id; sequence = 0 })
        (derive_address sk kind)

  set_to : ℕ → Run (Wallet × F.World) (Unit {0})
  set_to n s = (ok tt, (record s.0 { sequence = n }, s.1))

  unfoldable pub init_sequence : QueryProvider F → Run (Wallet × F.World) (Unit {0})
  unfolding set_to
  init_sequence p s =
      (do
        res ← on_world (run_actor_state F p s.0.addr pending)
        elim res.value [
          | some found ↦ set_to found.1.sequence
          | none ↦ lift (
              err (
                message (
                  "failed to init sequence; actor "
                  <> F.address_text s.0.addr
                  <> " cannot be found")))
        ])
        s

  unfoldable pub set_sequence : Option ℕ → QueryProvider F → Run (Wallet × F.World) (Unit {0})
  unfolding set_to
  set_sequence (some n) p = set_to n
  set_sequence none p = init_sequence p
