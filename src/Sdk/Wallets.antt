-- ===== src/Sdk/Wallets.antt =====
-- sdk/src/machine.rs, machine/accumulator.rs and machine/objectstore.rs: what the operations do with a
-- wallet that signs for them.
use basin.Prelude.{
  ℕ, ◌≡◌, ◌<◌, refl, u64_mod, String, Bool, Option, List, [], ◌∷◌, none, some, ltb, length, not,
}
use basin.Prelude.Bytes.{Bytes}
use basin.Result.{Result, ok}
use basin.Run.{on_world}
use basin.Foreign.{Foreign}
use basin.Provider.Interface.{Provider}
use basin.Provider.Message.{GasParams, object_upload_message}
use basin.Provider.Tx.{commit}
use basin.Foreign.Data.{WriteAccess}
use basin.Signer.Subnet.{SubnetId}
use basin.Sdk.ObjectStore.Content.{generate_cid}
use basin.Signer.Wallet.{Wallet, AccountKind, wallet_signer, new_secp256k1, set_sequence}
use basin.Signer.Wallet.Lifetime.{Use, Uses, unused, then_use, set_found, set_given, Uses-IsMade}
use basin.Provider.Extract.Laws.{HasWords}
use basin.Signer.Wallet.Uses.{
  Uses-trans, Keeps, lift-Keeps, on_world-Keeps, transaction-Keeps, lift-Uses, >>=-Keeps, if-Keeps,
}
use basin.Sdk.Machine.{deploy_machine, create_request, decode_create, deployed}
use basin.Sdk.Accumulator.{Accumulator, PushOptions, max_acc_payload_size, push}
use basin.Sdk.ObjectStore.{
  ObjectStore, AddOptions, DeleteOptions, Reader, chunk_size, add, add_params, signer_chain_id,
  add_uploaded, upload, delete,
}

module _ (F : Foreign) (p : Provider F) where
  deploy_machine-Keeps :
      (kind : F.Kind) (access : WriteAccess) (gas : GasParams F)
      → Keeps F (deploy_machine F p (wallet_signer F) kind access gas)
  unfolding deploy_machine create_request
  deploy_machine-Keeps kind access gas = >>=-Keeps F _ _ (lift-Keeps F _) λ params.
      >>=-Keeps F _ _ (transaction-Keeps F _) λ message.
        >>=-Keeps F _ _ (on_world-Keeps F (p.perform _ (decode_create F) message commit))
          λ tx. lift-Keeps F (deployed F tx)

  push-Keeps :
      (acc : Accumulator F) (payload : Bytes) (o : PushOptions F)
      → Keeps F (push F p (wallet_signer F) acc payload o)
  unfolding push
  push-Keeps acc payload o =
      if-Keeps F (ltb max_acc_payload_size (length payload)) _ _ (lift-Keeps F _) (
        >>=-Keeps F _ _ (lift-Keeps F _)
          λ params. >>=-Keeps F _ _ (transaction-Keeps F _) λ message. on_world-Keeps F _)

  delete-Keeps :
      (store : ObjectStore F) (key : String) (o : DeleteOptions F)
      → Keeps F (delete F p (wallet_signer F) store key o)
  unfolding delete
  delete-Keeps store key o =
      >>=-Keeps F _ _ (lift-Keeps F _)
        λ params. >>=-Keeps F _ _ (transaction-Keeps F _) λ message. on_world-Keeps F _

  add_uploaded-Keeps :
      (store : ObjectStore F) (key : String) (o : AddOptions F) (cid : F.Cid) (n : ℕ)
      (answer : F.Cid)
      → Keeps F (add_uploaded F p (wallet_signer F) store key o cid n answer)
  unfolding add_uploaded
  add_uploaded-Keeps store key o cid n answer =
      if-Keeps F (not (F.cid_eq answer cid)) _ _ (lift-Keeps F _) (
        >>=-Keeps F _ _ (lift-Keeps F _)
          λ params. >>=-Keeps F _ _ (transaction-Keeps F _) λ message. on_world-Keeps F _)

  upload-Keeps :
      (store : ObjectStore F) (key : String) (body : List (Result Bytes)) (cid : F.Cid) (n : ℕ)
      (metadata : List (String × String)) (overwrite : Bool)
      → Keeps F (upload F p (wallet_signer F) store key body cid n metadata overwrite)
  unfolding upload wallet_signer
  upload-Keeps store key body cid n metadata overwrite = record {
    uses = λ s.
        lift-Uses F
          (F.add_params_codec.encode
            (add_params F p (wallet_signer F) key cid overwrite metadata n))
          _ s
          λ params.
            let msg = object_upload_message F s.0.addr store.address F.add_object_method params in
            let object = F.message_object (F.as_bytes key) cid store.address in
            lift-Uses F ((wallet_signer F).sign_message msg (some object) s.0) _ s λ signed.
              lift-Uses F (F.signed_codec.encode signed) _ s λ bytes.
                lift-Uses F (signer_chain_id F p (wallet_signer F) s.0)
                  (λ id. on_world (p.upload body n (F.url_safe_encode bytes) id)) s
                  λ id. (on_world-Keeps F (p.upload body n (F.url_safe_encode bytes) id)).uses s;
  }

  add-Keeps :
      (store : ObjectStore F) (key : String) (r : Reader) (o : AddOptions F)
      → Keeps F (add F p (wallet_signer F) store key r o)
  unfolding add
  add-Keeps store key r o =
      >>=-Keeps F _ _ (lift-Keeps F (generate_cid F (F.adder_new chunk_size) r.reads F.default_cid))
        λ made. >>=-Keeps F _ _ (lift-Keeps F r.rewind) λ rewound.
          >>=-Keeps F _ _
            (upload-Keeps store key r.stream made.cid made.object_size o.metadata o.overwrite)
            λ answer. add_uploaded-Keeps store key o made.cid made.object_size answer

  -- What is done with a wallet through the machines.
  pub data Operation : Type 0 where
    deploys : F.Kind → WriteAccess → GasParams F → Operation
    pushes : Accumulator F → Bytes → PushOptions F → Operation
    adds : ObjectStore F → String → Reader → AddOptions F → Operation
    deletes : ObjectStore F → String → DeleteOptions F → Operation

  -- The wallet and the world that an operation leaves, whatever its outcome.
  pub operate : Operation → Wallet F × F.World → Wallet F × F.World
  operate (deploys kind access gas) s = (deploy_machine F p (wallet_signer F) kind access gas s).1
  operate (pushes acc payload o) s = (push F p (wallet_signer F) acc payload o s).1
  operate (adds store key r o) s = (add F p (wallet_signer F) store key r o s).1
  operate (deletes store key o) s = (delete F p (wallet_signer F) store key o s).1

  pub operate_all : List Operation → Wallet F × F.World → Wallet F × F.World
  operate_all [] s = s
  operate_all (o ∷ os) s = operate_all os (operate o s)

  set_step :
      (maybe : Option ℕ) (s : Wallet F × F.World)
      → ((n : ℕ) → maybe ≡ some n → n < u64_mod)
      → Use F s (set_sequence F maybe p.queries s).1
  set_step none s below = set_found p.queries s
  set_step (some n) s below = set_given n p.queries s (below n refl)

  operate-Uses : (o : Operation) (s : Wallet F × F.World) → Uses F s (operate o s)
  unfolding operate
  operate-Uses (deploys kind access gas) s = (deploy_machine-Keeps kind access gas).uses s
  operate-Uses (pushes acc payload o) s = (push-Keeps acc payload o).uses s
  operate-Uses (adds store key r o) s = (add-Keeps store key r o).uses s
  operate-Uses (deletes store key o) s = (delete-Keeps store key o).uses s

  operate_all-Uses : (os : List Operation) (s : Wallet F × F.World) → Uses F s (operate_all os s)
  unfolding operate_all
  operate_all-Uses [] s = unused s
  operate_all-Uses (o ∷ os) s =
      Uses-trans F s (operate o s) _ (operate-Uses o s) (operate_all-Uses os (operate o s))

  -- If decoded states of actors have sequences below 2^64: a wallet is made, its sequence is set to a
  -- given 64-bit number or to what the provider finds or fails to find, and then it signs for machines
  -- that are deployed, pushes, and objects that are added and deleted, any number of these in any
  -- order, whatever becomes of each. It still has the key, the address and the subnet of a new wallet,
  -- and a sequence below 2^64.
  pub operate_all-IsMade :
      (sk : F.SecretKey) (kind : AccountKind) (id : SubnetId F) (made : Wallet F) (v : F.World)
      (maybe : Option ℕ) (os : List Operation)
      → HasWords F
      → new_secp256k1 F sk kind id ≡ ok made
      → ((n : ℕ) → maybe ≡ some n → n < u64_mod)
      → let left = (operate_all os (set_sequence F maybe p.queries (made, v)).1).0 in
        (new_secp256k1 F sk kind id ≡ ok (record left { sequence = 0 })) × (left.sequence < u64_mod)
  operate_all-IsMade sk kind id made v maybe os words h below =
      let start = (set_sequence F maybe p.queries (made, v)).1 in
      let left = operate_all os start in
      Uses-IsMade F words sk kind id made left.0 v left.1 h (
        Uses-trans F (made, v) start left
          (then_use (made, v) (made, v) start (unused (made, v)) (set_step maybe (made, v) below))
          (operate_all-Uses os start))
