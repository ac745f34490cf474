-- ===== src/Sdk/ObjectStore/Laws.antt =====
-- What an added object costs and when, and what a get delivers.
use basin.Prelude.{
  ℕ, ◌+◌, ◌%◌, u64_mod, ◌≡◌, refl, ap, ◌∙◌, Bool, true, false, String, List, [], ◌∷◌, ◌++◌, arith,
  sym,
}
use basin.Prelude.Bytes.{Bytes}
use basin.Result.{Result, ok, err, halt}
use mathlib.Core.List.{append-nil, append_assoc}
use basin.Run.{Run, proceed, on_world}
use basin.Run.Laws.{>>=-eq-ok}
use basin.Foreign.{Foreign}
use basin.Foreign.Data.{StoredObject}
use basin.Provider.Interface.{Provider}
use basin.Signer.Interface.{Signer}
use basin.Signer.Wallet.{Wallet, wallet_signer}
use basin.Sdk.ObjectStore.{
  ObjectStore, AddOptions, GetOptions, Reader, chunk_size, add, add_params, add_uploaded, upload,
}
use basin.Sdk.ObjectStore.Content.{Generated, generate_cid, copy_chunks}
use basin.Sdk.ObjectStore.Access.{get, get_info, open_object}

module _ (F : Foreign) where
  -- The object API answered with the CID that was computed.
  abbrev pub verified : F.Cid → Result F.Cid → Bool
  verified cid (ok c) = F.cid_eq c cid
  verified cid (err e) = false
  verified cid (halt h) = false

  module _ {S : Type 0} (provider : Provider F) (signer : Signer F S) (store : ObjectStore F)
      (key : String) (o : AddOptions F) where
    -- The upload that `add` makes of a reader whose content has been read.
    abbrev pub upload_of : Reader → Generated F → Run (S × F.World) F.Cid
    upload_of reader g =
        upload F provider signer store key reader.stream g.cid g.object_size o.metadata o.overwrite

    upload_of-signer :
        (reader : Reader) (g : Generated F) (s : S × F.World) → (upload_of reader g s).1.0 ≡ s.0
    unfolding upload
    upload_of-signer reader g s = ground arith

    refused :
        (r : Result F.Cid) (cid : F.Cid) (n : ℕ) (s : S × F.World)
        → verified cid r ≡ false
        → (proceed r (add_uploaded F provider signer store key o cid n) s).1 ≡ s
    unfolding add_uploaded
    refused (ok c) cid n s h = rw h
    refused (err e) cid n s h = refl
    refused (halt x) cid n s h = refl

    -- If the object API does not answer with the CID of the content, whether it failed or answered
    -- with another, the signer is as before, and the world is as the upload left it: there is no
    -- transaction.
    pub add_unverified :
        (reader : Reader) (s : S × F.World) (g : Generated F)
        → generate_cid F (F.adder_new chunk_size) reader.reads F.default_cid ≡ ok g
        → reader.rewind ≡ ok tt
        → verified g.cid (upload_of reader g s).0 ≡ false
        → (add F provider signer store key reader o s).1 ≡ (s.0, (upload_of reader g s).1.1)
    unfolding add
    add_unverified reader s g made rewound e =
        rw (made, rewound)
          (refused (upload_of reader g s).0 g.cid g.object_size (upload_of reader g s).1 e
            ∙ ap (λ x. (x, (upload_of reader g s).1.1)) (upload_of-signer reader g s))

  uploaded-sequence :
      (provider : Provider F) (store : ObjectStore F) (key : String) (o : AddOptions F)
      (s : Wallet F × F.World) (g : Generated F) (params : Bytes) (c : F.Cid)
      → F.cid_eq c g.cid ≡ true
      → F.add_params_codec.encode (record {
        key = F.as_bytes key;
        cid = g.cid;
        overwrite = o.overwrite;
        metadata = o.metadata;
        size = g.object_size;
      })
        ≡ ok params
      → (add_uploaded F provider (wallet_signer F) store key o g.cid g.object_size c s).1.0
        ≡ record s.0 { sequence = (s.0.sequence + 1) % u64_mod }
  unfolding add_uploaded wallet_signer add_params
  uploaded-sequence provider store key o s g params c same encoded =
      rw (same, encoded) (ground arith)

  -- Once the API has answered with the CID of the content, an `add` whose parameters can be encoded
  -- consumes one sequence of the wallet, whatever becomes of the transaction.
  pub add_sequence :
      (provider : Provider F) (store : ObjectStore F) (key : String) (o : AddOptions F)
      (reader : Reader) (wallet : Wallet F) (w : F.World) (g : Generated F) (params : Bytes)
      (c : F.Cid)
      → generate_cid F (F.adder_new chunk_size) reader.reads F.default_cid ≡ ok g
      → reader.rewind ≡ ok tt
      → (upload_of provider (wallet_signer F) store key o reader g (wallet, w)).0 ≡ ok c
      → F.cid_eq c g.cid ≡ true
      → F.add_params_codec.encode (record {
        key = F.as_bytes key;
        cid = g.cid;
        overwrite = o.overwrite;
        metadata = o.metadata;
        size = g.object_size;
      })
        ≡ ok params
      → (add F provider (wallet_signer F) store key reader o (wallet, w)).1.0
        ≡ record wallet { sequence = (wallet.sequence + 1) % u64_mod }
  unfolding add
  add_sequence provider store key o reader wallet w g params c made rewound answered same encoded =
      let s = (upload_of provider (wallet_signer F) store key o reader g (wallet, w)).1 in
      rw (made, rewound, answered)
        (uploaded-sequence provider store key o s g params c same encoded
          ∙ ap {A = Wallet F} (λ v. record v { sequence = (v.sequence + 1) % u64_mod })
              (upload_of-signer provider (wallet_signer F) store key o reader g (wallet, w)))

-- The bytes of the chunks.
abbrev pub content : {W : Type 0} → List (Result Bytes × W) → Bytes
content [] = []
content ((ok b, w) ∷ chunks) = b ++ content chunks
content ((err e, w) ∷ chunks) = []
content ((halt h, w) ∷ chunks) = []

pub copy_chunks-ok :
    {W O : Type 0} (write_all : Bytes → Run O (Unit {0})) (b : Bytes)
    (chunks : List (Result Bytes × W)) (end v w : W) (o o' : O)
    → write_all b o ≡ (ok tt, o')
    → copy_chunks write_all ((ok b, v) ∷ chunks, end) (o, w)
      ≡ copy_chunks write_all (chunks, end) (o', v)
unfolding copy_chunks
copy_chunks-ok write_all b chunks end v w o o' h =
    rw (copy_chunks, ap (λ x. x.0) h, ap (λ x. x.1) h) refl

module _ {W : Type 0} (write_all : Bytes → Run Bytes (Unit {0}))
    (appends : (b o : Bytes) → write_all b o ≡ (ok tt, o ++ b)) where
  copy_chunks-content :
      (chunks : List (Result Bytes × W)) (end w : W) (out : Bytes)
      → (copy_chunks write_all (chunks, end) (out, w)).0 ≡ ok tt
      → (copy_chunks write_all (chunks, end) (out, w)).1 ≡ (out ++ content chunks, end)
  unfolding copy_chunks
  copy_chunks-content [] end w out h = ap (λ x. (x, end)) (sym (append-nil out))
  copy_chunks-content ((ok b, v) ∷ chunks) end w out h =
      let e = copy_chunks-ok write_all b chunks end v w out (out ++ b) (appends b out) in
      rw e (
        copy_chunks-content chunks end v (out ++ b) (rw e at h)
        ∙ ap (λ x. (x, end)) (append_assoc out b (content chunks)))
  copy_chunks-content ((err e, v) ∷ chunks) end w out h = cc
  copy_chunks-content ((halt e, v) ∷ chunks) end w out h = cc

module _ (F : Foreign) (provider : Provider F) (store : ObjectStore F) where
  open_object-resolved :
      (key : String) (o : GetOptions) (object : StoredObject) (w : F.World) (r : F.Response)
      → (open_object F provider store key o object w).0 ≡ ok r
      → object.resolved ≡ true
  unfolding open_object
  open_object-resolved key o object w r h = ground arith

  -- If a get into a writer that appends succeeds, the chain knew the object and had it resolved, the
  -- object API gave a response, and the writer has got the bytes of all of that response's chunks,
  -- in their order.
  pub get_success :
      (write_all : Bytes → Run Bytes (Unit {0})) (key : String) (o : GetOptions) (out : Bytes)
      (w : F.World)
      → ((b out : Bytes) → write_all b out ≡ (ok tt, out ++ b))
      → (get F provider store write_all key o (out, w)).0 ≡ ok tt
      → (object : StoredObject) × (response : F.Response) × (w' : F.World) × ((get_info F provider
            store key o w).0
          ≡ ok object)
        × (object.resolved ≡ true)
        × ((open_object F provider store key o object (get_info F provider store key o w).1)
            ≡ (ok response, w'))
        × ((get F provider store write_all key o (out, w)).1.0
            ≡ out ++ content (F.body_chunks response w').0)
  unfolding get
  get_success write_all key o out w appends h =
      let w₁ = (get_info F provider store key o w).1 in
      let (object, e, h₁) = >>=-eq-ok (on_world (get_info F provider store key o)) _ (out, w) h in
      let opened = open_object F provider store key o object in
      let (response, f, h₂) = >>=-eq-ok (on_world opened) _ (out, w₁) h₁ in
      let w₂ = (opened w₁).1 in
      (
        object,
        response,
        w₂,
        e,
        open_object-resolved key o object w₁ response f,
        ap (λ x. (x, w₂)) f,
        rw (e, f)
            (ap (λ x. x.0)
              (copy_chunks-content write_all appends (F.body_chunks response w₂).0
                (F.body_chunks response w₂).1 w₂ out h₂)),
      )
