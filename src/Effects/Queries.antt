-- ===== src/Effects/Queries.antt =====
-- sdk/src/machine.rs, account.rs, machine/accumulator.rs, machine/objectstore.rs, and
-- signer/src/wallet.rs: the operations that only ask, with any provider whose queries submit nothing.
use basin.Prelude.{
  ℕ, String, List, refl, sym, subst, ◌≡◌, ◌⊎◌, inl, inr, suc, [], ◌∷◌, map, get_elem?, arith, not,
  Option, none, some,
}
use basin.Prelude.Bytes.{Bytes}
use basin.Result.{Result, ok, err, halt}
use basin.Sdk.ObjectStore.Content.{copy_chunks}
use basin.Run.{Run, lift, on_world, ◌>>=◌}
use basin.Foreign.{Foreign}
use basin.Foreign.Data.{DeliverTx, QueryHeight, Message, pending}
use basin.Provider.Message.{local_message}
use basin.Provider.Query.{QueryProvider, QueryResponse, run_call, run_actor_state}
use basin.Provider.Interface.{Provider}
use basin.Signer.Interface.{Signer}
use basin.Signer.Wallet.{set_sequence, init_sequence}
use basin.Sdk.Machine.{decode_list, list_machines, machine_info}
use basin.Sdk.Accumulator.{Accumulator, leaf, count, peaks, root}
use basin.Effects.{
  Within, stay, alone, beside, lift>>=, none>>=, if-Within, unmoved, on_world-Reaches, Reaches,
  then_read, chunk_step, end_step,
}
use basin.Sdk.ObjectStore.{ObjectStore, GetOptions, QueryOptions}
use basin.Sdk.ObjectStore.Access.{get, get_info, open_object, query}
use basin.Foreign.Data.{StoredObject}
use basin.Sdk.Account.{account_sequence}
use basin.Effects.Provider.{IsQuiet, IsFrugal, run_call-Within, run_actor_state-Within}

module _ (F : Foreign) (queries : QueryProvider F) (quiet : IsQuiet F queries) where
  pub init_sequence-Within : Within F (beside F) 0 (init_sequence F queries)
  unfolding init_sequence
  init_sequence-Within s =
      none>>= F (beside F) 0 (on_world (run_actor_state F queries s.0.addr pending)) _
        (on_world-Reaches F 0 _ (run_actor_state-Within F queries quiet s.0.addr pending))
        (λ res. unmoved F (beside F) 0 _ λ t. ground arith) s

  pub set_sequence-Within : (o : Option ℕ) → Within F (beside F) 0 (set_sequence F o queries)
  unfolding set_sequence
  set_sequence-Within none s = init_sequence-Within s
  set_sequence-Within (some n) s = stay 0 s.1

  pub account_sequence-Within :
      {S : Type 0} (signer : Signer F S) (h : QueryHeight)
      → Within F (beside F) 0 (account_sequence F queries signer h)
  unfolding account_sequence
  account_sequence-Within signer h s =
      none>>= F (beside F) 0 (on_world (run_actor_state F queries (signer.address s.0) h)) _
        (on_world-Reaches F 0 _ (run_actor_state-Within F queries quiet (signer.address s.0) h))
        (λ res. unmoved F (beside F) 0 _ λ t. ground arith) s

  pub list_machines-Within :
      {S : Type 0} (signer : Signer F S) (kind : F.Kind) (h : QueryHeight)
      → Within F (beside F) 0 (list_machines F queries signer kind h)
  unfolding list_machines
  list_machines-Within signer kind h s =
      lift>>= F (beside F) 0 (F.list_params_codec.encode (record { owner = signer.address s.0 })) _
        (λ params.
          none>>= F (beside F) 0
            (on_world (
              run_call F queries (local_message F F.adm_actor F.list_metadata_method params) h
                (decode_list F)))
            _ (on_world-Reaches F 0 _ (run_call-Within F queries quiet _ h (decode_list F)))
            λ r. unmoved F (beside F) 0 _ λ t. refl)
        s

  -- A query whose answer is handed on.
  asked-Within :
      {A B : Type 0} (m : Message F.types) (h : QueryHeight) (f : DeliverTx F.types → Result A)
      (g : QueryResponse F.Height A → Result B)
      → Within F (alone F) 0 (run_call F queries m h f >>= λ r. lift (g r))
  asked-Within m h f g =
      none>>= F (alone F) 0 (run_call F queries m h f) _ (run_call-Within F queries quiet m h f)
        λ r. unmoved F (alone F) 0 _ λ w. refl

  pub machine_info-Within :
      (a : F.Address) (h : QueryHeight) → Within F (alone F) 0 (machine_info F queries a h)
  unfolding machine_info
  machine_info-Within a h = asked-Within _ h _ _

  module _ (acc : Accumulator F) (h : QueryHeight) where
    pub leaf-Within : (i : ℕ) → Within F (alone F) 0 (leaf F queries acc i h)
    unfolding leaf
    leaf-Within i = lift>>= F (alone F) 0 (F.u64_codec.encode i) _ λ params. asked-Within _ h _ _

    pub count-Within : Within F (alone F) 0 (count F queries acc h)
    unfolding count
    count-Within = asked-Within _ h _ _

    pub peaks-Within : Within F (alone F) 0 (peaks F queries acc h)
    unfolding peaks
    peaks-Within = asked-Within _ h _ _

    pub root-Within : Within F (alone F) 0 (root F queries acc h)
    unfolding root
    root-Within = asked-Within _ h _ _

module _ (F : Foreign) (provider : Provider F) (frugal : IsFrugal F provider)
    (store : ObjectStore F) where
  get_info-Within :
      (key : String) (o : GetOptions) → Within F (alone F) 0 (get_info F provider store key o)
  unfolding get_info
  get_info-Within key o =
      lift>>= F (alone F) 0 (F.get_params_codec.encode (F.as_bytes key)) _
        λ params. asked-Within F provider.queries frugal.queries _ o.height _ _

  open_object-Within :
      (key : String) (o : GetOptions) (object : StoredObject)
      → Within F (alone F) 0 (open_object F provider store key o object)
  unfolding open_object
  open_object-Within key o object = lift>>= F (alone F) 0 (F.cid_of_bytes object.cid) _ λ _.
      if-Within F (alone F) 0 (not object.resolved) _ _ (λ w. stay 0 w)
        (none>>= F (alone F) 0 (provider.size store.address key (F.height_number o.height)) _
          (frugal.size store.address key (F.height_number o.height))
          λ _. frugal.download store.address key o.range (F.height_number o.height))

  pub query-Within : (o : QueryOptions) → Within F (alone F) 0 (query F provider store o)
  unfolding query
  query-Within o =
      lift>>= F (alone F) 0
        (F.query_params_codec.encode (record {
          prefix = F.as_bytes o.prefix;
          delimiter = F.as_bytes o.delimiter;
          offset = o.offset;
          limit = o.limit;
        }))
        _ λ params. asked-Within F provider.queries frugal.queries _ o.height _ _

  module _ {O : Type 0} (write_all : Bytes → Run O (Unit {0})) where
    -- What follows the write of a chunk.
    abbrev go_on :
        List (Result Bytes × F.World) × F.World
        → O × F.World
        → Result (Unit {0})
        → Result (Unit {0}) × (O × F.World)
    go_on chunks t r = elim r [
      | ok _ ↦ copy_chunks write_all chunks t
      | err e ↦ (err e, t)
      | halt h ↦ (halt h, t)
    ]

    abbrev Ends : List F.World → F.World → F.World → Type 0
    Ends worlds end w = (w ≡ end) ⊎ ((i : ℕ) × (get_elem? worlds i ≡ some w))

    later :
        (v end w : F.World) (worlds : List F.World) → Ends worlds end w → Ends (v ∷ worlds) end w
    later v end w worlds (inl same) = inl same
    later v end w worlds (inr (i, at_i)) = inr (suc i, at_i)

    -- The copying ends where the end of the stream is seen, or where one of its chunks is drawn.
    copied :
        (chunks : List (Result Bytes × F.World)) (end : F.World) (s : O × F.World)
        → Ends (map (λ x. x.1) chunks) end (copy_chunks write_all (chunks, end) s).1.1
    unfolding copy_chunks
    copied [] end s = inl refl
    copied ((err e, v) ∷ chunks) end s = inr (0, refl)
    copied ((halt h, v) ∷ chunks) end s = inr (0, refl)
    copied ((ok b, v) ∷ chunks) end s =
        let t : O × F.World = ((write_all b s.0).1, v) in
        elim (write_all b s.0).0
          as (λ r. Ends (v ∷ map (λ x. x.1) chunks) end (go_on (chunks, end) t r).1.1) [
            | ok _ ↦ later v end _ _ (copied chunks end t)
            | err e ↦ inr (0, refl)
            | halt h ↦ inr (0, refl)
          ]

    copy-Within :
        (r : F.Response)
        → Within F (beside F {S = O}) 0 (λ s. copy_chunks write_all (F.body_chunks r s.1) s)
    copy-Within r s = elim (copied (F.body_chunks r s.1).0 (F.body_chunks r s.1).1 s) [
      | inl same ↦
          subst (Reaches F 0 s.1) (sym same) (then_read 0 _ _ _ (stay 0 s.1) (end_step r s.1))
      | inr (i, at_i) ↦ then_read 0 _ _ _ (stay 0 s.1) (chunk_step r i s.1 _ at_i)
    ]

    pub get-Within :
        (key : String) (o : GetOptions)
        → Within F (beside F {S = O}) 0 (get F provider store write_all key o)
    unfolding get
    get-Within key o =
        none>>= F (beside F) 0 (on_world (get_info F provider store key o)) _
          (on_world-Reaches F 0 _ (get_info-Within key o))
          λ object.
            none>>= F (beside F) 0 (on_world (open_object F provider store key o object)) _
              (on_world-Reaches F 0 _ (open_object-Within key o object)) copy-Within
