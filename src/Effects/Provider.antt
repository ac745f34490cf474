-- ===== src/Effects/Provider.antt =====
-- provider/src/json_rpc.rs, query.rs: which steps the provider makes.
use basin.Prelude.{ℕ, String, ◌<>◌, decimal, refl, Option, none, some, List, arith}
use basin.Prelude.Bytes.{Bytes}
use basin.Result.{Result, with_context, ok_or, message}
use basin.Run.{lift, ◌>>=◌}
use basin.Foreign.{Foreign}
use basin.Foreign.Data.{DeliverTx, FvmQuery, QueryHeight, Message, call, actor_state}
use basin.Provider.Message.{serialize}
use basin.Provider.Tx.{BroadcastMode, async, sync, commit}
use basin.Provider.Query.{QueryProvider, run_call, run_actor_state}
use basin.Provider.Interface.{Provider}
use basin.Provider.JsonRpc.{
  JsonRpcProvider, as_query_provider, query, perform, upload, download, size, object_url,
}
use basin.Provider.JsonRpc.Complete.{as_provider}
use basin.Effects.{
  Within, stay, one_read, one_submit, alone, lift>>=, none>>=, >>=none, if-Within, unmoved,
  query_step, async_step, sync_step, commit_step, post_step, get_step, head_step, text_step,
}

module _ (F : Foreign) where
  -- A provider whose queries submit nothing.
  pub record IsQuiet (queries : QueryProvider F) : Type 0 where
    pub query : (q : FvmQuery F.types) (h : QueryHeight) → Within F (alone F) 0 (queries.query q h)

  -- A provider that submits at most one transaction in `perform`, and else none.
  pub record IsFrugal (provider : Provider F) : Type 1 where
    pub queries : IsQuiet provider.queries
    pub perform :
        (A : Type 0) (f : DeliverTx F.types → Result A) (m : F.ChainMessage) (mode : BroadcastMode)
        → Within F (alone F) 1 (provider.perform A f m mode)
    pub upload :
        (body : List (Result Bytes)) (n : ℕ) (msg : String) (id : ℕ)
        → Within F (alone F) 0 (provider.upload body n msg id)
    pub download :
        (a : F.Address) (key : String) (range : Option String) (h : ℕ)
        → Within F (alone F) 0 (provider.download a key range h)
    pub size : (a : F.Address) (key : String) (h : ℕ) → Within F (alone F) 0 (provider.size a key h)

  module _ (queries : QueryProvider F) (quiet : IsQuiet queries) where
    pub run_call-Within :
        {A : Type 0} (m : Message F.types) (h : QueryHeight) (f : DeliverTx F.types → Result A)
        → Within F (alone F) 0 (run_call F queries m h f)
    unfolding run_call
    run_call-Within m h f =
        none>>= F (alone F) 0 (queries.query (call m) h) _ (quiet.query (call m) h)
          λ res. unmoved F (alone F) 0 _ λ s. ground arith

    pub run_actor_state-Within :
        (a : F.Address) (h : QueryHeight) → Within F (alone F) 0 (run_actor_state F queries a h)
    unfolding run_actor_state
    run_actor_state-Within a h =
        none>>= F (alone F) 0 (queries.query (actor_state a) h) _ (quiet.query (actor_state a) h)
          λ res. unmoved F (alone F) 0 _ λ s. ground arith

  module _ (p : JsonRpcProvider F) where
    pub as_query_provider-IsQuiet : IsQuiet (as_query_provider F p)
    unfolding as_query_provider query
    as_query_provider-IsQuiet = record {
      query = λ q h.
          lift>>= F (alone F) 0 (with_context "failed to encode query" (F.query_codec.encode q)) _
            λ bytes.
              lift>>= F (alone F) 0
                (with_context "failed to conver to Height" (F.height_of (F.height_number h))) _
                λ height. one_read F _ (query_step p.inner bytes height);
    }

    perform-Within :
        (A : Type 0) (f : DeliverTx F.types → Result A) (m : F.ChainMessage) (mode : BroadcastMode)
        → Within F (alone F) 1 (perform F p f m mode)
    unfolding perform
    perform-Within A f m async = lift>>= F (alone F) 1 (serialize F m) _ λ bytes.
        >>=none F (alone F) 1 (F.broadcast_tx_async p.inner bytes) _
          (one_submit F _ (async_step p.inner bytes)) λ r. unmoved F (alone F) 0 _ λ s. ground arith
    perform-Within A f m sync = lift>>= F (alone F) 1 (serialize F m) _ λ bytes.
        >>=none F (alone F) 1 (F.broadcast_tx_sync p.inner bytes) _
          (one_submit F _ (sync_step p.inner bytes)) λ r. unmoved F (alone F) 0 _ λ s. ground arith
    perform-Within A f m commit = lift>>= F (alone F) 1 (serialize F m) _ λ bytes.
        >>=none F (alone F) 1 (F.broadcast_tx_commit p.inner bytes) _
          (one_submit F _ (commit_step p.inner bytes))
          λ r. unmoved F (alone F) 0 _ λ s. ground arith

    -- What is read of a response that tells of a failure, or of a text.
    text-Within :
        {A : Type 0} (r : F.Response) (f : String → Result A)
        → Within F (alone F) 0 (F.body_text r >>= λ s. lift (f s))
    text-Within r f =
        none>>= F (alone F) 0 (F.body_text r) _ (one_read F _ (text_step r))
          λ s. unmoved F (alone F) 0 _ λ w. refl

    upload-Within :
        (body : List (Result Bytes)) (n : ℕ) (msg : String) (id : ℕ)
        → Within F (alone F) 0 (upload F p body n msg id)
    unfolding upload
    upload-Within body n msg id =
        lift>>= F (alone F) 0 (ok_or (message "object provider is required") p.objects) _ λ client.
          none>>= F (alone F) 0
            (F.post_object (F.url_text client.url <> "v1/objects") (decimal id) msg body n) _
            (one_read F _ (post_step _ _ msg body n))
            λ r. if-Within F (alone F) 0 (F.is_success r) _ _ (text-Within r _) (text-Within r _)

    download-Within :
        (a : F.Address) (key : String) (range : Option String) (h : ℕ)
        → Within F (alone F) 0 (download F p a key range h)
    unfolding download
    download-Within a key range h =
        lift>>= F (alone F) 0 (ok_or (message "object provider is required") p.objects) _ λ client.
          none>>= F (alone F) 0
            (F.get_object (object_url F client a key h)
              (elim range [ none ↦ none | some r ↦ some ("bytes=" <> r) ]))
            _ (one_read F _ (get_step _ _))
            λ r. if-Within F (alone F) 0 (F.is_success r) _ _ (λ w. stay 0 w) (text-Within r _)

    size-Within : (a : F.Address) (key : String) (h : ℕ) → Within F (alone F) 0 (size F p a key h)
    unfolding size
    size-Within a key h =
        lift>>= F (alone F) 0 (ok_or (message "object provider is required") p.objects) _ λ client.
          none>>= F (alone F) 0 (F.head_object (object_url F client a key h)) _
            (one_read F _ (head_step _))
            λ r.
              if-Within F (alone F) 0 (F.is_success r) _ _
                (unmoved F (alone F) 0 _ λ w. ground arith) (text-Within r _)

    pub as_provider-IsFrugal : IsFrugal (as_provider F p)
    unfolding as_provider
    as_provider-IsFrugal = record {
      queries = as_query_provider-IsQuiet;
      perform = perform-Within;
      upload = upload-Within;
      download = download-Within;
      size = size-Within;
    }
