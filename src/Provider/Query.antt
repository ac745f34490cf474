-- ===== src/Provider/Query.antt =====
-- provider/src/query.rs: what a provider does with the answer to an ABCI query. Each method of the
-- trait `QueryProvider` is generic in `query`, which is a field here.
pub mod Laws
use basin.Prelude.{ℕ, String, Option, List}
use basin.Prelude.Bytes.{Bytes}
use basin.Result.{Result, ok, with_context}
use basin.Run.{Run, done, lift, ◌>>=◌}
use basin.Foreign.{Foreign, Codec}
use basin.Foreign.Data.{
  AbciQuery, DeliverTx, FvmQuery, Message, QueryHeight, ActorState, call, estimate_gas, actor_state,
  ipld, state_params, builtin_actors,
}
use basin.Provider.Extract.{extract, extract_opt, extract_actor_state, parse_deliver_tx}

pub record QueryResponse (H A : Type 0) : Type 0 where
  pub height : H
  pub value : A

module _ (F : Foreign) where
  -- The one method that an implementation gives.
  pub record QueryProvider : Type 0 where
    pub query : FvmQuery F.types → QueryHeight → Run F.World (AbciQuery F.types)

module _ (F : Foreign) (p : QueryProvider F) where
  unfoldable pub run_call :
      {A : Type 0}
      → Message F.types
      → QueryHeight
      → (DeliverTx F.types → Result A)
      → Run F.World (QueryResponse F.Height A)
  run_call m height f = do
    res ← p.query (call m) height
    tx ← lift (extract F res (parse_deliver_tx F))
    value ← lift (f tx)
    done (record { height = res.height; value = value })

  unfoldable pub run_estimate_gas :
      Message F.types → QueryHeight → Run F.World (QueryResponse F.Height F.GasEstimate)
  run_estimate_gas m height = do
    res ← p.query (estimate_gas (record m { sequence = 0 })) height
    value ← lift (
        extract F res λ r.
          with_context "failed to decode GasEstimate from query"
            (F.gas_estimate_codec.decode r.value))
    done (record { height = res.height; value = value })

  unfoldable pub run_actor_state :
      F.Address → QueryHeight → Run F.World (QueryResponse F.Height (Option (ℕ × ActorState)))
  run_actor_state address height = do
    res ← p.query (actor_state address) height
    value ← lift (extract_actor_state F res)
    done (record { height = res.height; value = value })

  unfoldable pub run_ipld : F.Cid → QueryHeight → Run F.World (Option Bytes)
  run_ipld cid height = do res ← p.query (ipld cid) height; lift (extract_opt F res λ r. ok r.value)

  unfoldable pub run_state_params : QueryHeight → Run F.World (QueryResponse F.Height F.StateParams)
  run_state_params height = do
    res ← p.query state_params height
    value ← lift (
        extract F res λ r.
          with_context "failed to decode StateParams from query"
            (F.state_params_codec.decode r.value))
    done (record { height = res.height; value = value })

  unfoldable pub run_builtin_actors :
      QueryHeight → Run F.World (QueryResponse F.Height (List (String × F.Cid)))
  run_builtin_actors height = do
    res ← p.query builtin_actors height
    registry ← lift (
        extract F res λ r.
          with_context "failed to decode BuiltinActors from query"
            (F.registry_codec.decode r.value))
    done (record { height = res.height; value = registry })
