-- ===== src/Provider/Extract.antt =====
-- provider/src/query.rs: reading the answer to an ABCI query.
pub mod Laws
use basin.Prelude.{ℕ, ◌<>◌, Option, none, some, ◌==◌, if◌then◌else◌, Bool, decimal}
use basin.Result.{Result, ok, err, message, with_context, map_ok, ◌>>=◌}
use basin.Foreign.{Foreign}
use basin.Foreign.Data.{AbciQuery, DeliverTx, ActorState}
use basin.Provider.Response.{encode_data}

module _ (F : Foreign) where
  is_not_found : AbciQuery F.types → Bool
  is_not_found res = F.code_value res.code == F.usr_not_found

  unfoldable pub extract :
      {A : Type 0} → AbciQuery F.types → (AbciQuery F.types → Result A) → Result A
  extract res f =
      if F.code_is_err res.code
      then err (
          message (
            "query returned non-zero exit code: "
            <> decimal (F.code_value res.code)
            <> "; "
            <> res.info))
      else f res

  unfoldable pub extract_opt :
      {A : Type 0} → AbciQuery F.types → (AbciQuery F.types → Result A) → Result (Option A)
  unfolding extract is_not_found
  extract_opt res f = if is_not_found res then ok none else map_ok some (extract res f)

  decode_actor : AbciQuery F.types → Result (ℕ × ActorState)
  decode_actor res = do
    state ← with_context "failed to decode state" (F.actor_state_codec.decode res.value)
    id ← with_context "failed to decode ID" (F.u64_codec.decode res.key)
    ok (id, state)

  unfoldable pub extract_actor_state : AbciQuery F.types → Result (Option (ℕ × ActorState))
  unfolding extract_opt decode_actor
  extract_actor_state res = extract_opt res decode_actor

  unfoldable pub parse_deliver_tx : AbciQuery F.types → Result (DeliverTx F.types)
  unfolding encode_data
  parse_deliver_tx res = do
    bz ← with_context "failed to decode IPLD as bytes" (F.bytes_codec.decode res.value)
    proto ←
        with_context "failed to deserialize ResponseDeliverTx from proto bytes" (F.proto_decode bz)
    tx ← with_context "failed to create DeliverTx from proto response" (F.deliver_tx_of_proto proto)
    ok (record tx { tx_data = encode_data F tx.tx_data })
