-- ===== src/Provider/Query/Laws.antt =====
-- What the query methods return for an answer of the node.
use basin.Prelude.{String, ◌≡◌, ◌↔◌, true, false, none, ◌==◌, arith}
use basin.Prelude.Bytes.{Bytes}
use basin.Result.{Result, ok}
use basin.Foreign.{Foreign, Codec}
use basin.Foreign.Laws.{IsRoundTrip, IsBase64}
use basin.Foreign.Data.{AbciQuery, DeliverTx, Message, QueryHeight, call}
use basin.Provider.Response.{decode_as}
use basin.Provider.Extract.{extract, extract_opt, parse_deliver_tx}
use basin.Provider.Query.{QueryProvider, run_call}

module _ (F : Foreign) where
  -- "Not found" is decided by the exit code alone, before any other error and whatever the decoder
  -- makes of the value.
  pub extract_opt-none_iff :
      {A : Type 0} (res : AbciQuery F.types) (f : AbciQuery F.types → Result A)
      → (extract_opt F res f ≡ ok none) ↔ ((F.code_value res.code == F.usr_not_found) ≡ true)
  unfolding extract_opt
  extract_opt-none_iff res f = ground arith

  -- The answer is no error, and the bytes that the actor returned stand in its envelope.
  pub record Carries (res : AbciQuery F.types) (payload : Bytes) : Type 0 where
    pub no_error : F.code_is_err res.code ≡ false
    pub envelope : Bytes
    pub proto : F.ProtoDeliverTx
    pub tx : DeliverTx F.types
    pub unwrapped : F.bytes_codec.decode res.value ≡ ok envelope
    pub decoded : F.proto_decode envelope ≡ ok proto
    pub converted : F.deliver_tx_of_proto proto ≡ ok tx
    pub content : tx.tx_data ≡ payload

  module _ {A : Type 0} (c : Codec A) (what : String) where
    -- `decode_bytes` undoes the wrapping that `parse_deliver_tx` puts round the returned bytes.
    pub decode_as-parse :
        (res : AbciQuery F.types) (v : A) (payload : Bytes)
        → IsBase64 F
        → IsRoundTrip c
        → Carries res payload
        → c.encode v ≡ ok payload
        → (tx : DeliverTx F.types) × (extract F res (parse_deliver_tx F) ≡ ok tx)
          × (decode_as F c what tx ≡ ok v)
    unfolding decode_as parse_deliver_tx extract
    decode_as-parse res v payload base64 law n encoded = (
      record n.tx { tx_data = F.as_bytes (F.base64_encode payload) },
      rw (n.no_error, n.unwrapped, n.decoded, n.converted, n.content),
      rw (base64.from-as, base64.decode-encode, law.decode-encode v payload encoded),
    )

    -- If base64 and the codec read back what they write, and the answer of the node to a call
    -- carries the encoding of a value, the caller gets that value, with the height of the answer,
    -- and nothing is sent after the query.
    pub run_call-returns :
        (p : QueryProvider F) (m : Message F.types) (h : QueryHeight) (w : F.World)
        (res : AbciQuery F.types) (v : A) (payload : Bytes)
        → IsBase64 F
        → IsRoundTrip c
        → (p.query (call m) h w).0 ≡ ok res
        → Carries res payload
        → c.encode v ≡ ok payload
        → run_call F p m h (decode_as F c what) w
          ≡ (ok (record { height = res.height; value = v }), (p.query (call m) h w).1)
    unfolding run_call
    run_call-returns p m h w res v payload base64 law answered n encoded =
        let (tx, parsed, read) = decode_as-parse res v payload base64 law n encoded in
        rw (answered, parsed, read)
