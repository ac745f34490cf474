-- ===== src/Provider/Response.antt =====
-- provider/src/response.rs: the base64 wrapping of returned bytes, and CIDs.
use basin.Prelude.{String, ◌<>◌, ◌≡◌, refl}
use basin.Prelude.Bytes.{Bytes}
use basin.Result.{Result, ok, message, text, with_context, map_err, ◌>>=◌}
use basin.Foreign.{Foreign, Codec}
use basin.Foreign.Data.{DeliverTx}

module _ (F : Foreign) where
  unfoldable pub encode_data : Bytes → Bytes
  encode_data b = F.as_bytes (F.base64_encode b)

  unfoldable pub decode_data : Bytes → Result Bytes
  decode_data b = do
    b64 ← with_context "error parsing data as base64 string" (F.from_utf8 b)
    raw ← with_context "error parsing base64 to bytes" (F.base64_decode b64)
    ok raw

  unfoldable pub decode_bytes : DeliverTx F.types → Result Bytes
  unfolding decode_data
  decode_bytes tx = decode_data tx.tx_data

  -- `decode_bytes`, then `from_slice` with an error that names the type
  -- (the `decode_…` functions of the machines have this shape).
  unfoldable pub decode_as : {A : Type 0} → Codec A → String → DeliverTx F.types → Result A
  unfolding decode_bytes
  decode_as c what tx = do
    raw ← decode_bytes tx
    map_err (λ e. message ("error parsing as " <> what <> ": " <> text e)) (c.decode raw)

  -- The wrapper `Cid(cid::Cid)` is its content.
  unfoldable pub decode_cid : DeliverTx F.types → Result F.Cid
  unfolding decode_as
  decode_cid = decode_as F.cid_codec "Cid"

  -- `Cid::from_str` and `Display` of the wrapper.
  abbrev pub cid_from_str : String → Result F.Cid
  cid_from_str s = F.cid_of_text s

  abbrev pub cid_display : F.Cid → String
  cid_display c = F.cid_text c

  -- `Serialize` and `Deserialize`, over a serializer of texts and a deserializer of borrowed texts.
  unfoldable pub serialize_cid : {A : Type 0} → (String → Result A) → F.Cid → Result A
  serialize_cid serialize_str c = serialize_str (cid_display c)

  unfoldable pub deserialize_cid : {D : Type 0} → (D → Result String) → D → Result F.Cid
  deserialize_cid deserialize_str d = do
    s ← deserialize_str d
    map_err (λ e. message (text e)) (cid_from_str s)

  -- A CID is read back from its JSON if its text is, and a text is from its JSON.
  pub deserialize-serialize_cid :
      {D : Type 0} (write : String → Result D) (read : D → Result String) (c : F.Cid) (d : D)
      → ((s : String) (e : D) → write s ≡ ok e → read e ≡ ok s)
      → F.cid_of_text (F.cid_text c) ≡ ok c
      → serialize_cid write c ≡ ok d
      → deserialize_cid read d ≡ ok c
  unfolding serialize_cid deserialize_cid
  deserialize-serialize_cid write read c d texts cids written =
      rw (texts (F.cid_text c) d written, cids) refl
