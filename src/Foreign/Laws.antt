-- ===== src/Foreign/Laws.antt =====
-- What the libraries document of the operations in `Foreign`. A theorem takes the laws that it needs
-- as hypotheses.
use basin.Prelude.{◌≡◌, false, not, ◌==◌}
use basin.Prelude.Bytes.{Bytes}
use basin.Result.{ok}
use basin.Foreign.{Foreign, Codec}

-- Decoding what was encoded gives the value back.
pub record IsRoundTrip {A : Type 0} (c : Codec A) : Type 0 where
  pub decode-encode : (a : A) (b : Bytes) → c.encode a ≡ ok b → c.decode b ≡ ok a

-- Base64 text decodes to the bytes that it was made of, and is read back from its UTF-8.
pub record IsBase64 (F : Foreign) : Type 0 where
  pub decode-encode : (b : Bytes) → F.base64_decode (F.base64_encode b) ≡ ok b
  pub from-as : (b : Bytes) → F.from_utf8 (F.as_bytes (F.base64_encode b)) ≡ ok (F.base64_encode b)

-- A code is an error exactly if it is not 0, and "not found" is not 0.
pub record IsAbciCode (F : Foreign) : Type 0 where
  pub is_err : (c : F.Code) → F.code_is_err c ≡ not (F.code_value c == 0)
  pub not_found : (F.usr_not_found == 0) ≡ false
