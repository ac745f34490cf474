-- ===== src/Signer/Key.antt =====
-- signer/src/key.rs: secret keys from text and from the random generator.
pub mod Laws
use basin.Prelude.{String, if◌then◌else◌, drop_text, trim, starts_with}
use basin.Result.{Result, ok, with_context, ◌>>=◌}
use basin.Run.{Run}
use basin.Foreign.{Foreign}

module _ (F : Foreign) where
  unfoldable pub parse_secret_key : String → Result F.SecretKey
  parse_secret_key s = do
    let trimmed = trim s
    let hex = if starts_with trimmed "0x" then drop_text 2 trimmed else trimmed
    raw ← with_context "cannot decode hex private key" (F.hex_decode hex)
    sk ← with_context "failed to parse secret key" (F.secret_key_of raw)
    ok sk

  abbrev pub random_secretkey : Run F.World F.SecretKey
  random_secretkey = F.random_key
