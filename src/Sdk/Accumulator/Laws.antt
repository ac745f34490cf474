-- ===== src/Sdk/Accumulator/Laws.antt =====
-- What a push consumes, and what the queries return.
use basin.Prelude.{
  ltb, Bool, true, false, not, ◌&&◌, if◌then◌else◌, ◌⊎◌, ℕ, ◌+◌, ◌%◌, ◌≡◌, none, some, Option, ◌<>◌,
  length, arith, u64_mod, decimal,
}
use basin.Prelude.Bytes.{Bytes}
use basin.Result.{is_ok, ok, err, message}
use basin.Foreign.{Foreign}
use basin.Foreign.Laws.{IsRoundTrip, IsBase64}
use basin.Foreign.Data.{AbciQuery, QueryHeight, call}
use basin.Provider.Message.{local_message}
use basin.Provider.Interface.{Provider}
use basin.Provider.Query.{QueryProvider}
use basin.Provider.Query.Laws.{Carries, run_call-returns}
use basin.Signer.Wallet.{Wallet, wallet_signer}
use basin.Sdk.Accumulator.{PushOptions, Accumulator, push, leaf}

module _ (F : Foreign) where
  -- A payload is accepted if it has at most 512,000 bytes and can be encoded.
  abbrev pub accepts : Bytes → Bool
  accepts payload = not (ltb 512000 (length payload)) && is_ok (F.bytes_ser_codec.encode payload)

  -- A payload of at most 512,000 bytes that can be encoded consumes one sequence of the wallet,
  -- whether or not it can be signed and whatever the node answers. With any other payload neither
  -- the wallet nor the world changes, and the push does not succeed. Nothing else of the wallet
  -- ever changes.
  pub push_sequence :
      (provider : Provider F) (acc : Accumulator F) (payload : Bytes) (o : PushOptions F)
      (wallet : Wallet F) (w : F.World)
      → ((push F provider (wallet_signer F) acc payload o (wallet, w)).1.0 ≡ record wallet {
        sequence = if accepts payload then (wallet.sequence + 1) % u64_mod else wallet.sequence;
      })
        × ((accepts payload ≡ true)
            ⊎ (((push F provider (wallet_signer F) acc payload o (wallet, w)).1.1 ≡ w)
                × (is_ok (push F provider (wallet_signer F) acc payload o (wallet, w)).0 ≡ false)))
  unfolding push wallet_signer
  push_sequence provider acc payload o wallet w = (ground arith, ground arith)

  module _ (queries : QueryProvider F) (acc : Accumulator F) (h : QueryHeight) (w : F.World)
      (res : AbciQuery F.types) (payload : Bytes) (base64 : IsBase64 F)
      (carries : Carries F res payload) where
    -- If base64 and the codec of leaves read back what they write, and the node answers a query
    -- for a leaf with the encoding of an optional leaf, `leaf` returns the leaf that is there,
    -- and fails if there is none.
    pub leaf_returns :
        (index : ℕ) (params : Bytes) (found : Option Bytes)
        → IsRoundTrip F.maybe_bytes_codec
        → F.u64_codec.encode index ≡ ok params
        → (queries.query (call (local_message F acc.address F.get_method params)) h w).0 ≡ ok res
        → F.maybe_bytes_codec.encode found ≡ ok payload
        → (leaf F queries acc index h w).0 ≡ elim found [
          | some b ↦ ok b
          | none ↦ err (message ("leaf not found for index '" <> decimal index <> "'"))
        ]
    unfolding leaf
    leaf_returns index params found law e answered encoded =
        rw
          (
            e,
            run_call-returns F F.maybe_bytes_codec "Option<Vec<u8>>" queries
                (local_message F acc.address F.get_method params) h w res found payload base64 law
                answered carries encoded,
          )
          (ground arith)
