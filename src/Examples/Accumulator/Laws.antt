-- ===== src/Examples/Accumulator/Laws.antt =====
-- The `unwrap` of the data of a push.
use basin.Prelude.{
  String, List, Option, ap, sym, fun_ext, ◌≡◌, ◌≢◌, refl, ltb, length, none, some, Bool-cases, inl,
  inr,
}
use basin.Prelude.Bytes.{Bytes}
use basin.Result.{Result, ok}
use basin.Run.{lift, on_world, on_local, ◌>>=◌}
use basin.Run.Laws.{proceed-eq-ok, >>=-cong}
use basin.Foreign.{Foreign}
use basin.Provider.Tx.{TxReceipt, commit}
use basin.Foreign.Data.{DeliverTx}
use basin.Provider.JsonRpc.{JsonRpcProvider, as_query_provider, perform}
use basin.Provider.JsonRpc.Complete.{as_provider}
use basin.Provider.JsonRpc.Perform.{perform_receipt}
use basin.Signer.Interface.{Signer, Request}
use basin.Signer.Wallet.{Wallet, wallet_signer, init_sequence}
use basin.Sdk.Accumulator.{Accumulator, PushReturn, push, new, default_push}
use basin.Provider.Message.{default_gas}
use basin.Foreign.Data.{only_owner}
use basin.Examples.{say}
use basin.Examples.Accumulator.{
  value_or, unwrap_panics, report_push, accumulator_session, with_accumulator_signer,
  accumulator_push_or, accumulator_push,
}

module _ (F : Foreign) (p : JsonRpcProvider F) where
  transact-data :
      {S A : Type 0} (signer : Signer F S) (e : Result Bytes) (request : Bytes → Request F)
      (f : DeliverTx F.types → Result A) (s : S × F.World) (tx : TxReceipt F.types A)
      → ((lift e >>= λ b.
            on_local (signer.transaction (request b)) >>= λ m. on_world (perform F p f m commit))
          s).0
        ≡ ok tx
      → tx.return_data ≢ none
  transact-data signer e request f s tx h =
      let (b, _, h₁) = proceed-eq-ok e _ s h in
      let (m, _, h₂) =
        proceed-eq-ok (signer.transaction (request b) s.0).0
          (λ m. on_world (perform F p f m commit)) ((signer.transaction (request b) s.0).1, s.1)
          h₁ in
      (perform_receipt F _ p f m commit s.1 tx h₂).2

  -- A push that succeeds in the default mode has data.
  push-data :
      {S : Type 0} (signer : Signer F S) (acc : Accumulator F) (payload : Bytes) (s : S × F.World)
      (tx : TxReceipt F.types (PushReturn F))
      → (push F (as_provider F p) signer acc payload (default_push F) s).0 ≡ ok tx
      → tx.return_data ≢ none
  unfolding push as_provider default_push
  push-data signer acc payload s tx h = elim (Bool-cases (ltb 512000 (length payload))) [
    | inl long ↦ let bad = rw long at h in cc
    | inr short ↦ transact-data signer (F.bytes_ser_codec.encode payload) _ _ s tx (rw short at h)
  ]

  value-same :
      (absent : Result (PushReturn F)) (o : Option (PushReturn F))
      → o ≢ none
      → value_or absent o ≡ value_or unwrap_panics o
  value-same absent none h = absurd (h refl)
  value-same absent (some r) h = refl

  reported-same :
      (absent : Result (PushReturn F)) (machine : Accumulator F)
      (tx : TxReceipt F.types (PushReturn F)) (s : F.Console × (Wallet F × F.World))
      → tx.return_data ≢ none
      → report_push F absent p machine tx s ≡ report_push F unwrap_panics p machine tx s
  unfolding report_push
  reported-same absent machine tx s h = rw (value-same absent tx.return_data h) refl

  session-same :
      (absent : Result (PushReturn F)) (s : F.Console × (Wallet F × F.World))
      → accumulator_session F absent p s ≡ accumulator_session F unwrap_panics p s
  unfolding accumulator_session say
  session-same absent s =
      >>=-cong (on_world (init_sequence F (as_query_provider F p))) _ _ s λ _ sequenced.
        >>=-cong (on_world (new F (as_provider F p) (wallet_signer F) only_owner (default_gas F))) _
          _ _
          λ made deployed.
            >>=-cong
              (on_world (
                push F (as_provider F p) (wallet_signer F) made.0 (F.as_bytes "my_value")
                  (default_push F)))
              _ _ _
              λ tx pushed.
                reported-same absent made.0 tx _
                  (push-data (wallet_signer F) made.0 (F.as_bytes "my_value") _ tx pushed)

module _ (F : Foreign) where
  -- The `unwrap` of the data of the push never panics: whatever the program did instead where there
  -- is no data, it would do the same on every call and in every world.
  pub unwrap-safe :
      (absent : Result (PushReturn F)) (args : List String) (s : F.Console × F.World)
      → accumulator_push F args s ≡ accumulator_push_or F absent args s
  unfolding accumulator_push
  unwrap-safe absent args s =
      ap (λ session. with_accumulator_signer F session args s)
        (fun_ext λ p. fun_ext λ t. sym (session-same F p absent t))
