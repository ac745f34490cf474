-- ===== src/Effects/Examples/Accumulator.antt =====
-- sdk/examples/accumulator_push.rs.
use basin.Prelude.{String, List, refl, none}
use basin.Result.{Result}
use basin.Run.{on_world}
use basin.Foreign.{Foreign}
use basin.Foreign.Data.{only_owner, committed}
use basin.Provider.Tx.{TxReceipt}
use basin.Provider.Message.{default_gas}
use basin.Provider.Http.{new_http}
use basin.Provider.JsonRpc.{JsonRpcProvider, as_query_provider}
use basin.Provider.JsonRpc.Complete.{as_provider}
use basin.Signer.Wallet.{ethereum, new_secp256k1, wallet_signer, init_sequence}
use basin.Sdk.Network.{testnet, subnet_id, rpc_url}
use basin.Sdk.Accumulator.{Accumulator, PushReturn, new, push, leaf, count, root, default_push}
use basin.Examples.{key_argument}
use basin.Examples.Accumulator.{
  value_or, unwrap_panics, unwrap_or_stop, report_push, accumulator_session, accumulator_push,
}
use basin.Effects.{beside}
use basin.Effects.Provider.{as_query_provider-IsQuiet, as_provider-IsFrugal}
use basin.Effects.Queries.{init_sequence-Within, leaf-Within, count-Within, root-Within}
use basin.Effects.Sdk.{push-Within, new_accumulator-Within}
use basin.Effects.Success.Sdk.{push-Sends, new_accumulator-Sends}
use basin.Effects.Examples.{
  Counts, inside, none-Counts, one-Counts, lift-Counts, say-Counts, last-Counts, step-Counts,
  testnet-Counts, with_signer-Counts,
}

module _ (F : Foreign) where
  module _ (absent : Result (PushReturn F)) (p : JsonRpcProvider F) where
    report_push-Counts :
        (acc : Accumulator F) (tx : TxReceipt F.types (PushReturn F))
        → Counts F (inside F) 0 (report_push F absent p acc tx)
    unfolding report_push
    report_push-Counts acc tx =
        let queries = as_query_provider F p in
        let quiet = as_query_provider-IsQuiet F p in
        lift-Counts F (inside F) 0 (value_or absent tx.return_data) _ λ returned.
          say-Counts F (inside F) (λ c d w. refl) 0 _ _
            (say-Counts F (inside F) (λ c d w. refl) 0 _ _
              (none-Counts F (inside F) 0 (on_world (on_world (leaf F queries acc 0 committed))) _
                (λ s. leaf-Within F queries quiet acc committed 0 s.1.1)
                λ value. lift-Counts F (inside F) 0 (unwrap_or_stop (F.from_utf8 value)) _ λ text.
                  say-Counts F (inside F) (λ c d w. refl) 0 _ _
                    (none-Counts F (inside F) 0
                      (on_world (on_world (count F queries acc committed))) _
                      (λ s. count-Within F queries quiet acc committed s.1.1)
                      λ n.
                        say-Counts F (inside F) (λ c d w. refl) 0 _ _
                          (none-Counts F (inside F) 0
                            (on_world (on_world (root F queries acc committed))) _
                            (λ s. root-Within F queries quiet acc committed s.1.1)
                            λ cid. last-Counts F (inside F) (λ c d w. refl) _))))

    accumulator_session-Counts : Counts F (inside F) 2 (accumulator_session F absent p)
    unfolding accumulator_session
    accumulator_session-Counts =
        let quiet = as_query_provider-IsQuiet F p in
        let frugal = as_provider-IsFrugal F p in
        let provider = as_provider F p in
        let signer = wallet_signer F in
        let sequenced = init_sequence-Within F (as_query_provider F p) quiet in
        step-Counts F (inside F) 2 (on_world (init_sequence F (as_query_provider F p))) _
          (λ s. sequenced s.1)
          (one-Counts F (inside F) 1 (on_world (new F provider signer only_owner (default_gas F))) _
            (λ s. new_accumulator-Within F provider frugal signer only_owner (default_gas F) s.1)
            (λ s. new_accumulator-Sends F p signer only_owner (default_gas F) s.1)
            λ made.
              say-Counts F (inside F) (λ c d w. refl) 1 _ _
                (say-Counts F (inside F) (λ c d w. refl) 1 _ _
                  (let payload = F.as_bytes "my_value" in
                    one-Counts F (inside F) 0
                      (on_world (push F provider signer made.0 payload (default_push F))) _
                      (λ s.
                        push-Within F provider frugal signer made.0 payload (default_push F) s.1)
                      (λ s. push-Sends F p signer made.0 payload (default_push F) s.1)
                      λ tx. report_push-Counts made.0 tx)))

  pub accumulator_push-Counts :
      (args : List String) → Counts F (beside F) 2 (accumulator_push F args)
  unfolding accumulator_push
  accumulator_push-Counts args = lift-Counts F (beside F) 2 (key_argument F args) _ λ sk.
      testnet-Counts F 2 _ (
        lift-Counts F (beside F) 2 (rpc_url F testnet) _ λ url.
          lift-Counts F (beside F) 2 (new_http F url none none) _ λ provider.
            lift-Counts F (beside F) 2 (subnet_id F testnet) _ λ id.
              lift-Counts F (beside F) 2 (new_secp256k1 F sk ethereum id) _ λ wallet.
                with_signer-Counts F 2 wallet _ (accumulator_session-Counts unwrap_panics provider))
