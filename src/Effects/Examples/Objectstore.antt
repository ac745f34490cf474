-- ===== src/Effects/Examples/Objectstore.antt =====
-- sdk/examples/objectstore_add.rs.
use basin.Prelude.{◌*◌, String, List, [], ◌∷◌, refl, none, some}
use basin.Prelude.Bytes.{Bytes}
use basin.Result.{ok}
use basin.Run.{Run, on_world, ◌>>=◌}
use basin.Foreign.{Foreign}
use basin.Foreign.Data.{StoredObject, only_owner, committed}
use basin.Provider.Message.{default_gas}
use basin.Provider.Http.{new_http}
use basin.Provider.JsonRpc.{JsonRpcProvider, as_query_provider}
use basin.Provider.JsonRpc.Complete.{as_provider}
use basin.Signer.Wallet.{ethereum, new_secp256k1, wallet_signer, init_sequence}
use basin.Sdk.Network.{testnet, subnet_id, rpc_url, object_api_url}
use basin.Sdk.ObjectStore.{new, add, default_add, default_query}
use basin.Sdk.ObjectStore.Access.{query}
use basin.Cli.Objectstore.{file_reader}
use basin.Examples.{key_argument}
use basin.Examples.Objectstore.{
  text_or_empty, random_file, print_objects, objectstore_session, objectstore_add,
}
use basin.Effects.{
  Within, alone, beside, none>>=, one_read, stay, temp_step, write_step, flush_step, seek_step,
  random_step, sleep_step,
}
use basin.Effects.Provider.{as_query_provider-IsQuiet, as_provider-IsFrugal}
use basin.Effects.Queries.{init_sequence-Within, query-Within}
use basin.Effects.Sdk.{add-Within, new_store-Within}
use basin.Effects.Success.Sdk.{add-Sends, new_store-Sends}
use basin.Effects.Examples.{
  Counts, Counts-none, inside, none-Counts, one-Counts, lift-Counts, say-Counts, step-Counts,
  testnet-Counts, with_signer-Counts,
}

module _ (F : Foreign) where
  random_file-Within : Within F (alone F) 0 (random_file F)
  unfolding random_file
  random_file-Within =
      let fill : Run F.World Bytes =
        λ w. (ok (F.random_bytes (1024 * 1024) w).0, (F.random_bytes (1024 * 1024) w).1) in
      let flush_on : F.File → Run F.World F.File = λ f. F.file_flush f >>= F.file_seek_start in
      let write_on : F.File → Bytes → Run F.World F.File =
        λ f b. F.file_write_all b f >>= flush_on in
      none>>= F (alone F) 0 F.temp_file (λ f. fill >>= write_on f) (one_read F _ temp_step)
        λ f. none>>= F (alone F) 0 fill (write_on f) (one_read F _ (random_step (1024 * 1024))) λ b.
          none>>= F (alone F) 0 (F.file_write_all b f) flush_on (one_read F _ (write_step b f)) λ g.
            none>>= F (alone F) 0 (F.file_flush g) F.file_seek_start (one_read F _ (flush_step g))
              λ h. one_read F _ (seek_step h)

  print_objects-Counts :
      (objects : List (Bytes × StoredObject)) → Counts F (inside F) 0 (print_objects F objects)
  unfolding print_objects
  print_objects-Counts [] = Counts-none F (inside F) _ λ s. stay 0 s.1.1
  print_objects-Counts ((key_bytes, object) ∷ rest) =
      let more = print_objects-Counts rest in
      lift-Counts F (inside F) 0 (text_or_empty (F.from_utf8 key_bytes)) _ λ key.
        lift-Counts F (inside F) 0 (F.cid_of_bytes object.cid) _
          λ cid. say-Counts F (inside F) (λ c d w. refl) 0 _ _ more

  objectstore_session-Counts :
      (p : JsonRpcProvider F) → Counts F (inside F) 2 (objectstore_session F p)
  unfolding objectstore_session
  objectstore_session-Counts p =
      let quiet = as_query_provider-IsQuiet F p in
      let frugal = as_provider-IsFrugal F p in
      let provider = as_provider F p in
      let signer = wallet_signer F in
      let sequenced = init_sequence-Within F (as_query_provider F p) quiet in
      step-Counts F (inside F) 2 (on_world (init_sequence F (as_query_provider F p))) _
        (λ s. sequenced s.1)
        (one-Counts F (inside F) 1 (on_world (new F provider signer only_owner (default_gas F))) _
          (λ s. new_store-Within F provider frugal signer only_owner (default_gas F) s.1)
          (λ s. new_store-Sends F p signer only_owner (default_gas F) s.1)
          λ made.
            say-Counts F (inside F) (λ c d w. refl) 1 _ _
              (say-Counts F (inside F) (λ c d w. refl) 1 _ _
                (none-Counts F (inside F) 1 (on_world (on_world (random_file F))) _
                  (λ s. random_file-Within s.1.1)
                  λ file.
                    let reader = file_reader F file in
                    one-Counts F (inside F) 0
                      (on_world (add F provider signer made.0 "foo/my_file" reader (default_add F)))
                      _
                      (λ s.
                        add-Within F provider frugal signer made.0 "foo/my_file" reader
                          (default_add F) s.1)
                      (λ s. add-Sends F p signer made.0 "foo/my_file" reader (default_add F) s.1)
                      λ tx.
                        say-Counts F (inside F) (λ c d w. refl) 0 _ _
                          (say-Counts F (inside F) (λ c d w. refl) 0 _ _
                            (step-Counts F (inside F) 0
                              (on_world (on_world (λ w. (ok tt, F.sleep 2 w)))) _
                              (λ s. one_read F _ (sleep_step 2) s.1.1)
                              (let options = record (default_query committed) { prefix = "foo/" } in
                                none-Counts F (inside F) 0
                                  (on_world (on_world (query F provider made.0 options))) _
                                  (λ s. query-Within F provider frugal made.0 options s.1.1)
                                  λ list. print_objects-Counts list.objects))))))

  pub objectstore_add-Counts : (args : List String) → Counts F (beside F) 2 (objectstore_add F args)
  unfolding objectstore_add
  objectstore_add-Counts args = lift-Counts F (beside F) 2 (key_argument F args) _ λ sk.
      testnet-Counts F 2 _ (
        lift-Counts F (beside F) 2 (rpc_url F testnet) _ λ url.
          lift-Counts F (beside F) 2 (object_api_url F testnet) _ λ objects.
            lift-Counts F (beside F) 2 (new_http F url none (some objects)) _ λ provider.
              lift-Counts F (beside F) 2 (subnet_id F testnet) _ λ id.
                lift-Counts F (beside F) 2 (new_secp256k1 F sk ethereum id) _
                  λ wallet. with_signer-Counts F 2 wallet _ (objectstore_session-Counts provider))
