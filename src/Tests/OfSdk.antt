-- ===== src/Tests/OfSdk.antt =====
-- The theorems on the machines, in the small world.
use basin.Provider.Message.{serialize, object_upload_message}
use basin.Provider.Response.{decode_as, decode_bytes, decode_data}
use basin.Provider.Extract.{extract, parse_deliver_tx}
use basin.Signer.Subnet.{chain_id}
use basin.Prelude.{
  ◌⊎◌, ◌↔◌, ℕ, List, u64_mod, ◌<◌, parse_u64, ◌≤◌, ◌++◌, none, some, [], ◌∷◌, ◌≡◌, refl, true,
  false, arith,
}
use basin.Prelude.Bytes.{Bytes}
use basin.Result.{is_ok, ok, err, message, map_ok, halt, panic}
use basin.Run.{Run}
use basin.Foreign.Data.{StoredObject, CreateReturn, only_owner, committed}
use basin.Provider.Tx.{TxReceipt, commit, async}
use basin.Provider.Interface.{Provider}
use basin.Provider.Query.{QueryProvider, run_call}
use basin.Provider.Query.Laws.{Carries}
use basin.Provider.JsonRpc.{
  JsonRpcProvider, perform, upload as post, download, size, query, as_query_provider,
}
use basin.Provider.JsonRpc.Complete.{as_provider}
use basin.Signer.Wallet.{Wallet, ethereum, wallet_signer, new_secp256k1, set_sequence}
use basin.Sdk.Void.{void_unsent}
use basin.Signer.Void.{Void, void_signer}
use basin.Sdk.ObjectStore.{DeleteOptions, delete}
use basin.Sdk.Machine.{deploy_machine, create_request, decode_create}
use basin.Sdk.Machine.Laws.{Lacking, deploy_machine-halts_iff}
use basin.Sdk.Accumulator.{Accumulator, PushOptions, push}
use basin.Sdk.Accumulator.Laws.{accepts, push_sequence}
use basin.Sdk.ObjectStore.{ObjectStore, AddOptions, GetOptions, Reader, upload, add}
use basin.Sdk.ObjectStore.Content.{Generated, generate_cid, copy_chunks}
use basin.Sdk.ObjectStore.Access.{get, get_info, open_object}
use basin.Sdk.ObjectStore.Laws.{add_unverified, add_sequence, content, get_success}
use basin.Sdk.ObjectStore.Reading.{GivesCids, reads_end, generate_cid-end, get-written}
use basin.Sdk.ObjectStore.Sizes.{
  IsAdder, IsGreedy, read_total, generate_cid_sizes, generate_cid_whole,
}
use basin.Tests.Toy.{toy, answer, delivered}
use basin.Tests.OfSigner.{purse, gas, fresh_purse, toy_words, test_net}
use basin.Sdk.Wallets.{Operation, pushes, adds, deletes, operate_all, operate_all-IsMade}
use mathlib.Core.Option.{some-injective}

abbrev rpc : JsonRpcProvider toy
rpc = record { inner = tt; objects = some (record { url = "http://node/" }) }

abbrev node : Provider toy
node = as_provider toy rpc

deploy_machine-halts_iff_example :
    ((deploy_machine toy node (wallet_signer toy) true only_owner gas (purse, 0)).0
      ≡ halt (panic "address exists"))
    ↔ ((params : Bytes) × (m : toy.ChainMessage) × (tx : TxReceipt toy.types
          (CreateReturn toy.types))
        × (toy.create_params_codec.encode (record { kind = true; write_access = only_owner })
            ≡ ok params)
        × ((create_request toy (wallet_signer toy) gas params purse).0 ≡ ok m)
        × ((node.perform (CreateReturn toy.types) (decode_create toy) m commit 0).0 ≡ ok tx)
        × Lacking toy tx (panic "address exists"))
unfolding wallet_signer as_provider perform serialize decode_create decode_as decode_bytes
    decode_data
deploy_machine-halts_iff_example =
    deploy_machine-halts_iff toy node (wallet_signer toy) true only_owner gas purse 0
      (panic "address exists") (λ r. tt) (λ m. tt) tt

-- The chain of the small world gives no address.
address_missing :
    (deploy_machine toy node (wallet_signer toy) true only_owner gas (purse, 0)).0
    ≡ halt (panic "address exists")
unfolding deploy_machine wallet_signer as_provider perform serialize decode_create decode_as
    decode_bytes decode_data
address_missing = refl

abbrev log_of : Accumulator toy
log_of = record { address = true }

abbrev push_options : PushOptions toy
push_options = record { broadcast_mode = async; gas_params = gas }

push_sequence_example :
    ((push toy node (wallet_signer toy) log_of (1 ∷ 2 ∷ []) push_options (purse, 0)).1.0
      ≡ record purse { sequence = 8 })
    × ((accepts toy (1 ∷ 2 ∷ []) ≡ true)
        ⊎ (((push toy node (wallet_signer toy) log_of (1 ∷ 2 ∷ []) push_options (purse, 0)).1.1 ≡ 0)
            × (is_ok
                  (push toy node (wallet_signer toy) log_of (1 ∷ 2 ∷ []) push_options (purse, 0)).0
                ≡ false)))
push_sequence_example = push_sequence toy node log_of (1 ∷ 2 ∷ []) push_options purse 0

abbrev queries_of : Bytes → QueryProvider toy
queries_of b = record { query = λ q h w. (ok (answer b), 1) }

Carries-of : (b : Bytes) → Carries toy (answer b) b
Carries-of b = record {
  no_error = refl;
  envelope = b;
  proto = b;
  tx = delivered b;
  unwrapped = refl;
  decoded = refl;
  converted = refl;
  content = refl;
}

abbrev store : ObjectStore toy
store = record { address = false }

abbrev add_options : AddOptions toy
add_options = record { overwrite = false; broadcast_mode = commit; gas_params = gas; metadata = [] }

abbrev file : Reader
file = record {
  reads = ok (1 ∷ 2 ∷ 3 ∷ []) ∷ ok (4 ∷ []) ∷ [];
  rewind = ok tt;
  stream = ok (1 ∷ 2 ∷ 3 ∷ []) ∷ ok (4 ∷ []) ∷ [];
}

abbrev empty_file : Reader
empty_file = record { reads = []; rewind = ok tt; stream = [] }

abbrev generated : Generated toy
generated = record { cid = 1 ∷ []; reader_size = 4; object_size = 4 }

abbrev nothing_generated : Generated toy
nothing_generated = record { cid = []; reader_size = 0; object_size = 0 }

add_unverified_example :
    (add toy node (wallet_signer toy) store "key" empty_file add_options (purse, 0)).1 ≡ (purse, 1)
unfolding generate_cid upload post object_upload_message wallet_signer as_provider chain_id
add_unverified_example =
    add_unverified toy node (wallet_signer toy) store "key" add_options empty_file (purse, 0)
      nothing_generated refl refl refl

add_sequence_example :
    (add toy node (wallet_signer toy) store "key" file add_options (purse, 0)).1.0
    ≡ record purse { sequence = 8 }
unfolding generate_cid upload post object_upload_message wallet_signer as_provider chain_id
add_sequence_example =
    add_sequence toy node store "key" add_options file purse 0 generated [] (1 ∷ []) refl refl refl
      refl refl

toy-IsAdder : IsAdder toy
toy-IsAdder = record { consumed = λ a b. omega arith }

toy-IsGreedy : IsGreedy toy
toy-IsGreedy = record { consumed = λ a b. refl }

generate_cid_sizes_example : (4 ≡ read_total file.reads) × (4 ≤ read_total file.reads)
unfolding generate_cid
generate_cid_sizes_example =
    generate_cid_sizes toy 0 file.reads [] generated toy-IsAdder (omega arith) refl

generate_cid_whole_example : 4 ≡ read_total file.reads
unfolding generate_cid
generate_cid_whole_example =
    generate_cid_whole toy 0 file.reads [] generated toy-IsGreedy (omega arith) refl

abbrev append_to : Bytes → Run Bytes (Unit {0})
append_to b out = (ok tt, out ++ b)

abbrev get_options : GetOptions
get_options = record { range = none; height = committed }

get_success_example :
    (object : StoredObject) × (response : toy.Response) × (w' : ℕ) × ((get_info toy node store "key"
        get_options 0).0
      ≡ ok object)
    × (object.resolved ≡ true)
    × (open_object toy node store "key" get_options object
          (get_info toy node store "key" get_options 0).1
        ≡ (ok response, w'))
    × ((get toy node store append_to "key" get_options (9 ∷ [], 0)).1.0
        ≡ 9 ∷ content (toy.body_chunks response w').0)
unfolding get as_provider download size as_query_provider query run_call extract parse_deliver_tx
    decode_as parse_u64 copy_chunks
get_success_example =
    get_success toy node store append_to "key" get_options (9 ∷ []) 0 (λ b out. refl) refl

abbrev observer : Void toy
observer = record { address = true }

abbrev delete_options : DeleteOptions toy
delete_options = record { broadcast_mode = commit; gas_params = gas }

void_unsent_example :
    ((deploy_machine toy node (void_signer toy) true only_owner gas (observer, 0)).1
      ≡ (observer, 0))
    × ((push toy node (void_signer toy) log_of [] push_options (observer, 0)).1 ≡ (observer, 0))
    × ((add toy node (void_signer toy) store "key" file add_options (observer, 0)).1
        ≡ (observer, 0))
    × ((delete toy node (void_signer toy) store "key" delete_options (observer, 0)).1
        ≡ (observer, 0))
void_unsent_example =
    void_unsent toy node (observer, 0) true only_owner gas log_of [] push_options store "key" file
      add_options delete_options

abbrev gives : GivesCids toy
gives = record { pushed = λ a b. ((1 ∷ [], refl), tt); finished = λ a. tt }

generate_cid-end_example :
    map_ok (λ _. tt) (generate_cid toy 0 (ok (1 ∷ []) ∷ err (message "lost") ∷ []) [])
    ≡ reads_end (ok (1 ∷ []) ∷ err (message "lost") ∷ [])
generate_cid-end_example = generate_cid-end toy gives 0 (ok (1 ∷ []) ∷ err (message "lost") ∷ []) []

get-written_example :
    (get toy node store append_to "key" get_options (9 ∷ [], 0)).1.0 ≡ 9 ∷ 1 ∷ 2 ∷ 3 ∷ []
unfolding open_object get_info as_provider download size as_query_provider query run_call extract
    parse_deliver_tx decode_as parse_u64
get-written_example =
    get-written toy node store "key" get_options append_to (9 ∷ []) 0 (λ b out. refl)

-- A push, an object that is added, and one that is deleted.
abbrev session : List (Operation toy node)
session =
    pushes log_of (1 ∷ 2 ∷ []) push_options
    ∷ adds store "key" file add_options
    ∷ deletes store "key" delete_options
    ∷ []

abbrev spent : Wallet toy
spent = (operate_all toy node session (set_sequence toy (some 9) node.queries (fresh_purse, 0)).1).0

operate_all-IsMade_example :
    (new_secp256k1 toy 11 ethereum test_net ≡ ok (record spent { sequence = 0 }))
    × (spent.sequence < u64_mod)
unfolding new_secp256k1
operate_all-IsMade_example =
    operate_all-IsMade toy node 11 ethereum test_net fresh_purse 0 (some 9) session toy_words refl
      (λ n h. let given = some-injective 9 n h in omega arith)
