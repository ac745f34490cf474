-- ===== src/Tests/OfCommands.antt =====
-- The theorems on the commands of the command line, in the small world.
use basin.Prelude.{◌≡◌, refl, none, some, true, false, [], ◌∷◌, String}
use basin.Result.{Result, ok, err, message}
use basin.Foreign.Data.{committed}
use basin.Provider.Message.{serialize}
use basin.Provider.JsonRpc.{JsonRpcProvider}
use basin.Signer.Subnet.{SubnetId, chain_id, subnet_of_text}
use basin.Sdk.Network.{rpc_url, subnet_id}
use basin.Signer.Subnet.Split.{split}
use basin.Prelude.{parse_u64}
use basin.Provider.Util.{parse_address}
use basin.Cli.Choice
use basin.Cli.{Cli, TxArgs, to_tx_params, get_rpc_url, get_subnet_id}
use basin.Cli.Command.{Document, rpc_provider, printing, print_json, with_wallet}
use basin.Cli.Accumulator.{
  PushArgs, push_input, push_value, get_count, handle_accumulator, run_accumulator,
}
use basin.Cli.Accumulator.Laws.{push_input-world}
use basin.Cli.Main.{main, accumulator}
use basin.Provider.Http.{new_http}
use basin.Provider.Response.{decode_as, decode_bytes, decode_data}
use basin.Sdk.Accumulator.{push, decode_push_return}
use basin.Effects.Success.{Submitted}
use basin.Effects.Success.Cli.Main.{main-Submitted}
use basin.Cli.Main.Laws.{main-mainnet}
use basin.Cli.Main.Output.{Reports, main-Reports}
use basin.Cli.Objectstore.{PutArgs, put_file, file_reader}
use basin.Provider.Message.{object_upload_message}
use basin.Provider.JsonRpc.{upload as post, perform}
use basin.Provider.JsonRpc.Complete.{as_provider}
use basin.Signer.Wallet.{wallet_signer, new_secp256k1, set_sequence}
use basin.Sdk.ObjectStore.{upload}
use basin.Sdk.ObjectStore.Content.{Generated, generate_cid}
use basin.Effects.Cli.Unverified.{put_file-unverified}
use basin.Effects.{Reaches}
use basin.Effects.Cli.Main.{main-Within}
use basin.Tests.Toy.{toy}

abbrev json : Document toy → Result String
json d = ok "json"

abbrev no_options : TxArgs toy
no_options = record { gas_limit = none; gas_fee_cap = none; gas_premium = none; sequence = some 9 }

abbrev push_args : PushArgs toy
push_args = record {
  private_key = 77;
  address = true;
  input = 1 ∷ 2 ∷ [];
  broadcast_mode = Choice.commit;
  tx_args = no_options;
}

abbrev rpc : JsonRpcProvider toy
rpc = record { inner = tt; objects = none }

abbrev net : SubnetId toy
net = record { faux = "test"; real = (0, []) }

push_input-world_example : (push_input toy rpc net push_args 0).1 ≡ 3
unfolding serialize
push_input-world_example =
    push_input-world toy rpc net push_args 9 false (1 ∷ 2 ∷ []) (1 ∷ 2 ∷ []) 0 1 2 refl refl refl
      refl

abbrev on_mainnet : Cli toy
on_mainnet = record { network = Choice.mainnet; subnet = some net; rpc_url = some "http://here/" }

main-mainnet_example :
    main toy json on_mainnet (accumulator (push_value push_args)) ([], 0)
    ≡ (err (message "network is pre-mainnet"), ([], 0))
main-mainnet_example =
    main-mainnet toy json on_mainnet (accumulator (push_value push_args)) [] 0 refl

abbrev on_testnet : Cli toy
on_testnet = record { network = Choice.testnet; subnet = some net; rpc_url = none }

main-Reports_example : Reports toy json [] (
    main toy json on_testnet
      (accumulator (get_count (record { address = true; height = committed })))
      ([], 0))
main-Reports_example =
    main-Reports toy json on_testnet
      (accumulator (get_count (record { address = true; height = committed }))) [] 0 refl

main-Within_example :
    Reaches toy 1 0 (main toy json on_testnet (accumulator (push_value push_args)) ([], 0)).1.1
main-Within_example = main-Within toy json on_testnet (accumulator (push_value push_args)) [] 0

abbrev put_args : PutArgs toy
put_args = record {
  private_key = 77;
  object_api_url = none;
  address = true;
  key = "key";
  overwrite = false;
  input = "";
  broadcast_mode = Choice.commit;
  tx_args = no_options;
  metadata = ("k", "1") ∷ [];
}

-- The CID of the empty file is empty, and the object API answers with another.
abbrev nothing_generated : Generated toy
nothing_generated = record { cid = []; reader_size = 0; object_size = 0 }

abbrev with_objects : JsonRpcProvider toy
with_objects = record { inner = tt; objects = some (record { url = "http://node/" }) }

put_file-unverified_example : Reaches toy 0 0 (put_file toy with_objects net put_args 0).1
unfolding generate_cid upload post object_upload_message wallet_signer as_provider chain_id
    file_reader
put_file-unverified_example =
    put_file-unverified toy with_objects net put_args 9 false [] nothing_generated 0 1 1 refl refl
      refl refl refl refl refl

main-Submitted_example :
    Submitted toy 0 (main toy json on_testnet (accumulator (push_value push_args)) ([], 0)).1.1
unfolding main handle_accumulator run_accumulator rpc_provider get_rpc_url get_subnet_id rpc_url
    subnet_id subnet_of_text new_http printing print_json push_input with_wallet new_secp256k1
    set_sequence push wallet_signer as_provider perform serialize decode_push_return decode_as
    decode_bytes decode_data split parse_u64 parse_address to_tx_params
main-Submitted_example =
    main-Submitted toy json on_testnet (accumulator (push_value push_args)) [] 0 refl refl
