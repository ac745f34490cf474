-- ===== src/Tests/OfExamples.antt =====
-- The theorems on the examples, in a small world in which machines get an address.
use basin.Prelude.{String, List, [], ◌∷◌, ◌≡◌, refl, true, some}
use basin.Result.{err, message}
use basin.Foreign.{Foreign}
use basin.Examples.{key_argument, say}
use basin.Examples.Accumulator.{accumulator_session, report_push, with_accumulator_signer}
use basin.Prelude.{decimal, is_digit, parse_u64, scan, trim, trim_end, trim_start}
use basin.Provider.Extract.{extract, extract_actor_state, extract_opt, parse_deliver_tx}
use basin.Provider.Http.{get_http_proxy_url, http_client, new_http}
use basin.Provider.JsonRpc.{
  as_query_provider, download as node_download, format_err, perform, query as node_query,
  size as node_size, upload as node_upload,
}
use basin.Provider.JsonRpc.Complete.{as_provider}
use basin.Provider.Message.{default_gas, local_message, serialize}
use basin.Provider.Query.{run_actor_state, run_call}
use basin.Provider.Response.{decode_as, decode_bytes, decode_cid, decode_data, encode_data}
use basin.Provider.Tx.{committed_receipt, pending_receipt}
use basin.Provider.Util.{parse_address}
use basin.Sdk.Accumulator.{
  attach, count, decode_push_return, default_push, leaf, new as new_accumulator, push as push_to,
  root,
}
use basin.Sdk.Machine.{decode_create, deploy_machine, deployed}
use basin.Sdk.Network.{init, rpc_url, subnet_id}
use basin.Signer.Key.{parse_secret_key}
use basin.Signer.Subnet.{chain_id, subnet_of_text}
use basin.Signer.Subnet.Split.{split}
use basin.Signer.Wallet.{init_sequence, message_of, new_secp256k1, transaction, wallet_signer}
use basin.Examples.Accumulator.{accumulator_push, accumulator_push_or}
use basin.Examples.Accumulator.Laws.{unwrap-safe}
use basin.Prelude.{none}
use basin.Result.{ok, Result}
use basin.Cli.Command.{Document, rpc_provider}
use basin.Cli.{get_rpc_url}
use basin.Cli.Account.{deposit_funds}
use basin.Cli.Main.{main, account}
use basin.Examples.Account.{account_deposit}
use basin.Examples.Account.Laws.{plain_cli, one_token, deposit-main}
use basin.Effects.{Reaches}
use basin.Effects.Examples.{Submissions}
use basin.Effects.Examples.Programs.{
  run_program, fill_accumulator, program-exactly, program-at_most,
}
use basin.Tests.Toy.{toy}
use basin.Tests.Encodings.{always}

abbrev maker : Foreign
maker = record toy {
  codecs = record toy.codecs {
    create_return_codec = always _ (record { robust_address = some true });
  };
}

abbrev call : List String
call = "accumulator_push" ∷ "0x11" ∷ []

program-exactly_example :
    Submissions maker 2 0 (run_program maker fill_accumulator call ([], 0)).1.1
unfolding key_argument say accumulator_session report_push with_accumulator_signer decimal is_digit
    parse_u64 scan trim trim_end trim_start extract extract_actor_state extract_opt parse_deliver_tx
    get_http_proxy_url http_client new_http as_query_provider node_download format_err perform
    node_query node_size node_upload as_provider default_gas local_message serialize run_actor_state
    run_call decode_as decode_bytes decode_cid decode_data encode_data committed_receipt
    pending_receipt parse_address attach count decode_push_return default_push leaf new_accumulator
    push_to root decode_create deploy_machine deployed init rpc_url subnet_id parse_secret_key
    chain_id subnet_of_text split init_sequence message_of new_secp256k1 transaction wallet_signer
    accumulator_push accumulator_push_or
program-exactly_example = program-exactly maker fill_accumulator call [] 0 refl

program-at_most_example : Reaches maker 2 0 (run_program maker fill_accumulator call ([], 0)).1.1
program-at_most_example = program-at_most maker fill_accumulator call [] 0

unwrap-safe_example :
    accumulator_push maker call ([], 0)
    ≡ accumulator_push_or maker (err (message "no data")) call ([], 0)
unwrap-safe_example = unwrap-safe maker (err (message "no data")) call ([], 0)

abbrev silent : Document toy → Result String
silent d = ok "{}"

deposit-main_example :
    (account_deposit toy call ([], 0)).1.1
    ≡ (main toy silent (plain_cli toy) (account (deposit_funds (one_token toy 2))) ([], 0)).1.1
unfolding parse_secret_key trim rpc_provider get_rpc_url rpc_url new_http
deposit-main_example =
    deposit-main toy "accumulator_push" "0x11" [] 2 [] 0 refl silent
      (record { inner = tt; objects = none }) refl
