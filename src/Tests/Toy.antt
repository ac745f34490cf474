-- ===== src/Tests/Toy.antt =====
-- The small world itself. A request to the network counts the world up by one.
use basin.Prelude.{
  ◌<>◌, ℕ, suc, ◌+◌, ◌*◌, ◌^◌, ◌==◌, str_eq, if◌then◌else◌, String, Bool, true, false, not, none,
  some, List, [], ◌∷◌, length, u64_mod, decimal,
}
use basin.Prelude.Int.{ℤ, pos, negsuc}
use basin.Prelude.Bytes.{Bytes}
use basin.Result.{ok, err, message}
use basin.Foreign.{Foreign, Codecs, Chain, Addresses, Net, parsed, refused, other_error}
use basin.Foreign.Evm.{Eth}
use basin.Foreign.Host.{System}
use basin.Foreign.Data.{
  Types, QueryHeight, committed, pending, at_height, https, AbciQuery, CommitAnswer, DeliverTx,
  StoredObject,
}
use basin.Foreign.Laws.{IsBase64}
use basin.Tests.Encodings.{
  encode_only, always, numbers, plain, maybes, to_text, of_text, of_text-to_text, codes, of_codes,
  of_codes-codes, unbounded,
}

abbrev pub toy_types : Types
toy_types = record {
  World = ℕ;
  Address = Bool;
  TokenAmount = ℤ;
  EthAddress = Bool;
  SecretKey = ℕ;
  Signature = ℕ;
  Cid = Bytes;
  Hash = ℕ;
  Height = ℕ;
  Code = ℕ;
  MessageObject = Bytes;
  SignedMessage = ℕ;
  ChainMessage = ℕ;
  RealSubnet = ℕ × List Bool;
  Url = String;
  HttpClient = Unit {0};
  Response = Bool;
  HeaderValue = String;
  StateParams = Unit {0};
  GasEstimate = ℕ;
  ProtoDeliverTx = Bytes;
  Kind = Bool;
  Adder = ℕ;
  EthProvider = String;
  LocalWallet = ℕ × ℕ;
  PendingTx = ℕ;
  EthReceipt = ℕ;
  WebClient = Unit {0};
  WsUrl = String;
  WsClient = Unit {0};
  GatewaySubnet = ℕ;
  FvmAddress = Bool;
  ActorEthAddress = Bool;
  Console = List Bytes;
  File = Bytes;
  Input = Bytes;
  InputReader = Bytes;
}

abbrev pub delivered : Bytes → DeliverTx toy_types
delivered b = record { code = 0; tx_data = b; info = ""; log = ""; gas_used = pos 21 }

abbrev pub resolved_object : StoredObject
resolved_object = record { cid = 1 ∷ []; resolved = true; size = 3; metadata = [] }

abbrev toy_codecs : Codecs toy_types
toy_codecs = record {
  query_codec = encode_only _;
  chain_codec = numbers;
  signed_codec = numbers;
  u64_codec = numbers;
  bytes_codec = plain;
  bytes_ser_codec = plain;
  maybe_bytes_codec = maybes;
  cid_codec = plain;
  cids_codec = always _ [];
  actor_state_codec = always _ (record { sequence = 40 });
  state_params_codec = always _ tt;
  gas_estimate_codec = numbers;
  registry_codec = always _ [];
  create_params_codec = encode_only _;
  create_return_codec = always _ (record { robust_address = none });
  list_params_codec = encode_only _;
  adm_list_codec = always _ [];
  machine_codec = always _ (record { kind = true; owner = false });
  push_return_codec = always _ (record { root = []; index = 4 });
  add_params_codec = encode_only _;
  delete_params_codec = plain;
  get_params_codec = plain;
  maybe_object_codec = always _ (some resolved_object);
  query_params_codec = encode_only _;
  object_list_codec = always _ (record { objects = []; common_prefixes = [] });
  base64_encode = to_text;
  base64_decode = of_text;
  url_safe_encode = to_text;
  as_bytes = codes;
  from_utf8 = of_codes;
  proto_decode = ok;
  deliver_tx_of_proto = λ b. ok (delivered b);
}

abbrev height_to_number : QueryHeight → ℕ
height_to_number committed = 0
height_to_number pending = u64_mod
height_to_number (at_height n) = n

abbrev name_of : Bool → String
name_of true = "f1"
name_of false = "f2"

abbrev toy_chain : Chain toy_types
toy_chain = record {
  system_actor = true;
  adm_actor = false;
  zero_tokens = pos 0;
  big_int_of_text = λ s. ok (negsuc 2);
  tokens_from_atto = λ n. n;
  tokens_from_nano = λ n. pos (n * 10 ^ 9);
  tokens_from_whole = λ n. pos (n * 10 ^ 18);
  atto = λ n. n;
  tokens_text = λ n. "tokens";
  block_gas_limit = 1000;
  default_cid = [];
  hash_text = λ h. decimal h;
  cid_text = to_text;
  cid_of_text = λ s. ok (1 ∷ []);
  cid_of_bytes = λ b. elim b [ [] ↦ err (message "no CID") | c ∷ bs ↦ ok (c ∷ bs) ];
  cid_eq = λ a b. length a == length b;
  address_text = name_of;
  height_of = ok;
  height_number = height_to_number;
  code_value = λ c. c;
  code_is_err = λ c. not (c == 0);
  usr_not_found = 17;
  kind_text = λ k. if k then "objectstore" else "accumulator";
  object_store_kind = true;
  accumulator_kind = false;
  create_external_method = 2;
  list_metadata_method = 3;
  get_metadata_method = 4;
  push_method = 5;
  get_method = 6;
  count_method = 7;
  peaks_method = 8;
  root_method = 9;
  add_object_method = 10;
  delete_object_method = 11;
  get_object_method = 12;
  list_objects_method = 13;
  message_object = λ key cid to. key;
  sign_secp256k1 = λ m o sk id. ok m.sequence;
  verify_signature = λ m o s id. ok tt;
  signed = λ m. m;
  regular_address = λ sk. ok true;
  ethereum_address = λ sk. ok false;
  actor_eth_address = λ k. ok true;
  address_of_eth = λ a. a;
  actor_eth_text = λ a. "0x0";
  hex_decode = λ s. ok (codes s);
  secret_key_of = λ b. ok (length b);
  hex_encode = to_text;
  secret_bytes = λ k. k ∷ [];
  delegated = ok;
  invalid_id = λ id s. message s;
  real_default = (0, []);
  real_new = λ r cs. (r, cs);
  real_parent = λ r. elim r.1 [ [] ↦ none | c ∷ cs ↦ some (r.0, []) ];
  real_is_root = λ r. length r.1 == 0;
  real_root_id = λ r. r.0;
  real_chain_id = λ r. r.0;
  real_children = λ r. r.1;
  max_chain_id = 1000;
  adder_new = λ n. 0;
  adder_push = λ a b. ((((1 ∷ []) ∷ []), length b), a + length b);
  adder_finish = λ a. [];
  fnv_hash = λ b. length b;
}

abbrev toy_addresses : Addresses toy_types
toy_addresses = record {
  parse_mainnet = λ s.
      if str_eq s "f1"
      then parsed true
      else if str_eq s "f2"
      then parsed false
      else refused other_error;
  parse_testnet = λ s. refused other_error;
  parse_ethereum = λ s. ok true;
}

abbrev pub accepted : CommitAnswer toy_types
accepted = record {
  check_tx = record { code = 0; info = ""; log = "" };
  deliver_tx = delivered [];
  hash = 5;
  height = 9;
}

-- The answer to a query whose call returned the given bytes.
abbrev pub answer : Bytes → AbciQuery toy_types
answer b = record { code = 0; info = ""; key = 3 ∷ []; value = b; height = 8 }

abbrev toy_net : Net toy_types
toy_net = record {
  env_var = λ s. none;
  url_of_text = ok;
  url_scheme = λ u. https;
  client_new = λ u. ok tt;
  client_new_with_proxy = λ u p. ok tt;
  abci_query = λ c b h w. (ok (answer (7 ∷ [])), suc w);
  broadcast_tx_async = λ c b w. (ok (record { hash = 5 }), suc w);
  broadcast_tx_sync = λ c b w. (ok (record { code = 0; log = ""; hash = 5 }), suc w);
  broadcast_tx_commit = λ c b w. (ok accepted, suc w);
  ws_text = λ u. u;
  ws_new = λ u w. (ok tt, suc w);
  url_text = λ u. u;
  post_object = λ u id m body n w. (ok true, suc w);
  get_object = λ u range w. (ok true, suc w);
  head_object = λ u w. (ok true, suc w);
  is_success = λ r. r;
  body_text = λ r w. (ok "a", w);
  content_length = λ r. some "3";
  header_text = ok;
  body_chunks =
      λ r w. ((ok (1 ∷ 2 ∷ []), suc w) ∷ (ok (3 ∷ []), suc (suc w)) ∷ [], suc (suc (suc w)));
}

abbrev pub toy_eth : Eth toy_types
toy_eth = record {
  bearer_text = λ t. "Bearer " <> t;
  header_of_text = ok;
  build_client = λ h t. ok tt;
  eth_provider = λ u c n. u;
  local_wallet = λ b. ok (length b, 0);
  with_chain_id = λ w n. (w.0, n);
  get_balance = λ p a w. (ok 6, suc w);
  as_u128 = ok;
  to_u128 = λ x. elim x [ pos n ↦ some n | negsuc n ↦ none ];
  fil_to_eth_amount = λ x. elim x [ pos n ↦ ok n | negsuc n ↦ err (message "negative") ];
  gateway_subnet = λ r. ok r.0;
  fvm_address = ok;
  latest_base_fee = λ s w. (ok (some (some 100)), suc w);
  fee_history = λ s w. (ok ((90 ∷ []) ∷ []), suc w);
  threshold_max_change = pos 200;
  send_call = λ c w. (ok 1, suc w);
  await_retries = λ p n w. (ok (some 2), suc w);
  send_transaction = λ s t w. (ok 1, suc w);
  await_receipt = λ p w. (ok (some 2), suc w);
  eth_text = name_of;
  receipt_hash = λ r. r ∷ [];
}

-- The terminal is the list of the bytes and lines that it shows, the last one first.
abbrev toy_host : System toy_types
toy_host = record {
  println = λ s c. codes s ∷ c;
  stdout_write_all = λ b c. (ok tt, b ∷ c);
  file_open = λ s w. (ok (codes s), suc w);
  file_is_file = λ f w. (ok true, w);
  file_reads = λ f. ok f ∷ [];
  file_rewind = λ f. ok tt;
  hash_map_of = λ entries. entries;
  file_stream = λ f. ok f ∷ [];
  open_input = λ i w. (ok i, suc w);
  read_to_end = λ i w. (ok i, suc w);
  temp_file = λ w. (ok [], suc w);
  file_write_all = λ b f w. (ok b, suc w);
  file_flush = λ f w. (ok f, suc w);
  file_seek_start = λ f w. (ok f, suc w);
  random_bytes = λ n w. (1 ∷ 2 ∷ 3 ∷ [], suc w);
  sleep = λ n w. suc w;
  random_key = λ w. (ok 77, suc w);
  set_current_network = λ n w. w;
}

abbrev pub toy : Foreign
toy = record {
  types = toy_types;
  codecs = toy_codecs;
  chain = toy_chain;
  addresses = toy_addresses;
  net = toy_net;
  ints = unbounded;
  eth = toy_eth;
  host = toy_host;
}

pub toy-IsBase64 : IsBase64 toy
toy-IsBase64 = record { decode-encode = of_text-to_text; from-as = of_codes-codes }
