-- ===== src/Examples/Account/Laws.antt =====
-- The example that deposits, and the command that does.
use basin.Prelude.{String, List, ◌∷◌, ◌≡◌, refl, ◌∙◌, sym, false, none, arith}
use basin.Result.{Result, ok, err, halt, is_ok}
use basin.Run.{Run}
use basin.Foreign.{Foreign}
use basin.Provider.JsonRpc.{JsonRpcProvider}
use basin.Signer.Key.{parse_secret_key}
use basin.Signer.Subnet.{SubnetId}
use basin.Sdk.Network.{testnet, init, rpc_timeout, subnet_id, parent_subnet_config, default_subnet}
use basin.Cli.Choice
use basin.Cli.{Cli, SubnetArgs, get_parent_subnet_config, get_subnet_id}
use basin.Cli.Command.{Document, rpc_provider, printing, print_json}
use basin.Cli.Account.{FundArgs, deposit_funds, deposit_from_parent, run_account, handle_account}
use basin.Cli.Main.{main, account}
use basin.Examples.{say, key_argument}
use basin.Examples.Account.{account_deposit}

module _ (F : Foreign) where
  -- A command line that chooses the test network and overrides nothing.
  abbrev pub plain_cli : Cli F
  plain_cli = record { network = Choice.testnet; subnet = none; rpc_url = none }

  abbrev pub plain_subnet : SubnetArgs F
  plain_subnet = record {
    evm_rpc_url = none;
    evm_rpc_timeout = rpc_timeout;
    evm_rpc_auth_token = none;
    evm_gateway = none;
    evm_registry = none;
  }

  -- A deposit of one token to the account of the key.
  abbrev pub one_token : F.SecretKey → FundArgs F
  one_token sk = record {
    private_key = sk;
    to = none;
    amount = F.tokens_from_whole 1;
    subnet = plain_subnet;
  }

  config-same :
      (id : SubnetId F)
      → subnet_id F testnet ≡ ok id
      → get_parent_subnet_config F plain_cli id plain_subnet
        ≡ parent_subnet_config F testnet default_subnet
  unfolding get_parent_subnet_config parent_subnet_config default_subnet
  config-same id h = rw h (ground arith)

  printing-world :
      (pretty : Document F → Result String) (m : Run F.World (Document F)) (s : F.Console × F.World)
      → (printing F pretty m s).1.1 ≡ (m s.1).1
  unfolding printing print_json
  printing-world pretty m s = ground arith

  key_argument-ok :
      (name key : String) (rest : List String) (sk : F.SecretKey)
      → parse_secret_key F key ≡ ok sk
      → key_argument F (name ∷ key ∷ rest) ≡ ok sk
  unfolding key_argument
  key_argument-ok name key rest sk h = ground arith

  module _ (name key : String) (rest : List String) (sk : F.SecretKey) (c : F.Console) (w : F.World)
      (given : parse_secret_key F key ≡ ok sk) where
    deposited-same :
        (id : SubnetId F)
        → subnet_id F testnet ≡ ok id
        → (account_deposit F (name ∷ key ∷ rest) (c, w)).1.1
          ≡ (deposit_from_parent F plain_cli id
              (one_token sk)
              (F.set_current_network (init testnet) w)).1
    unfolding account_deposit deposit_from_parent say
    deposited-same id found =
        rw (key_argument-ok name key rest sk given, found, config-same id found) (ground arith)

    network_only :
        (r : Result (SubnetId F))
        → subnet_id F testnet ≡ r
        → is_ok r ≡ false
        → (account_deposit F (name ∷ key ∷ rest) (c, w)).1.1
          ≡ F.set_current_network (init testnet) w
    unfolding account_deposit
    network_only (ok id) e h = cc
    network_only (err x) e h = rw (key_argument-ok name key rest sk given, e) refl
    network_only (halt x) e h = rw (key_argument-ok name key rest sk given, e) refl

    module _ (pretty : Document F → Result String) (p : JsonRpcProvider F)
        (usable : rpc_provider F plain_cli none ≡ ok p) where
      by_id :
          (r : Result (SubnetId F))
          → subnet_id F testnet ≡ r
          → (account_deposit F (name ∷ key ∷ rest) (c, w)).1.1
            ≡ (main F pretty plain_cli (account (deposit_funds (one_token sk))) (c, w)).1.1
      unfolding main handle_account run_account get_subnet_id
      by_id (ok id) e =
          deposited-same id e
          ∙ rw (usable, e)
              (sym
                (printing-world pretty (deposit_from_parent F plain_cli id (one_token sk)) (c, _)))
      by_id (err x) e = network_only (err x) e refl ∙ rw (usable, e) refl
      by_id (halt x) e = network_only (halt x) e refl ∙ rw (usable, e) refl

      -- With a key that can be read, and if a client of the test network's node can be made: the
      -- example leaves the world as the command does that deposits one token on the test network
      -- and overrides nothing.
      pub deposit-main :
          (account_deposit F (name ∷ key ∷ rest) (c, w)).1.1
          ≡ (main F pretty plain_cli (account (deposit_funds (one_token sk))) (c, w)).1.1
      deposit-main = by_id (subnet_id F testnet) refl
