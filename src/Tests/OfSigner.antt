-- ===== src/Tests/OfSigner.antt =====
-- The theorems on the signers, in the small world.
use basin.Provider.Util.{parse_address}
use basin.Signer.Subnet.Split.{split}
use basin.Prelude.{
  ℕ, ◌+◌, ◌%◌, List, u64_mod, ◌≢◌, Lacks, parse_u64, Bool, ◌<◌, none, some, [], ◌∷◌, ◌≡◌, refl,
  true, false, arith, get_elem?, ap,
}
use basin.Prelude.Int.{pos}
use basin.Result.{ok, err, message, is_ok}
use basin.Foreign.Data.{pending}
use basin.Provider.Message.{GasParams}
use basin.Provider.Query.{QueryProvider, run_actor_state}
use basin.Signer.Subnet.{SubnetId, subnet_text, subnet_of_text, chain_id, parent}
use basin.Signer.Subnet.Laws.{IsSubnetText, subnet_text-Reads}
use basin.Signer.Subnet.Chain.{named_network}
use basin.Prelude.{◌<>◌}
use basin.Signer.Key.{parse_secret_key}
use basin.Signer.Key.Laws.{parse_secret_key-written}
use basin.Signer.Interface.{Request}
use basin.Provider.Extract.{extract_actor_state, extract_opt, extract}
use basin.Sdk.Account.{account_sequence, init_sequence-account_sequence}
use basin.Signer.Wallet.{
  Wallet, ethereum, transaction, wallet_signer, init_sequence, set_sequence, new_secp256k1,
}
use basin.Signer.Wallet.Progress.{can_return}
use basin.Signer.Wallet.Clones.{
  free, locked, has_read, has_advanced, Shared, state_at, lock_step, read_step, advance_step,
  return_step, Steps, stay, then_step, clones_distinct, transaction-Steps,
}
use basin.Signer.Wallet.Lifetime.{Uses, unused, then_use, set_found, transacted, Uses-IsMade}
use basin.Provider.Extract.Laws.{HasWords}
use basin.Result.Laws.{ok-injective}
use basin.Signer.Wallet.Nonces.{transactions, signed_with, nth_transaction}
use basin.Signer.Wallet.Sequence.{chosen_sequence, has_sequence, found, set_sequence_exact}
use basin.Tests.Toy.{toy, answer}

abbrev pub test_net : SubnetId toy
test_net = record { faux = "test"; real = (0, []) }

abbrev pub purse : Wallet toy
purse = record { addr = true; sk = 11; subnet_id = test_net; sequence = 7 }

abbrev pub gas : GasParams toy
gas = record { gas_limit = 100; gas_fee_cap = pos 0; gas_premium = pos 0 }

abbrev pub push_request : Request toy
push_request = record {
  to = false;
  value = pos 0;
  method_num = 5;
  params = [];
  object = none;
  gas_params = gas;
}

nth_transaction_example :
    get_elem? (transactions toy (push_request ∷ push_request ∷ []) purse).0 1
    ≡ some (signed_with toy purse 8 push_request)
nth_transaction_example =
    nth_transaction toy (push_request ∷ push_request ∷ []) purse 1 push_request (omega arith) refl

abbrev node : QueryProvider toy
node = record { query = λ q h w. (ok (answer (3 ∷ [])), 1) }

set_sequence_exact_example :
    (is_ok (set_sequence toy none node (purse, 0)).0
      ≡ has_sequence toy none (found toy node purse 0))
    × ((set_sequence toy none node (purse, 0)).1.0
        ≡ record purse { sequence = chosen_sequence toy none 7 (found toy node purse 0) })
    × ((set_sequence toy none node (purse, 0)).1.1 ≡ (run_actor_state toy node true pending 0).1)
set_sequence_exact_example = set_sequence_exact toy node purse 0 none

pub toy_words : HasWords toy
toy_words b a h = let read = ap (λ s. s.sequence) (ok-injective h) in omega arith

abbrev pub fresh_purse : Wallet toy
fresh_purse = record { addr = false; sk = 11; subnet_id = test_net; sequence = 0 }

abbrev asked_purse : Wallet toy
asked_purse = (set_sequence toy none node (fresh_purse, 0)).1.0

purse-Uses :
    Uses toy
      (fresh_purse, 0)
      (
        (transaction toy push_request asked_purse).1,
        (set_sequence toy none node (fresh_purse, 0)).1.1,
      )
purse-Uses =
    then_use _ _ _ (then_use _ _ _ (unused (fresh_purse, 0)) (set_found node (fresh_purse, 0)))
      (transacted push_request asked_purse (set_sequence toy none node (fresh_purse, 0)).1.1)

Uses-IsMade_example :
    (new_secp256k1 toy 11 ethereum test_net
      ≡ ok (record (transaction toy push_request asked_purse).1 { sequence = 0 }))
    × ((transaction toy push_request asked_purse).1.sequence < u64_mod)
unfolding new_secp256k1
Uses-IsMade_example =
    Uses-IsMade toy toy_words 11 ethereum test_net fresh_purse
      (transaction toy push_request asked_purse).1 0
      (set_sequence toy none node (fresh_purse, 0)).1.1 refl purse-Uses

toy_parse : (a : Bool) → parse_address toy (toy.address_text a) ≡ ok a
unfolding parse_address
toy_parse true = refl
toy_parse false = refl

toy-Lacks : (a : Bool) → Lacks b'/' (toy.address_text a)
toy-Lacks true = (ground arith, (ground arith, tt))
toy-Lacks false = (ground arith, (ground arith, tt))

toy-IsSubnetText : IsSubnetText toy
toy-IsSubnetText = record {
  root_id-new = λ r cs. refl;
  children-new = λ r cs. refl;
  default-new = refl;
  parse-text = toy_parse;
  text-Lacks = toy-Lacks;
}

abbrev deep : SubnetId toy
deep = record { faux = ""; real = (123, true ∷ false ∷ []) }

subnet_text-Reads_example : subnet_of_text toy (subnet_text toy deep) ≡ ok deep
unfolding subnet_of_text split parse_u64 parse_address
subnet_text-Reads_example = subnet_text-Reads toy toy-IsSubnetText "/r123/f1/f2" deep refl

named_network_example :
    (chain_id toy test_net < 1000) × (parent toy test_net ≡ err (message "subnet has no parent"))
unfolding subnet_of_text
named_network_example =
    named_network toy "test" test_net refl refl (omega arith) refl (λ e. cc) refl

init_sequence-account_sequence_example : init_sequence toy node (purse, 0) ≡ (
  ok tt,
  (
    record purse { sequence = 40 },
    (account_sequence toy node (wallet_signer toy) pending (purse, 0)).1.1,
  ),
)
unfolding account_sequence wallet_signer run_actor_state extract_actor_state extract_opt extract
init_sequence-account_sequence_example = init_sequence-account_sequence toy node purse 0 40 refl

-- Two calls, the second waiting for the mutex until the first has returned.
abbrev two_calls : Shared
two_calls = state_at 9 free ((2, 8) ∷ (1, 7) ∷ [])

first_call : Steps (state_at 7 free []) (state_at 8 free ((1, 7) ∷ []))
first_call =
    then_step _ (state_at 8 (has_advanced 1 7) []) _
      (then_step _ (state_at 7 (has_read 1 7) []) _
        (then_step _ (state_at 7 (locked 1) []) _
          (then_step _ (state_at 7 free []) _ (stay _) (lock_step 1 7 [])) (read_step 1 7 []))
        (advance_step 1 7 7 []))
      (return_step 1 7 8 [])

both_calls : Steps (state_at 7 free []) two_calls
both_calls =
    then_step _ (state_at 9 (has_advanced 2 8) ((1, 7) ∷ [])) _
      (then_step _ (state_at 8 (has_read 2 8) ((1, 7) ∷ [])) _
        (then_step _ (state_at 8 (locked 2) ((1, 7) ∷ [])) _
          (then_step _ (state_at 8 free ((1, 7) ∷ [])) _ first_call (lock_step 2 8 ((1, 7) ∷ [])))
          (read_step 2 8 ((1, 7) ∷ [])))
        (advance_step 2 8 8 ((1, 7) ∷ [])))
      (return_step 2 8 9 ((1, 7) ∷ []))

clones_distinct_example : ◌≢◌ {A = ℕ} 8 7
clones_distinct_example =
    clones_distinct 7 0 1 8 7 two_calls (omega arith) both_calls (omega arith) refl refl
      (λ e. omega arith)

transaction-Steps_example :
    Steps
      (state_at 7 free [])
      (state_at (transaction toy push_request purse).1.sequence free ((1, 7) ∷ []))
transaction-Steps_example = transaction-Steps toy 1 push_request purse []

can_return_example :
    (n : ℕ) × (l : List (ℕ × ℕ)) × Steps
      (state_at 7 (locked 1) [])
      (state_at ((n + 1) % u64_mod) free ((2, n) ∷ l))
can_return_example = can_return 2 (state_at 7 (locked 1) [])

parse_secret_key-written_example :
    (parse_secret_key toy (" " <> ("11" <> " ")) ≡ parse_secret_key toy "11")
    × (parse_secret_key toy (" " <> (("0x" <> "11") <> " ")) ≡ parse_secret_key toy "11")
parse_secret_key-written_example =
    parse_secret_key-written toy " " "11" " " (refl, tt) (refl, (refl, tt)) (refl, tt) refl
