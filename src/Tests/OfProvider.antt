-- ===== src/Tests/OfProvider.antt =====
-- The theorems on the provider, in the small world.
use basin.Prelude.{ℕ, ◌<>◌, none, some, [], ◌∷◌, ◌≡◌, refl, ◌↔◌, true, decimal, arith, Lacks}
use basin.Prelude.Int.{pos}
use basin.Prelude.Bytes.{Bytes}
use basin.Result.{Result, ok, err, message, is_ok}
use basin.Foreign.Data.{DeliverTx, committed, at_height}
use basin.Provider.Tx.{sync, commit, TxReceipt, committed as settled}
use basin.Provider.Message.{serialize, local_message}
use basin.Provider.Response.{decode_as}
use basin.Provider.Query.{QueryProvider, run_call}
use basin.Provider.Query.Laws.{Carries, run_call-returns}
use basin.Provider.JsonRpc.{JsonRpcProvider, perform}
use basin.Provider.JsonRpc.Perform.{
  broadcast_if_encoded, IsReceiptFor, perform_world, perform_receipt, perform_commit-is_ok,
}
use text.Mathlib.TextLemmas.{cons≢nil}
use Prim.Native.String.{String}
use basin.Prelude.{◌+◌, ◌*◌, ◌^◌, ◌-◌, ◌≤◌, is_digit, lowers_to}
use basin.Float.{
  times, trunc, as_u128, of_u64, of_ratio, round, nearest, spacing, bit_length, bits_up_to, one,
  limit,
}
use basin.Float.Text.{parse_f64}
use basin.Float.Text.Laws.{digits_value}
use basin.Provider.Util.{parse_metadata, parse_query_height, parse_token_amount}
use basin.Provider.Util.Amount.{whole_amount, decimal_amount}
use basin.Provider.Util.Laws.{parse_metadata_iff, parse_query_height-decimal}
use basin.Tests.Encodings.{maybes, maybes-IsRoundTrip}
use basin.Tests.Toy.{toy, toy_types, toy-IsBase64, answer, delivered, accepted}

abbrev bare : JsonRpcProvider toy
bare = record { inner = tt; objects = none }

abbrev read_three : DeliverTx toy_types → Result ℕ
read_three tx = ok 3

abbrev receipt : TxReceipt toy_types ℕ
receipt = record {
  status = settled;
  hash = 5;
  height = some 9;
  gas_used = pos 21;
  return_data = some 3;
}

perform_world_example :
    (perform toy bare read_three 4 sync 0).1
    ≡ broadcast_if_encoded toy bare sync (serialize toy 4) 0
perform_world_example = perform_world toy ℕ bare read_three 4 sync 0

perform_receipt_example : IsReceiptFor toy ℕ commit receipt
unfolding perform serialize
perform_receipt_example = perform_receipt toy ℕ bare read_three 4 commit 0 receipt refl

perform_commit-is_ok_example : is_ok (perform toy bare read_three 4 commit 0).0 ≡ true
unfolding serialize
perform_commit-is_ok_example =
    perform_commit-is_ok toy ℕ bare read_three 4 0 (4 ∷ []) accepted refl refl

-- The answer to a call that returned the optional leaf 7, 8.
abbrev leaf_bytes : Bytes
leaf_bytes = 1 ∷ 7 ∷ 8 ∷ []

leaf_answer-Carries : Carries toy (answer leaf_bytes) leaf_bytes
leaf_answer-Carries = record {
  no_error = refl;
  envelope = leaf_bytes;
  proto = leaf_bytes;
  tx = delivered leaf_bytes;
  unwrapped = refl;
  decoded = refl;
  converted = refl;
  content = refl;
}

abbrev leaf_queries : QueryProvider toy
leaf_queries = record { query = λ q h w. (ok (answer leaf_bytes), 1) }

run_call-returns_example :
    run_call toy leaf_queries
      (local_message toy true 6 [])
      committed
      (decode_as toy maybes "leaf")
      0
    ≡ (ok (record { height = 8; value = some (7 ∷ 8 ∷ []) }), 1)
run_call-returns_example =
    run_call-returns toy maybes "leaf" leaf_queries (local_message toy true 6 []) committed 0
      (answer leaf_bytes) (some (7 ∷ 8 ∷ [])) leaf_bytes toy-IsBase64 maybes-IsRoundTrip refl
      leaf_answer-Carries refl

parse_metadata_iff_example :
    (parse_metadata "a=b=c" ≡ ok ("a", "b=c"))
    ↔ (("a=b=c" ≡ "a" <> ("=" <> "b=c")) × Lacks b'=' "a")
parse_metadata_iff_example = parse_metadata_iff "a=b=c" "a" "b=c"

parse_query_height-decimal_example : parse_query_height (decimal 12) ≡ ok (at_height 12)
parse_query_height-decimal_example = parse_query_height-decimal 12 (omega arith)

whole_amount_example : parse_token_amount toy (decimal 8) ≡ ok (toy.tokens_from_nano (8 * 10 ^ 9))
whole_amount_example = whole_amount toy 8 (omega arith)

decimal_amount_example :
    (n : ℕ) × (parse_token_amount toy ("8" <> String.◌∷◌ "." "2") ≡ ok (toy.tokens_from_nano n))
    × (8_200_000_000 ≤ n + 1)
    × (n ≤ 8_200_000_000)
unfolding digits_value is_digit
decimal_amount_example =
    decimal_amount toy "8" "2" (refl, tt) cons≢nil (refl, tt) (omega arith) (omega arith)

-- A negative amount that is read.
no_tokens : parse_token_amount toy "-3" ≡ ok (toy.tokens_from_nano 0)
unfolding parse_token_amount parse_f64 lowers_to is_digit times trunc as_u128 of_u64 of_ratio round
    nearest spacing bit_length bits_up_to one limit
no_tokens = refl

-- So is what is no number at all, while a text that is not that of a float is refused.
nan_tokens : parse_token_amount toy "nan" ≡ ok (toy.tokens_from_nano 0)
unfolding parse_token_amount parse_f64 lowers_to times trunc as_u128
nan_tokens = refl

infinite_tokens : parse_token_amount toy "inf" ≡ ok (toy.tokens_from_nano (2 ^ 128 - 1))
unfolding parse_token_amount parse_f64 lowers_to times trunc as_u128 of_u64 of_ratio round nearest
    spacing bit_length bits_up_to one limit
infinite_tokens = refl

no_amount : parse_token_amount toy "-abc" ≡ err (message "invalid float literal")
unfolding parse_token_amount parse_f64 lowers_to is_digit
no_amount = refl

-- Of 8.2 tokens, one nano is lost.
lost_nano : parse_token_amount toy "8.2" ≡ ok (toy.tokens_from_nano 8_199_999_999)
unfolding parse_token_amount parse_f64 lowers_to is_digit times trunc as_u128 of_u64 of_ratio round
    nearest spacing bit_length bits_up_to one limit
lost_nano = refl
