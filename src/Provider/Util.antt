-- ===== src/Provider/Util.antt =====
-- provider/src/util.rs: parsers of command-line values.
pub mod Laws
pub mod Amount
use Prim.Native.Char.{code}
use basin.Prelude.{
  ℕ, ◌^◌, String, ◌<>◌, Bool, true, false, ◌&&◌, ◌==◌, leb, if◌then◌else◌, Option, none, some,
  parse_u64, lowers_to,
}
use basin.Result.{Result, ok, err, message, ok_or, or_else, ◌>>=◌}
use basin.Float.{times, trunc, as_u128, of_u64}
use basin.Float.Text.{parse_f64}
use basin.Foreign.{Foreign, Parsed, parsed, refused, AddressError, unknown_network, other_error}
use basin.Foreign.Data.{QueryHeight, committed, pending, at_height}

unfoldable pub parse_query_height : String → Result QueryHeight
unfolding lowers_to
parse_query_height s =
    if lowers_to s "committed"
    then ok committed
    else if lowers_to s "pending"
    then ok pending
    else do n ← ok_or (message "not a number") (parse_u64 s); ok (at_height n)

-- A text cut at the first character with the code `k`: `find(k)`, and the slices on its two sides.
unfoldable pub split_once : ℕ → String → Option (String × String)
split_once k String.[] = none
split_once k (String.◌∷◌ c s) =
    let rest = split_once k s in
    if code c == k
    then some ("", s)
    else elim rest [ none ↦ none | some t ↦ some (String.◌∷◌ c t.0, t.1) ]

unfoldable pub parse_metadata : String → Result (String × String)
parse_metadata s =
    ok_or (message ("Expected KEY=VALUE format but `=` not found in `" <> s <> "`"))
      (split_once b'=' s)

abbrev pub fil_amount_nano_digits : ℕ
fil_amount_nano_digits = 9

module _ (F : Foreign) where
  -- A network's refusal has no text here: what `parse_address` reports in the end is the error of
  -- the Ethereum parser.
  of_network : Parsed F.Address → (AddressError → Result F.Address) → Result F.Address
  of_network (parsed a) next = ok a
  of_network (refused e) next = next e

  unfoldable pub parse_address : String → Result F.Address
  unfolding of_network
  parse_address s = of_network (F.parse_mainnet s) λ e. elim e [
    | unknown_network ↦ of_network (F.parse_testnet s) (λ _. F.parse_ethereum s)
    | other_error ↦ F.parse_ethereum s
  ]

  -- Only delegated addresses have one.
  abbrev pub get_delegated_address : F.Address → Result F.EthAddress
  get_delegated_address a = F.delegated a

  -- The text of the error of `f64::from_str` is not kept.
  unfoldable pub parse_token_amount : String → Result F.TokenAmount
  parse_token_amount s = do
    f ← ok_or (message "invalid float literal") (parse_f64 s)
    let nano = trunc (times f (of_u64 (10 ^ fil_amount_nano_digits)))
    ok (F.tokens_from_nano (as_u128 nano))

  unfoldable pub parse_token_amount_from_atto : String → Result F.TokenAmount
  parse_token_amount_from_atto s = do n ← F.big_int_of_text s; ok (F.tokens_from_atto n)
