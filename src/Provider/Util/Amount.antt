-- ===== src/Provider/Util/Amount.antt =====
-- How near the amount of tokens that `parse_token_amount` reads is to the number in its text.
use native.Mathlib.Nat.{mul-one, zero-mul, one-le-pow}
use basin.Prelude.{
  ℕ, zero, suc, ◌+◌, ◌-◌, ◌*◌, ◌^◌, ◌<◌, ◌≤◌, String, ◌<>◌, false, ◌≡◌, ◌≢◌, ap, ◌∙◌, some, decimal,
  arith,
}
use basin.Prelude.Decimal.{scan-decimal, decimal-ne-nil}
use basin.Result.{ok}
use basin.Foreign.{Foreign}
use basin.Float.{F64, finite, one, of_ratio, of_u64, times, trunc, as_u128}
use basin.Float.Laws.{of_ratio-exact, of_u64-exact, times-exact, trunc-whole, as_u128-whole}
use basin.Float.Near.{nano_near}
use basin.Float.Text.{parse_f64, scaled}
use basin.Float.Text.Laws.{
  IsDigits, digits_value, text_length, parse_f64-whole, parse_f64-point, scan-IsDigits,
}
use basin.Provider.Util.{parse_token_amount}

-- The amount in nano that a value is read as.
nano_of : F64 → ℕ
nano_of f = as_u128 (trunc (times f (of_u64 (10 ^ 9))))

module _ (F : Foreign) where
  amount_of :
      (s : String) (f : F64)
      → parse_f64 s ≡ some f
      → parse_token_amount F s ≡ ok (F.tokens_from_nano (nano_of f))
  unfolding parse_token_amount nano_of
  amount_of s f h = rw h

scaled-whole : (n : ℕ) → n < 2 ^ 53 → scaled false n 0 0 ≡ finite false (n * one)
unfolding scaled
scaled-whole n h = of_ratio-exact false n _ 1 (omega arith) h (simp mul-one)

nano_of-whole : (n : ℕ) → n * 10 ^ 9 < 2 ^ 53 → nano_of (finite false (n * one)) ≡ n * 10 ^ 9
unfolding nano_of
nano_of-whole n h =
    ap (λ c. as_u128 (trunc (times (finite false (n * one)) c)))
      (of_u64-exact (10 ^ 9) (omega arith))
    ∙ ap (λ c. as_u128 (trunc c)) (times-exact false false n (10 ^ 9) h)
    ∙ ap as_u128 (trunc-whole false (n * 10 ^ 9))
    ∙ as_u128-whole (n * 10 ^ 9) (omega arith)

-- What the digits of a decimal number stand for: their value, with the place of the point.
scaled-ratio : (m k : ℕ) → scaled false m 0 k ≡ of_ratio false (m * one) (10 ^ k)
unfolding scaled
scaled-ratio m k = simp mul-one

scaled-zero : (k : ℕ) → scaled false 0 0 k ≡ finite false (0 * one)
scaled-zero k =
    scaled-ratio 0 k
    ∙ of_ratio-exact false 0 (0 * one) (10 ^ k) (one-le-pow k 10 (omega arith)) (omega arith)
        (simp zero-mul)

nano_of-near :
    (m k : ℕ)
    → k ≤ 9
    → m * 10 ^ (9 - k) ≤ 2 ^ 51
    → (n : ℕ) × (nano_of (scaled false m 0 k) ≡ n)
      × (m * 10 ^ (9 - k) ≤ n + 1)
      × (n ≤ m * 10 ^ (9 - k))
nano_of-near zero k few fits = (
  0,
  ap nano_of (scaled-zero k) ∙ nano_of-whole 0 (omega arith),
  simp zero-mul (omega arith),
  omega arith,
)
nano_of-near (suc m) k few fits =
    let (n, e, low, high) = nano_near (suc m) k few (omega arith) fits in
    (n, ap nano_of (scaled-ratio (suc m) k) ∙ unfold nano_of in e, low, high)

module _ (F : Foreign) where
  -- An amount of digits with a point behind at least one and before at most nine of them, of at most
  -- 2^51 nano, is read as exactly that amount or as one nano less.
  pub decimal_amount :
      (w f : String)
      → IsDigits w
      → w ≢ ""
      → IsDigits f
      → text_length f ≤ 9
      → digits_value (digits_value 0 w) f * 10 ^ (9 - text_length f) ≤ 2 ^ 51
      → (n : ℕ) × (parse_token_amount F (w <> String.◌∷◌ "." f) ≡ ok (F.tokens_from_nano n))
        × (digits_value (digits_value 0 w) f * 10 ^ (9 - text_length f) ≤ n + 1)
        × (n ≤ digits_value (digits_value 0 w) f * 10 ^ (9 - text_length f))
  decimal_amount w f whole some_digit fraction few fits =
      let m = digits_value (digits_value 0 w) f in
      let (n, e, low, high) = nano_of-near m (text_length f) few fits in
      (
        n,
        amount_of F (w <> String.◌∷◌ "." f) _ (parse_f64-point w f whole some_digit fraction)
            ∙ ap (λ t. ok (F.tokens_from_nano t)) e,
        low,
        high,
      )

  -- A whole number of tokens below 2^53 nano, written in decimal, is read as exactly that amount.
  pub whole_amount :
      (n : ℕ)
      → n * 10 ^ 9 < 2 ^ 53
      → parse_token_amount F (decimal n) ≡ ok (F.tokens_from_nano (n * 10 ^ 9))
  whole_amount n h =
      let (digits, value) = scan-IsDigits (decimal n) 0 n (scan-decimal n (omega arith)) in
      amount_of F (decimal n) (finite false (n * one)) (
        parse_f64-whole (decimal n) digits (decimal-ne-nil n)
        ∙ ap (λ v. some (scaled false v 0 0)) value
        ∙ ap some (scaled-whole n (omega arith)))
      ∙ ap (λ t. ok (F.tokens_from_nano t)) (nano_of-whole n h)
