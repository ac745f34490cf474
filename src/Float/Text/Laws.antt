-- ===== src/Float/Text/Laws.antt =====
-- How a decimal number without an exponent is read.
use Prim.Native.Char.{Char, code}
use text.Mathlib.TextLemmas.{nil-append, append-nil, cons-append}
use basin.Prelude.{
  ℕ, suc, ◌+◌, ◌-◌, ◌*◌, String, ◌<>◌, Bool, true, false, ◌≡◌, ◌≢◌, refl, ap, sym, ◌∙◌, ◌==◌, some,
  is_digit, scan, lowers_to, lower, arith,
}
use basin.Float.Text.{
  scan_digits, scan_fraction, scaled, parse_exponent, parse_number, parse_unsigned, parse_f64,
}

-- The text consists of digits.
abbrev pub IsDigits : String → Type 0
IsDigits String.[] = Unit
IsDigits (String.◌∷◌ c s) = (is_digit (code c) ≡ true) × IsDigits s

-- The number that digits stand for behind those of a given value, and how many there are.
unfoldable pub digits_value : ℕ → String → ℕ
digits_value v String.[] = v
digits_value v (String.◌∷◌ c s) = digits_value (v * 10 + (code c - b'0')) s

abbrev pub text_length : String → ℕ
text_length String.[] = 0
text_length (String.◌∷◌ c s) = suc (text_length s)

abbrev Stops : String → Type 0
Stops String.[] = Unit
Stops (String.◌∷◌ c s) = is_digit (code c) ≡ false

scan_digits-append :
    (w rest : String) (v k : ℕ)
    → IsDigits w
    → Stops rest
    → scan_digits v k (w <> rest)
      ≡ record { value = digits_value v w; count = k + text_length w; rest = rest }
unfolding scan_digits digits_value
scan_digits-append String.[] String.[] v k h t = ground arith
scan_digits-append String.[] (String.◌∷◌ c s) v k h t = rw (nil-append) (ground arith)
scan_digits-append (String.◌∷◌ c w) rest v k h t =
    rw (cons-append c w rest)
      (ground (arith, scan_digits-append w rest (v * 10 + (code c - b'0')) (k + 1) h.1 t))

scan_digits-all :
    (w : String) (v k : ℕ)
    → IsDigits w
    → scan_digits v k w ≡ record { value = digits_value v w; count = k + text_length w; rest = "" }
scan_digits-all w v k h =
    ap (scan_digits v k) (sym (append-nil w)) ∙ scan_digits-append w "" v k h tt

point_stops : is_digit (code ".") ≡ false
unfolding is_digit
point_stops = refl

parse_unsigned-number :
    (s : Bool) (c : _) (w : String)
    → is_digit (code c) ≡ true
    → parse_unsigned s (String.◌∷◌ c w) ≡ parse_number s (String.◌∷◌ c w)
unfolding parse_unsigned lowers_to lower is_digit
parse_unsigned-number s c w h = ground arith

-- With digits up to its end, a number is the value of these.
pub parse_number-whole :
    (s : Bool) (w : String)
    → IsDigits w
    → w ≢ ""
    → parse_number s w ≡ some (scaled s (digits_value 0 w) 0 0)
unfolding parse_number scan_fraction parse_exponent
parse_number-whole s String.[] h some_digit = absurd (some_digit refl)
parse_number-whole s (String.◌∷◌ c w) h some_digit =
    rw (scan_digits-all (String.◌∷◌ c w) 0 0 h) (ground arith)

-- With a decimal point between digits, it is the value of all these digits, and what stands behind
-- the point is counted.
pub parse_number-point :
    (s : Bool) (w f : String)
    → IsDigits w
    → w ≢ ""
    → IsDigits f
    → parse_number s (w <> String.◌∷◌ "." f)
      ≡ some (scaled s (digits_value (digits_value 0 w) f) 0 (text_length f))
unfolding parse_number scan_fraction parse_exponent
parse_number-point s String.[] f h some_digit k = absurd (some_digit refl)
parse_number-point s (String.◌∷◌ c w) f h some_digit k =
    rw
      (
        scan_digits-append (String.◌∷◌ c w) (String.◌∷◌ "." f) 0 0 h point_stops,
        scan_digits-all f (digits_value 0 (String.◌∷◌ c w)) 0 k,
      )
      (ground arith)

not_sign : (c : Char) → is_digit (code c) ≡ true → code c == b'-' ≡ false
unfolding is_digit
not_sign c h = ground arith

not_plus : (c : Char) → is_digit (code c) ≡ true → code c == b'+' ≡ false
unfolding is_digit
not_plus c h = ground arith

-- A text that begins with a digit has no sign and is no name of a value.
parse_f64-digit :
    (c : Char) (w : String)
    → is_digit (code c) ≡ true
    → parse_f64 (String.◌∷◌ c w) ≡ parse_number false (String.◌∷◌ c w)
unfolding parse_f64
parse_f64-digit c w h =
    let no_sign : code c == b'-' ≡ false = not_sign c h in
    let no_plus : code c == b'+' ≡ false = not_plus c h in
    rw (no_sign, no_plus) (parse_unsigned-number false c w h)

pub parse_f64-whole :
    (w : String) → IsDigits w → w ≢ "" → parse_f64 w ≡ some (scaled false (digits_value 0 w) 0 0)
parse_f64-whole String.[] h some_digit = absurd (some_digit refl)
parse_f64-whole (String.◌∷◌ c w) h some_digit =
    parse_f64-digit c w h.0 ∙ parse_number-whole false (String.◌∷◌ c w) h some_digit

pub parse_f64-point :
    (w f : String)
    → IsDigits w
    → w ≢ ""
    → IsDigits f
    → parse_f64 (w <> String.◌∷◌ "." f)
      ≡ some (scaled false (digits_value (digits_value 0 w) f) 0 (text_length f))
parse_f64-point String.[] f h some_digit k = absurd (some_digit refl)
parse_f64-point (String.◌∷◌ c w) f h some_digit k =
    ap parse_f64 (cons-append c w _)
    ∙ parse_f64-digit c _ h.0
    ∙ ap (parse_number false) (sym (cons-append c w _))
    ∙ parse_number-point false (String.◌∷◌ c w) f h some_digit k

-- What `str::parse::<u64>` reads consists of digits with the same value.
pub scan-IsDigits : (w : String) (m k : ℕ) → scan w m ≡ some k → IsDigits w × (digits_value m w ≡ k)
unfolding scan digits_value
scan-IsDigits String.[] m k h = ground arith
scan-IsDigits (String.◌∷◌ c w) m k h = ground (arith, scan-IsDigits w (m * 10 + (code c - b'0')) k)
