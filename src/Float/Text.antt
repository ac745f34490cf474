-- ===== src/Float/Text.antt =====
-- `str::parse::<f64>` of Rust's standard library.
pub mod Laws
pub mod Signs
use Prim.Native.Char.{code}
use basin.Prelude.{
  ℕ, ◌+◌, ◌-◌, ◌*◌, ◌^◌, String, Bool, true, false, ◌≡◌, refl, ◌==◌, ◌||◌, if◌then◌else◌, Option,
  none, some, lowers_to, is_digit,
}
use basin.Float.{F64, nan, infinite, finite, of_ratio, one}

pub record Digits : Type 0 where
  pub value : ℕ
  pub count : ℕ
  pub rest : String

-- The digits at the head of a text, behind others of which these are the value and the count.
unfoldable pub scan_digits : ℕ → ℕ → String → Digits
scan_digits value count String.[] = record { value = value; count = count; rest = "" }
scan_digits value count (String.◌∷◌ c s) =
    if is_digit (code c)
    then scan_digits (value * 10 + (code c - b'0')) (count + 1) s
    else record { value = value; count = count; rest = String.◌∷◌ c s }

-- The digits behind a decimal point, if there is one.
unfoldable pub scan_fraction : ℕ → String → Digits
scan_fraction value String.[] = record { value = value; count = 0; rest = "" }
scan_fraction value (String.◌∷◌ c s) =
    if code c == b'.'
    then scan_digits value 0 s
    else record { value = value; count = 0; rest = String.◌∷◌ c s }

-- m * 10^(up - down)
unfoldable pub scaled : Bool → ℕ → ℕ → ℕ → F64
scaled negative m up down = of_ratio negative (m * 10 ^ up * one) (10 ^ down)

-- The end of an exponent: digits, and nothing else.
unfoldable pub exponent_digits : String → Option ℕ
exponent_digits s =
    let digits = scan_digits 0 0 s in
    if digits.count == 0
    then none
    else elim digits.rest [ String.[] ↦ some digits.value | String.◌∷◌ c t ↦ none ]

unfoldable pub signed_exponent : Bool → ℕ → ℕ → String → Option F64
signed_exponent negative m down String.[] = none
signed_exponent negative m down (String.◌∷◌ c s) =
    if code c == b'-'
    then elim (exponent_digits s) [ none ↦ none | some e ↦ some (scaled negative m 0 (down + e)) ]
    else elim (exponent_digits (if code c == b'+' then s else String.◌∷◌ c s)) [
      | none ↦ none
      | some e ↦ some (scaled negative m e down)
    ]

unfoldable pub parse_exponent : Bool → ℕ → ℕ → String → Option F64
parse_exponent negative m down String.[] = some (scaled negative m 0 down)
parse_exponent negative m down (String.◌∷◌ c s) =
    if code c == b'e' || code c == b'E' then signed_exponent negative m down s else none

-- A number has a digit before or behind the point.
unfoldable pub parse_number : Bool → String → Option F64
parse_number negative s =
    let whole = scan_digits 0 0 s in
    let fraction = scan_fraction whole.value whole.rest in
    if whole.count + fraction.count == 0
    then none
    else parse_exponent negative fraction.value fraction.count fraction.rest

unfoldable pub parse_unsigned : Bool → String → Option F64
parse_unsigned negative s =
    if lowers_to s "nan"
    then some nan
    else if lowers_to s "inf" || lowers_to s "infinity"
    then some (infinite negative)
    else parse_number negative s

unfoldable pub parse_f64 : String → Option F64
unfolding parse_unsigned parse_number parse_exponent signed_exponent exponent_digits scaled
    scan_digits scan_fraction
parse_f64 String.[] = none
parse_f64 (String.◌∷◌ c s) =
    if code c == b'-'
    then parse_unsigned true s
    else parse_unsigned false (if code c == b'+' then s else String.◌∷◌ c s)
