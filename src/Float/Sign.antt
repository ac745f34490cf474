-- ===== src/Float/Sign.antt =====
-- What becomes of negative values.
use Prim.Native.Char.{code}
use basin.Prelude.{
  ℕ, zero, suc, ◌+◌, String, Bool, true, false, ◌≡◌, refl, subst, ◌==◌, ◌||◌, if◌then◌else◌, Option,
  none, some, ltb, lowers_to, ◌*◌,
}
use basin.Float.{
  F64, nan, infinite, finite, one, limit, round, of_ratio, of_u64, times, trunc, as_u128,
  infinite_times,
}
use basin.Float.Text.{
  scan_digits, scan_fraction, scaled, exponent_digits, signed_exponent, parse_exponent,
  parse_number, parse_unsigned, parse_f64,
}

-- NaN counts as negative: neither has a sign that shows in a number without one.
abbrev IsNegative : F64 → Type 0
IsNegative nan = Unit
IsNegative (infinite s) = s ≡ true
IsNegative (finite s u) = s ≡ true

abbrev IsPositive : F64 → Type 0
IsPositive nan = Unit
IsPositive (infinite s) = s ≡ false
IsPositive (finite s u) = s ≡ false

abbrev AllNegative : Option F64 → Type 0
AllNegative none = Unit
AllNegative (some f) = IsNegative f

of_ratio-IsNegative : (num den : ℕ) → IsNegative (of_ratio true num den)
unfolding of_ratio
of_ratio-IsNegative num den =
    elim (ltb (round num den) limit)
      as (λ b. IsNegative (if b then finite true (round num den) else infinite true)) [
        | true ↦ refl
        | false ↦ refl
      ]

of_ratio-IsPositive : (num den : ℕ) → IsPositive (of_ratio false num den)
unfolding of_ratio
of_ratio-IsPositive num den =
    elim (ltb (round num den) limit)
      as (λ b. IsPositive (if b then finite false (round num den) else infinite false)) [
        | true ↦ refl
        | false ↦ refl
      ]

if-AllNegative :
    (b : Bool) (x y : Option F64) → AllNegative x → AllNegative y → AllNegative (if b then x else y)
if-AllNegative true x y h k = h
if-AllNegative false x y h k = k

scaled-IsNegative : (m up down : ℕ) → IsNegative (scaled true m up down)
unfolding scaled
scaled-IsNegative m up down = of_ratio-IsNegative _ _

exponent-AllNegative :
    (m : ℕ) (up down : ℕ → ℕ) (o : Option ℕ)
    → AllNegative (elim o [ none ↦ none | some e ↦ some (scaled true m (up e) (down e)) ])
exponent-AllNegative m up down none = tt
exponent-AllNegative m up down (some e) = scaled-IsNegative m (up e) (down e)

signed_exponent-AllNegative :
    (m down : ℕ) (s : String) → AllNegative (signed_exponent true m down s)
unfolding signed_exponent
signed_exponent-AllNegative m down String.[] = tt
signed_exponent-AllNegative m down (String.◌∷◌ c s) =
    if-AllNegative (code c == b'-') _ _
      (exponent-AllNegative m (λ e. 0) (λ e. down + e) (exponent_digits s))
      (exponent-AllNegative m (λ e. e) (λ e. down)
        (exponent_digits (if code c == b'+' then s else String.◌∷◌ c s)))

parse_exponent-AllNegative : (m down : ℕ) (s : String) → AllNegative (parse_exponent true m down s)
unfolding parse_exponent
parse_exponent-AllNegative m down String.[] = scaled-IsNegative m 0 down
parse_exponent-AllNegative m down (String.◌∷◌ c s) =
    if-AllNegative (code c == b'e' || code c == b'E') _ _ (signed_exponent-AllNegative m down s) tt

parse_unsigned-AllNegative : (s : String) → AllNegative (parse_unsigned true s)
unfolding parse_unsigned parse_number
parse_unsigned-AllNegative s = if-AllNegative (lowers_to s "nan") _ _ tt (
    if-AllNegative (lowers_to s "inf" || lowers_to s "infinity") _ _ refl (
      let whole = scan_digits 0 0 s in
      let fraction = scan_fraction whole.value whole.rest in
      if-AllNegative (whole.count + fraction.count == 0) _ _ tt
        (parse_exponent-AllNegative fraction.value fraction.count fraction.rest)))

-- A text that begins with `-` is no positive value.
parse_f64-AllNegative : (s : String) → AllNegative (parse_f64 (String.◌∷◌ "-" s))
unfolding parse_f64
parse_f64-AllNegative s = parse_unsigned-AllNegative s

infinite_times-IsNegative : (u : ℕ) → IsNegative (infinite_times true u)
infinite_times-IsNegative zero = tt
infinite_times-IsNegative (suc u) = refl

times-IsNegative : (f g : F64) → IsNegative f → IsPositive g → IsNegative (times f g)
unfolding times
times-IsNegative nan g h k = tt
times-IsNegative (infinite s) nan h k = tt
times-IsNegative (infinite s) (infinite t) h k = rw (h, k) refl
times-IsNegative (infinite s) (finite t u) h k = rw (h, k) (infinite_times-IsNegative u)
times-IsNegative (finite s u) nan h k = tt
times-IsNegative (finite s u) (infinite t) h k = rw (h, k) (infinite_times-IsNegative u)
times-IsNegative (finite s u) (finite t v) h k = rw (h, k) (of_ratio-IsNegative (u * v) one)

as_u128-negative : (f : F64) → IsNegative f → as_u128 (trunc f) ≡ 0
unfolding trunc as_u128
as_u128-negative nan h = refl
as_u128-negative (infinite s) h = rw h
as_u128-negative (finite s u) h = rw h

-- No negative value has an amount.
pub negative_times :
    (s : String) (f : F64) (n : ℕ)
    → parse_f64 (String.◌∷◌ "-" s) ≡ some f
    → as_u128 (trunc (times f (of_u64 n))) ≡ 0
unfolding of_u64
negative_times s f n h = as_u128-negative _ (
    times-IsNegative f (of_u64 n) (subst AllNegative h (parse_f64-AllNegative s))
      (of_ratio-IsPositive (n * one) 1))
