-- ===== src/Float.antt =====
-- Rust's `f64`: IEEE 754 binary64, rounding to nearest with ties to even, as far as
-- provider/src/util.rs uses it. Float/Text has `str::parse::<f64>`.
pub mod Round
pub mod Text
pub mod Laws
pub mod Near
pub mod Sign
use basin.Prelude.{
  ℕ, zero, suc, ◌+◌, ◌-◌, ◌*◌, ◌/◌, ◌%◌, ◌^◌, Bool, true, false, not, ◌≡◌, refl, ◌==◌, ltb,
  if◌then◌else◌,
}

-- The sign is true for a negative value. A finite value is counted in units of 2^-1074, the least
-- positive one.
pub data F64 : Type 0 where
  nan : F64
  infinite : Bool → F64
  finite : Bool → ℕ → F64

-- The value 1 in these units, and the least value that is no longer finite.
unfoldable pub one : ℕ
one = 2 ^ 1074

unfoldable pub limit : ℕ
limit = 2 ^ 1024 * one

-- The number of binary digits. The fuel bounds it.
unfoldable pub bits_up_to : ℕ → ℕ → ℕ
bits_up_to zero n = 0
bits_up_to (suc f) n = let rest = bits_up_to f (n / 2) + 1 in if n == 0 then 0 else rest

unfoldable pub bit_length : ℕ → ℕ
bit_length n = bits_up_to n n

-- The distance of the values with 53 binary digits that surround a value.
unfoldable pub spacing : ℕ → ℕ
spacing n = 2 ^ (bit_length n - 53)

-- The number nearest to a fraction, with ties to the even one.
unfoldable pub nearest : ℕ → ℕ → ℕ
nearest num den =
    if ltb (2 * (num % den)) den
    then num / den
    else if ltb den (2 * (num % den))
    then num / den + 1
    else num / den + num / den % 2

unfoldable pub round : ℕ → ℕ → ℕ
round num den = nearest num (den * spacing (num / den)) * spacing (num / den)

unfoldable pub of_ratio : Bool → ℕ → ℕ → F64
of_ratio negative num den =
    if ltb (round num den) limit then finite negative (round num den) else infinite negative

-- `n as f64`
unfoldable pub of_u64 : ℕ → F64
of_u64 n = of_ratio false (n * one) 1

abbrev pub differ : Bool → Bool → Bool
differ true b = not b
differ false b = b

abbrev pub infinite_times : Bool → ℕ → F64
infinite_times s zero = nan
infinite_times s (suc u) = infinite s

unfoldable pub times : F64 → F64 → F64
times nan b = nan
times (infinite s) nan = nan
times (infinite s) (infinite t) = infinite (differ s t)
times (infinite s) (finite t u) = infinite_times (differ s t) u
times (finite s u) nan = nan
times (finite s u) (infinite t) = infinite_times (differ s t) u
times (finite s u) (finite t v) = of_ratio (differ s t) (u * v) one

-- `f64::trunc`
unfoldable pub trunc : F64 → F64
trunc nan = nan
trunc (infinite s) = infinite s
trunc (finite s u) = finite s (u / one * one)

-- `f as u128`, which saturates and takes NaN to 0
unfoldable pub as_u128 : F64 → ℕ
as_u128 nan = 0
as_u128 (infinite true) = 0
as_u128 (infinite false) = 2 ^ 128 - 1
as_u128 (finite true u) = 0
as_u128 (finite false u) = if ltb (u / one) (2 ^ 128) then u / one else 2 ^ 128 - 1
