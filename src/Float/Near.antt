-- ===== src/Float/Near.antt =====
-- A fraction of whole numbers that is scaled up to the numbers of a fixed number of digits.
use native.Mathlib.Nat.{
  mul_assoc, mul_comm, mul_right_comm, mul-one, mul-div_cancel, mul-sub, mul-le-mul_left,
  mul-le-mul_right, one-le-pow, le_trans, le_of_mul-le-mul_right, div-lt_iff_lt-mul,
  le-div_iff_mul-le, pow-le-pow_right,
}
use basin.Prelude.{
  ℕ, ◌+◌, ◌-◌, ◌*◌, ◌/◌, ◌^◌, ◌<◌, ◌≤◌, Bool, false, ◌≡◌, refl, ap, ◌∙◌, sym, subst, arith, lt→ltb,
}
use basin.Float.{finite, one, limit, round, of_ratio, of_u64, times, trunc, as_u128}
use basin.Float.Round.{round_bounds, pow_add}
use basin.Float.Laws.{one_pos, of_u64-exact}

-- The bounds of two roundings, one after the other, of an amount of at most 2^51.
two_roundings :
    (n u b y : ℕ)
    → 0 < u
    → n ≤ 2 ^ 51
    → 2 ^ 53 * (n * u) ≤ 2 ^ 53 * b + n * u
    → 2 ^ 53 * b ≤ 2 ^ 53 * (n * u) + n * u
    → 2 ^ 53 * b ≤ 2 ^ 53 * y + b
    → 2 ^ 53 * y ≤ 2 ^ 53 * b + b
    → (n ≤ y / u + 1) × (y / u ≤ n)
two_roundings n u b y pos fits h₁ h₂ h₃ h₄ =
    let a = n * u in
    let bounded : n * u ≤ 2 ^ 51 * u = mul-le-mul_right u fits in
    let above : y < (n + 1) * u = omega arith in
    let below : (n - 1) * u ≤ y = omega (arith, mul_comm (n - 1) u, mul-sub u n 1, mul_comm u n) in
    let le : y / u < n + 1 = (div-lt_iff_lt-mul pos).1 above in
    let ge : n - 1 ≤ y / u = (le-div_iff_mul-le pos).1 below in (omega arith, omega arith)

one-large : 2 ^ 100 ≤ one
unfolding one
one-large = omega arith

-- Rounding a fraction from 2^52 units to 2^90 gives a finite value.
of_ratio-finite :
    (s : Bool) (num den : ℕ)
    → 0 < den
    → 2 ^ 52 * den ≤ num
    → num ≤ 2 ^ 90 * one * den
    → of_ratio s num den ≡ finite s (round num den)
unfolding of_ratio limit
of_ratio-finite s num den pos large small =
    let above = (round_bounds num den pos large).1 in
    let less : round num den ≤ 2 ^ 91 * one =
      le_of_mul-le-mul_right {n = 2 ^ 91 * one} (omega (arith, above)) pos in
    rw (lt→ltb (round num den) (2 ^ 1024 * one) (omega (arith, one_pos))) refl

cancel : (a b : ℕ) → a * one ≤ b * one → a ≤ b
cancel a b h = le_of_mul-le-mul_right h one_pos

module _ (m k : ℕ) (few : k ≤ 9) (pos : 0 < m) (fits : m * 10 ^ (9 - k) ≤ 2 ^ 51) where
  pub first : ℕ
  first = round (m * one) (10 ^ k)

  pub second : ℕ
  second = round (first * (10 ^ 9 * one)) one

  ten_pos : (j : ℕ) → 0 < 10 ^ j
  ten_pos j = one-le-pow j 10 (omega arith)

  ten-le : 10 ^ k ≤ 10 ^ 9
  ten-le = pow-le-pow_right (omega arith) few

  m-le : m ≤ 2 ^ 51
  m-le =
      le_trans (subst (λ t. t ≤ m * 10 ^ (9 - k)) (mul-one m) (mul-le-mul_left m (ten_pos (9 - k))))
        fits

  num_large : 2 ^ 52 * 10 ^ k ≤ m * one
  num_large = let more = mul-le-mul_right {m = 1} one pos in omega (arith, ten-le, one-large)

  first_bounds :
      (2 ^ 53 * (m * one) ≤ 2 ^ 53 * (first * 10 ^ k) + m * one)
      × (2 ^ 53 * (first * 10 ^ k) ≤ 2 ^ 53 * (m * one) + m * one)
  unfolding first
  first_bounds = round_bounds (m * one) (10 ^ k) (ten_pos k) num_large

  first_large : 2 ^ 52 ≤ first * 10 ^ 9
  first_large =
      let more = mul-le-mul_right {m = 1} one pos in
      let wider = mul-le-mul_left first ten-le in omega (arith, first_bounds, one-large)

  second_large : 2 ^ 52 * one ≤ first * (10 ^ 9 * one)
  second_large =
      subst (λ t. 2 ^ 52 * one ≤ t) (mul_assoc first (10 ^ 9) one)
        (mul-le-mul_right one first_large)

  second_bounds :
      (2 ^ 53 * (first * 10 ^ 9) ≤ 2 ^ 53 * second + first * 10 ^ 9)
      × (2 ^ 53 * second ≤ 2 ^ 53 * (first * 10 ^ 9) + first * 10 ^ 9)
  unfolding second
  second_bounds =
      let bounds = round_bounds (first * (10 ^ 9 * one)) one one_pos second_large in
      let b = first * 10 ^ 9 in
      (
        cancel (2 ^ 53 * b) (2 ^ 53 * second + b) (omega (arith, bounds)),
        cancel (2 ^ 53 * second) (2 ^ 53 * b + b) (omega (arith, bounds)),
      )

  -- The first rounding, counted in nano.
  first_nano :
      (2 ^ 53 * (m * 10 ^ (9 - k) * one) ≤ 2 ^ 53 * (first * 10 ^ 9) + m * 10 ^ (9 - k) * one)
      × (2 ^ 53 * (first * 10 ^ 9) ≤ 2 ^ 53 * (m * 10 ^ (9 - k) * one) + m * 10 ^ (9 - k) * one)
  first_nano =
      let e = 10 ^ (9 - k) in
      let whole : k + (9 - k) ≡ 9 = omega arith in
      let split : 10 ^ 9 ≡ 10 ^ k * e = ap (λ t. 10 ^ t) (sym whole) ∙ pow_add 10 k (9 - k) in
      let scaled_up : first * 10 ^ 9 ≡ first * 10 ^ k * e =
        ap (λ t. first * t) split ∙ sym (mul_assoc first (10 ^ k) e) in
      let amount : m * e * one ≡ m * one * e = mul_right_comm m e one in
      let below = mul-le-mul_right e first_bounds.0 in
      let above = mul-le-mul_right e first_bounds.1 in
      rw (scaled_up, amount) (omega (arith, below), omega (arith, above))

  second_small : first * (10 ^ 9 * one) ≤ 2 ^ 90 * one * one
  second_small =
      let bounded = mul-le-mul_right one fits in
      let total : first * 10 ^ 9 ≤ 2 ^ 90 * one = omega (arith, first_nano, bounded) in
      subst (λ t. t ≤ 2 ^ 90 * one * one) (mul_assoc first (10 ^ 9) one)
        (mul-le-mul_right one total)

  second_near : (m * 10 ^ (9 - k) ≤ second / one + 1) × (second / one ≤ m * 10 ^ (9 - k))
  second_near =
      two_roundings (m * 10 ^ (9 - k)) one (first * 10 ^ 9) second one_pos fits first_nano.0
        first_nano.1 second_bounds.0 second_bounds.1

  first-eq : of_ratio false (m * one) (10 ^ k) ≡ finite false first
  unfolding first
  first-eq = of_ratio-finite false (m * one) (10 ^ k) (ten_pos k) num_large (
      let small = mul-le-mul_right one m-le in
      let wider = mul-le-mul_left (2 ^ 90 * one) (ten_pos k) in omega (arith, small, wider))

  second-eq : times (finite false first) (finite false (10 ^ 9 * one)) ≡ finite false second
  unfolding times second
  second-eq = of_ratio-finite false (first * (10 ^ 9 * one)) one one_pos second_large second_small

  nano_second : as_u128 (trunc (finite false second)) ≡ second / one
  unfolding trunc as_u128
  nano_second =
      rw
        (
          mul-div_cancel (second / one) one_pos,
          lt→ltb (second / one) (2 ^ 128) (omega (arith, second_near, fits)),
        )
        refl

  -- The amount in nano that is read is that of the fraction m / 10^k, or one less.
  pub nano_near :
      (n : ℕ) × (as_u128 (trunc (times (of_ratio false (m * one) (10 ^ k)) (of_u64 (10 ^ 9)))) ≡ n)
      × (m * 10 ^ (9 - k) ≤ n + 1)
      × (n ≤ m * 10 ^ (9 - k))
  nano_near = (
    second / one,
    rw (first-eq, of_u64-exact (10 ^ 9) (omega arith), second-eq) nano_second,
    second_near.0,
    second_near.1,
  )
