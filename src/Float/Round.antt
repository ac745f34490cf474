-- ===== src/Float/Round.antt =====
-- How far rounding goes: a rounded value has 53 exact binary digits.
use native.Mathlib.Nat.{
  mod-lt, div-add-mod', pow-succ', one-le-pow, mul_assoc, suc-add, zero-add, pow-zero, one-mul,
  mul-pos, mul_comm, mul_left_comm, le_trans, le-div_iff_mul-le, mul-div-le, mul-le-mul_left,
  mul-mod_left, mul-div_cancel,
}
use basin.Prelude.{
  ℕ, zero, suc, ◌+◌, ◌-◌, ◌*◌, ◌/◌, ◌^◌, ◌≤◌, ◌<◌, ◌≡◌, refl, ap, ◌∙◌, sym, subst, arith, ltb,
  Bool-cases, leb, leb→le, inl, inr,
}
use basin.Float.{bits_up_to, bit_length, spacing, nearest, round}

pub pow_add : (c a b : ℕ) → c ^ (a + b) ≡ c ^ a * c ^ b
pow_add c zero b = simp (zero-add, pow-zero, one-mul)
pow_add c (suc a) b = simp (suc-add, pow-succ', mul_assoc) (ap (λ t. c * t) (pow_add c a b))

bits_up_to-zero : (f : ℕ) → bits_up_to f 0 ≡ 0
unfolding bits_up_to
bits_up_to-zero zero = refl
bits_up_to-zero (suc f) = refl

bits_up_to-pos : (f n : ℕ) → 0 < n → bits_up_to (suc f) n ≡ suc (bits_up_to f (n / 2))
unfolding bits_up_to
bits_up_to-pos f n h = ground arith

-- Two times a positive number has more digits than it has.
low_bits : (f n : ℕ) → n ≤ f → 0 < n → 2 ^ bits_up_to f n ≤ 2 * n
low_bits zero n h p = absurd (omega arith)
low_bits (suc f) n h p =
    rw (bits_up_to-pos f n p, pow-succ')
      (elim (Bool-cases (ltb 0 (n / 2))) [
        | inl more ↦ let rest = low_bits f (n / 2) (omega arith) (ground arith) in omega arith
        | inr last ↦
            let none_left : n / 2 ≡ 0 = ground arith in
            rw (none_left, bits_up_to-zero f) (omega arith)
      ])

bits_up_to-le : (f k n : ℕ) → n < 2 ^ k → bits_up_to f n ≤ k
unfolding bits_up_to
bits_up_to-le zero k n h = omega arith
bits_up_to-le (suc f) zero n h = ground arith
bits_up_to-le (suc f) (suc k) n h = ground (arith, bits_up_to-le f k (n / 2) (omega arith))

pub bit_length-le : (k n : ℕ) → n < 2 ^ k → bit_length n ≤ k
unfolding bit_length
bit_length-le k n h = bits_up_to-le n k n h

pub nearest_bounds :
    (num den : ℕ)
    → 0 < den
    → (2 * num ≤ 2 * (nearest num den * den) + den) × (2 * (nearest num den * den) ≤ 2 * num + den)
unfolding nearest
nearest_bounds num den h = grind (arith, div-add-mod' num den, mod-lt num h)

bits-spacing : (n : ℕ) → 53 ≤ bit_length n → 0 < n → 2 ^ 52 * spacing n ≤ n
unfolding bit_length spacing
bits-spacing n h p =
    let digits = low_bits n n (omega arith) p in
    let parts = pow_add 2 53 (bit_length n - 53) in
    let whole : 53 + (bit_length n - 53) ≡ bit_length n = omega arith in
    let split : 2 ^ bit_length n ≡ 2 ^ 53 * spacing n = ap (λ k. 2 ^ k) (sym whole) ∙ parts in
    omega arith

spacing-one : (n : ℕ) → bit_length n ≤ 53 → spacing n ≡ 1
unfolding spacing
spacing-one n h = let gone : bit_length n - 53 ≡ 0 = omega arith in rw gone

pub spacing-le : (n : ℕ) → 2 ^ 52 ≤ n → 2 ^ 52 * spacing n ≤ n
spacing-le n h = elim (Bool-cases (leb 53 (bit_length n))) [
  | inl many ↦ bits-spacing n (leb→le _ _ many) (omega arith)
  | inr few ↦ rw (spacing-one n (ground arith)) (omega arith)
]

pub spacing_pos : (n : ℕ) → 0 < spacing n
unfolding spacing
spacing_pos n = one-le-pow (bit_length n - 53) 2 (omega arith)

-- A value that is no smaller than 2^52 of the units is rounded by at most the 2^53rd part of it.
pub round_bounds :
    (num den : ℕ)
    → 0 < den
    → 2 ^ 52 * den ≤ num
    → (2 ^ 53 * num ≤ 2 ^ 53 * (round num den * den) + num)
      × (2 ^ 53 * (round num den * den) ≤ 2 ^ 53 * num + num)
unfolding round
round_bounds num den h large =
    let q = num / den in
    let s = spacing q in
    let near = nearest_bounds num (den * s) (mul-pos h (spacing_pos q)) in
    let fits : 2 ^ 52 * s ≤ q = spacing-le q ((le-div_iff_mul-le h).1 large) in
    let small : 2 ^ 52 * (den * s) ≤ num =
      le_trans (subst (λ t. t ≤ den * q) (mul_left_comm den (2 ^ 52) s) (mul-le-mul_left den fits))
        (mul-div-le num den) in
    let regroup : nearest num (den * s) * (den * s) ≡ nearest num (den * s) * s * den =
      ap (λ t. nearest num (den * s) * t) (mul_comm den s) ∙ sym (mul_assoc _ s den) in
    rw (← regroup) (omega (arith, near), omega arith)

nearest-exact : (z den : ℕ) → 0 < den → nearest (z * den) den ≡ z
unfolding nearest
nearest-exact z den h = rw (mul-mod_left z den, mul-div_cancel z h) (ground arith)

spacing-divides : (k v : ℕ) → v < 2 ^ (53 + k) → (z : ℕ) × (2 ^ k ≡ z * spacing v)
unfolding spacing
spacing-divides k v h =
    let few = bit_length-le (53 + k) v h in
    let j = bit_length v - 53 in
    let whole : k - j + j ≡ k = omega arith in
    (2 ^ (k - j), ap (λ t. 2 ^ t) (sym whole) ∙ pow_add 2 (k - j) j)

-- A multiple of 2^k units below 2^(53 + k) units stays as it is.
pub round-exact :
    (k c num den : ℕ)
    → 0 < den
    → c * 2 ^ k < 2 ^ (53 + k)
    → num ≡ c * 2 ^ k * den
    → round num den ≡ c * 2 ^ k
unfolding round
round-exact k c num den h small e =
    let v = c * 2 ^ k in
    let (z, whole) = spacing-divides k v small in
    let s = spacing v in
    let quotient : num / den ≡ v = ap (λ t. t / den) e ∙ mul-div_cancel v h in
    let multiple : c * z * s ≡ v = mul_assoc c z s ∙ ap (λ t. c * t) (sym whole) in
    let parts : num ≡ c * z * (den * s) =
      e
      ∙ ap (λ t. t * den) (sym multiple)
      ∙ mul_assoc (c * z) s den
      ∙ ap (λ t. c * z * t) (mul_comm s den) in
    ap (λ t. nearest num (den * spacing t) * spacing t) quotient
    ∙ ap (λ t. nearest t (den * s) * s) parts
    ∙ ap (λ t. t * s) (nearest-exact (c * z) (den * s) (mul-pos h (spacing_pos v)))
    ∙ multiple
