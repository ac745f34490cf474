-- ===== src/Float/Laws.antt =====
-- Where the arithmetic of whole values is exact.
use native.Mathlib.Nat.{
  mul-lt-mul_of_pos_right, one-le-pow, mul-div_cancel, mul_assoc, mul_left_comm,
}
use basin.Prelude.{ℕ, ◌*◌, ◌^◌, ◌<◌, Bool, false, ◌≡◌, refl, sym, subst, ap, ◌∙◌, lt→ltb, arith}
use basin.Float.{finite, round, one, limit, of_ratio, of_u64, times, trunc, as_u128, differ}
use basin.Float.Round.{round-exact, pow_add}

pub one_pos : 0 < one
unfolding one
one_pos = one-le-pow 1074 2 (omega arith)

whole-lt-limit : (c : ℕ) → c < 2 ^ 53 → c * one < limit
unfolding limit
whole-lt-limit c h = mul-lt-mul_of_pos_right {n = 2 ^ 1024} (omega arith) one_pos

round-whole : (c num den : ℕ) → 0 < den → c < 2 ^ 53 → num ≡ c * one * den → round num den ≡ c * one
unfolding one
round-whole c num den h small e =
    round-exact 1074 c num den h
      (subst (λ t. c * 2 ^ 1074 < t) (sym (pow_add 2 53 1074))
        (mul-lt-mul_of_pos_right small one_pos))
      e

-- A whole value below 2^53 is a value of the type.
pub of_ratio-exact :
    (s : Bool) (c num den : ℕ)
    → 0 < den
    → c < 2 ^ 53
    → num ≡ c * one * den
    → of_ratio s num den ≡ finite s (c * one)
unfolding of_ratio
of_ratio-exact s c num den h small e =
    rw (round-whole c num den h small e, lt→ltb _ _ (whole-lt-limit c small)) refl

pub of_u64-exact : (n : ℕ) → n < 2 ^ 53 → of_u64 n ≡ finite false (n * one)
unfolding of_u64
of_u64-exact n h = of_ratio-exact false n (n * one) 1 (omega arith) h (omega arith)

pub times-exact :
    (s t : Bool) (a b : ℕ)
    → a * b < 2 ^ 53
    → times (finite s (a * one)) (finite t (b * one)) ≡ finite (differ s t) (a * b * one)
unfolding times
times-exact s t a b h = of_ratio-exact (differ s t) (a * b) (a * one * (b * one)) one one_pos h (
    mul_assoc a one (b * one)
    ∙ ap (λ t. a * t) (mul_left_comm one b one)
    ∙ sym (mul_assoc a b (one * one))
    ∙ sym (mul_assoc (a * b) one one))

pub trunc-whole : (s : Bool) (a : ℕ) → trunc (finite s (a * one)) ≡ finite s (a * one)
unfolding trunc
trunc-whole s a = ap (λ t. finite s (t * one)) (mul-div_cancel a one_pos)

pub as_u128-whole : (a : ℕ) → a < 2 ^ 128 → as_u128 (finite false (a * one)) ≡ a
unfolding as_u128
as_u128-whole a h = rw (mul-div_cancel a one_pos, lt→ltb _ _ h)
